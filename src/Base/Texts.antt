-- ===== src/Base/Texts.antt =====
-- Python's `str` methods over the native texts. Case mapping is that of the ASCII letters; every
-- other character is left as it is.
use Prim.Native.Nat.{ℕ, zero, suc, ◌/◌, ◌%◌}
use Prim.Native.Char.{Char, code}
use Prim.Native.String.{String, ◌++◌ as ◌<>◌, char_at}
use mathlib.Core.Bool.{Bool, true, false, ◌&&◌, ◌||◌}
use mathlib.Core.Option.{Option, none, some}
use mathlib.Core.List.{List, [], ◌∷◌}
use text.Mathlib.Text.{◌==◌}
use yggdrasil_home.Base.Tests.{leb, eqb, ltb, if◌then◌else◌}

abbrev pub same_char : Char → Char → Bool
same_char c d = eqb (code c) (code d)

-- The character at the place of `c` in the first text, read off the second; `c` if it has none.
translate : String → String → Char → Char
translate (String.◌∷◌ x xs) (String.◌∷◌ y ys) c =
    let rest = translate xs ys c in if same_char c x then y else rest
translate _ _ c = c

unfoldable pub map_text : (Char → Char) → String → String
map_text f String.[] = String.[]
map_text f (String.◌∷◌ c s) = String.◌∷◌ (f c) (map_text f s)

-- `s.lower()`, and `s.casefold()`
unfoldable pub lower : String → String
unfolding translate map_text
lower = map_text (translate "ABCDEFGHIJKLMNOPQRSTUVWXYZ" "abcdefghijklmnopqrstuvwxyz")

-- `s.upper()`
unfoldable pub upper : String → String
unfolding translate map_text
upper = map_text (translate "abcdefghijklmnopqrstuvwxyz" "ABCDEFGHIJKLMNOPQRSTUVWXYZ")

-- The characters that `str.strip()` takes for white space.
unfoldable pub is_space : Char → Bool
is_space c =
    let n = code c in
    (leb 9 n && leb n 13)
    || (leb 28 n && leb n 32)
    || eqb n 133
    || eqb n 160
    || eqb n 5760
    || (leb 8192 n && leb n 8202)
    || eqb n 8232
    || eqb n 8233
    || eqb n 8239
    || eqb n 8287
    || eqb n 12288

unfoldable pub lstrip_by : (Char → Bool) → String → String
lstrip_by p String.[] = String.[]
lstrip_by p (String.◌∷◌ c s) = let rest = lstrip_by p s in if p c then rest else String.◌∷◌ c s

unfoldable pub rstrip_by : (Char → Bool) → String → String
rstrip_by p String.[] = String.[]
rstrip_by p (String.◌∷◌ c s) =
    let rest = rstrip_by p s in if (rest == "") && p c then String.[] else String.◌∷◌ c rest

unfoldable pub strip_by : (Char → Bool) → String → String
unfolding lstrip_by rstrip_by
strip_by p s = rstrip_by p (lstrip_by p s)

-- `s.strip()`
unfoldable pub strip : String → String
unfolding strip_by is_space
strip = strip_by is_space

-- What follows the prefix, if the text begins with it.
unfoldable pub drop_prefix : String → String → Option String
drop_prefix String.[] s = some s
drop_prefix (String.◌∷◌ c p) String.[] = none
drop_prefix (String.◌∷◌ c p) (String.◌∷◌ d s) =
    let rest = drop_prefix p s in if same_char c d then rest else none

-- `s.startswith(p)`
unfoldable pub has_prefix : String → String → Bool
unfolding drop_prefix
has_prefix p s = elim (drop_prefix p s) [ none ↦ false | some _ ↦ true ]

-- `p in s`
unfoldable pub contains_text : String → String → Bool
unfolding has_prefix
contains_text p String.[] = has_prefix p String.[]
contains_text p (String.◌∷◌ c s) = has_prefix p (String.◌∷◌ c s) || contains_text p s

-- `sep.join(parts)`
unfoldable pub join : String → List String → String
join sep [] = ""
join sep (x ∷ []) = x
join sep (x ∷ y ∷ rest) = x <> (sep <> join sep (y ∷ rest))

decimal_fuel : ℕ → ℕ → String → String
decimal_fuel zero n acc = acc
decimal_fuel (suc fuel) n acc =
    let acc' = String.◌∷◌ (char_at "0123456789" (n % 10)) acc in
    let rest = decimal_fuel fuel (n / 10) acc' in if ltb n 10 then acc' else rest

-- `str(n)`; a number has no more digits than itself plus one.
unfoldable pub decimal : ℕ → String
unfolding decimal_fuel
decimal n = decimal_fuel (suc n) n ""

-- `not s`
abbrev pub is_blank : String → Bool
is_blank s = s == ""

-- `a or b`, of two texts
abbrev pub or_text : String → String → String
or_text a b = if is_blank a then b else a

-- The order of Python's texts, by code points.
unfoldable pub text_le : String → String → Bool
text_le String.[] t = true
text_le (String.◌∷◌ c s) String.[] = false
text_le (String.◌∷◌ c s) (String.◌∷◌ d t) =
    ltb (code c) (code d) || (eqb (code c) (code d) && text_le s t)
