-- ===== src/Base/Json.antt =====
-- JSON values as `json.loads` gives them, and what Python's `str`, `repr`, `or` and `isinstance`
-- see of them. A number is kept as the text that `str` gives for it and whether it is zero, which
-- is all that the programs read; a parsed object holds each key once.
use mathlib.Core.Bool.{Bool, true, false, not, ◌&&◌}
use mathlib.Core.Option.{none, some}
use mathlib.Core.List.{List, [], ◌∷◌}
use Prim.Native.Char.{Char, code}
use Prim.Native.String.{String, ◌++◌ as ◌<>◌}
use text.Mathlib.Text.{◌==◌}
use yggdrasil_home.Base.Tests.{eqb, if◌then◌else◌}
use yggdrasil_home.Base.Texts.{contains_text}
use yggdrasil_home.Base.Dict
use yggdrasil_home.Base.Dict.{Dict}

pub record Number : Type 0 where
  pub text : String
  pub is_zero : Bool

mutual
  pub data Json : Type 0 where
    null : Json
    flag : Bool → Json
    number : Number → Json
    string : String → Json
    array : Items → Json
    object : Fields → Json

  pub data Items : Type 0 where
    nil : Items
    cons : Json → Items → Items

  pub data Fields : Type 0 where
    end : Fields
    field : String → Json → Fields → Fields

abbrev pub to_list : Items → List Json
to_list nil = []
to_list (cons x xs) = x ∷ to_list xs

abbrev pub to_dict : Fields → Dict Json
to_dict end = []
to_dict (field k v fs) = (k, v) ∷ to_dict fs

-- `bool(value)`
unfoldable pub truthy : Json → Bool
truthy null = false
truthy (flag b) = b
truthy (number n) = not n.is_zero
truthy (string s) = not (s == "")
truthy (array nil) = false
truthy (array (cons x xs)) = true
truthy (object end) = false
truthy (object (field k v fs)) = true

-- `value or other`
unfoldable pub or_else : Json → Json → Json
unfolding truthy
or_else a b = if truthy a then a else b

-- `d.get(k)`, with None for a missing key
unfoldable pub get_json : Fields → String → Json
unfolding Dict.get
get_json fs k = elim (Dict.get (to_dict fs) k) [ none ↦ null | some v ↦ v ]

escape : Char → String → String
escape q String.[] = String.[]
escape q (String.◌∷◌ c s) =
    let n = code c in
    let rest = escape q s in
    if eqb n 92
    then "\\\\" <> rest
    else if eqb n (code q)
    then String.◌∷◌ "\\" (String.◌∷◌ c rest)
    else if eqb n 10
    then "\\n" <> rest
    else if eqb n 13
    then "\\r" <> rest
    else if eqb n 9
    then "\\t" <> rest
    else String.◌∷◌ c rest

-- `repr(s)`: single quotes, unless only they occur in the text. Other control characters stay.
unfoldable pub repr_text : String → String
unfolding escape contains_text
repr_text s =
    if contains_text "'" s && not (contains_text "\"" s)
    then "\"" <> (escape "\"" s <> "\"")
    else "'" <> (escape "'" s <> "'")

unfoldable mutual
  unfolding repr_text

  pub repr : Json → String
  repr null = "None"
  repr (flag true) = "True"
  repr (flag false) = "False"
  repr (number n) = n.text
  repr (string s) = repr_text s
  repr (array xs) = "[" <> (repr_items xs <> "]")
  repr (object fs) = "{" <> (repr_fields fs <> "}")

  repr_items : Items → String
  repr_items nil = ""
  repr_items (cons x nil) = repr x
  repr_items (cons x (cons y ys)) = repr x <> (", " <> repr_items (cons y ys))

  repr_fields : Fields → String
  repr_fields end = ""
  repr_fields (field k v end) = repr_text k <> (": " <> repr v)
  repr_fields (field k v (field j w fs)) =
      repr_text k <> (": " <> (repr v <> (", " <> repr_fields (field j w fs))))

-- `str(value)`
unfoldable pub str : Json → String
unfolding repr
str (string s) = s
str other = repr other
