-- ===== src/Mongo/Options/Dotless.antt =====
-- What `nest` leaves of keys with dots, in options that have none where it does not descend.
use Prim.Native.String.{String}
use yggdrasil_home.Base.{
  some_inj, ◌≡◌, refl, subst, false, Option, none, some, List, [], ◌∷◌, ◌==◌, Char, if◌then◌else◌,
  inl, inr, Bool-cases, same_char, keep, All, All-In, All-of_In, In_keep,
}
use yggdrasil_home.Base.Fields.{get_field, set_field}
use yggdrasil_home.Base.Json.{
  Json, null, flag, number, string, array, object, Fields, end, field, Items, nil, cons,
}
use yggdrasil_home.Mongo.Options.{
  and_then, and_value, as_object, has_dot, is_named, mapping_at, nest, normalize_into,
  normalize_value, onto_first, parts_of, set_parts, set_path, split_dots,
}

unfoldable mutual
  unfolding has_dot

  -- No key of the mapping, or of the mappings in it and in its lists, holds a dot.
  pub DotlessFields : Fields → Type 0
  DotlessFields end = Unit
  DotlessFields (field key value rest) = (has_dot key ≡ false) × Dotless value × DotlessFields rest

  pub Dotless : Json → Type 0
  Dotless (object fs) = DotlessFields fs
  Dotless (array xs) = DotlessItems xs
  Dotless other = Unit

  pub DotlessItems : Items → Type 0
  DotlessItems nil = Unit
  DotlessItems (cons x xs) = Dotless x × DotlessItems xs

unfoldable mutual
  unfolding has_dot Dotless DotlessItems

  -- What stands under a key with dots, or in a list, has no such keys itself.
  pub PlainFields : Fields → Type 0
  PlainFields end = Unit
  PlainFields (field key value rest) =
      (if has_dot key then Dotless value else Plain value) × PlainFields rest

  pub Plain : Json → Type 0
  Plain (object fs) = PlainFields fs
  Plain (array xs) = DotlessItems xs
  Plain other = Unit

set_field-Dotless :
    (key : String) (value : Json) (fs : Fields)
    → has_dot key ≡ false
    → Dotless value
    → DotlessFields fs
    → DotlessFields (set_field key value fs)
unfolding set_field DotlessFields
set_field-Dotless key value end k v h = (k, v, tt)
set_field-Dotless key value (field j u rest) k v h = elim (Bool-cases (j == key)) [
  | inl e ↦ rw e (h.0, v, h.2)
  | inr e ↦ rw e (h.0, h.1, set_field-Dotless key value rest k v h.2)
]

get_field-Dotless :
    (fs : Fields) (key : String) (value : Json)
    → get_field fs key ≡ some value
    → DotlessFields fs
    → Dotless value
unfolding get_field DotlessFields
get_field-Dotless end key value e h = cc e
get_field-Dotless (field j u rest) key value e h = elim (Bool-cases (j == key)) [
  | inl k ↦ let m : some u ≡ some value = rw k at e in subst Dotless (some_inj m) h.1
  | inr k ↦ get_field-Dotless rest key value (rw k at e) h.2
]

mapping_at-Dotless :
    (fs : Fields) (key : String) → DotlessFields fs → DotlessFields (mapping_at (get_field fs key))
unfolding DotlessFields
mapping_at-Dotless fs key h = by_value (get_field fs key) refl
  where
    by_value : (found : Option Json) → get_field fs key ≡ found → DotlessFields (mapping_at found)
    by_value (some (object gs)) e = get_field-Dotless fs key (object gs) e h
    by_value (some null) e = tt
    by_value (some (flag b)) e = tt
    by_value (some (number n)) e = tt
    by_value (some (string s)) e = tt
    by_value (some (array xs)) e = tt
    by_value none e = tt

set_path-Dotless :
    (part : String) (parts : List String) (value : Json) (fs : Fields)
    → All (λ p. has_dot p ≡ false) (part ∷ parts)
    → Dotless value
    → DotlessFields fs
    → DotlessFields (set_path part parts value fs)
unfolding set_path DotlessFields
set_path-Dotless part [] value fs h v k = set_field-Dotless part value fs h.0 v k
set_path-Dotless part (next ∷ parts) value fs h v k =
    set_field-Dotless part _ fs h.0
      (set_path-Dotless next parts value (mapping_at (get_field fs part)) h.1 v
        (mapping_at-Dotless fs part k))
      k

onto_first-Dotless :
    (c : Char) (words : List String)
    → same_char "." c ≡ false
    → All (λ p. has_dot p ≡ false) words
    → All (λ p. has_dot p ≡ false) (onto_first c words)
unfolding has_dot
onto_first-Dotless c [] e h = (rw e refl, tt)
onto_first-Dotless c (word ∷ words) e h = (rw e h.0, h.1)

split_dots-Dotless : (key : String) → All (λ p. has_dot p ≡ false) (split_dots key)
unfolding split_dots has_dot
split_dots-Dotless String.[] = (refl, tt)
split_dots-Dotless (String.◌∷◌ c s) = elim (Bool-cases (same_char "." c)) [
  | inl e ↦ rw e (refl, split_dots-Dotless s)
  | inr e ↦ rw e (onto_first-Dotless c (split_dots s) e (split_dots-Dotless s))
]

parts_of-Dotless : (key : String) → All (λ p. has_dot p ≡ false) (parts_of key)
unfolding parts_of
parts_of-Dotless key =
    All-of_In (λ p. has_dot p ≡ false) (keep is_named (split_dots key))
      (λ p m.
        All-In (λ q. has_dot q ≡ false) (split_dots-Dotless key)
          (In_keep is_named (split_dots key) m).0)

set_parts-Dotless :
    (parts : List String) (value : Json) (fs out : Fields)
    → set_parts parts value fs ≡ some out
    → All (λ p. has_dot p ≡ false) parts
    → Dotless value
    → DotlessFields fs
    → DotlessFields out
set_parts-Dotless [] value fs out e h v k = cc e
set_parts-Dotless (part ∷ parts) value fs out e h v k =
    subst DotlessFields (some_inj e) (set_path-Dotless part parts value fs h v k)

pub and_then-some :
    (first : Option Fields) (next : Fields → Option Fields) (out : Fields)
    → and_then first next ≡ some out
    → (fs : Fields) × (first ≡ some fs) × (next fs ≡ some out)
and_then-some none next out e = cc e
and_then-some (some fs) next out e = (fs, refl, e)

pub and_value-some :
    (first : Option Json) (next : Json → Option Fields) (out : Fields)
    → and_value first next ≡ some out
    → (value : Json) × (first ≡ some value) × (next value ≡ some out)
and_value-some none next out e = cc e
and_value-some (some value) next out e = (value, refl, e)

as_object-Dotless :
    (first : Option Fields) (value : Json)
    → as_object first ≡ some value
    → ((fs : Fields) → first ≡ some fs → DotlessFields fs)
    → Dotless value
unfolding Dotless
as_object-Dotless none value e h = cc e
as_object-Dotless (some fs) value e h = subst Dotless (some_inj e) (h fs refl)

mutual
  unfolding normalize_into Plain Dotless

  normalize_into-Dotless :
      (options normalized out : Fields)
      → normalize_into options normalized ≡ some out
      → PlainFields options
      → DotlessFields normalized
      → DotlessFields out
  normalize_into-Dotless end normalized out e p h = subst DotlessFields (some_inj e) h
  normalize_into-Dotless (field key value rest) normalized out e p h =
      elim (Bool-cases (has_dot key)) [
        | inl k ↦
            let (fs, l, m) =
              and_then-some (set_parts (parts_of key) value normalized)
                (λ fs. normalize_into rest fs) out (rw k at e) in
            let v : Dotless value = rw k at p.0 in
            normalize_into-Dotless rest fs out m p.1
              (set_parts-Dotless (parts_of key) value normalized fs l (parts_of-Dotless key) v h)
        | inr k ↦
            let (v, l, m) =
              and_value-some (normalize_value value)
                (λ v. normalize_into rest (set_field key v normalized)) out (rw k at e) in
            let q : Plain value = rw k at p.0 in
            normalize_into-Dotless rest (set_field key v normalized) out m p.1
              (set_field-Dotless key v normalized k (normalize_value-Dotless value v l q) h)
      ]

  normalize_value-Dotless :
      (value out : Json) → normalize_value value ≡ some out → Plain value → Dotless out
  normalize_value-Dotless (object fs) out e p =
      as_object-Dotless (normalize_into fs end) out e
        (λ gs l. normalize_into-Dotless fs end gs l p tt)
  normalize_value-Dotless null out e p = subst Dotless (some_inj e) tt
  normalize_value-Dotless (flag b) out e p = subst Dotless (some_inj e) tt
  normalize_value-Dotless (number n) out e p = subst Dotless (some_inj e) tt
  normalize_value-Dotless (string s) out e p = subst Dotless (some_inj e) tt
  normalize_value-Dotless (array xs) out e p = subst Dotless (some_inj e) p

-- Options that have no keys with dots below a key with dots or in a list are nested entirely: no key
-- of what the nesting gives, at any depth and in lists too, holds a dot.
pub nest-Dotless :
    (options nested : Fields)
    → nest options ≡ some nested
    → PlainFields options
    → DotlessFields nested
unfolding DotlessFields
nest-Dotless options nested e p = normalize_into-Dotless options end nested e p tt
