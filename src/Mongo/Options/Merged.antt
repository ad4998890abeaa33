-- ===== src/Mongo/Options/Merged.antt =====
-- Merged options by their paths.
use Prim.Native.String.{String}
use yggdrasil_home.Base.{
  some_inj, ◌≡◌, refl, sym, ap, subst, ◌∙◌, Option, none, some, List, [], ◌∷◌, ◌==◌, ◌⊎◌, inl, inr,
  Bool-cases,
}
use yggdrasil_home.Base.Dict.Laws.{same_text}
use yggdrasil_home.Base.Fields.{get_field, set_field, get-set_field}
use yggdrasil_home.Base.Json.{Json, null, flag, number, string, array, object, Fields, end, field}
use yggdrasil_home.Mongo.Options.{as_mapping, merge, merged}
use yggdrasil_home.Mongo.Options.Paths.{at_path, under}

unfoldable mutual
  unfolding get_field

  -- Each key once, in every mapping.
  pub UniqueFields : Fields → Type 0
  UniqueFields end = Unit
  UniqueFields (field key value rest) =
      (get_field rest key ≡ none) × Unique value × UniqueFields rest

  pub Unique : Json → Type 0
  Unique (object fs) = UniqueFields fs
  Unique other = Unit

some_not_none {ℓ} : {A : Type ℓ} {a : A} → some a ≡ none → ⊥
some_not_none e = cc e

-- A key that the source does not have.
pub merge-kept :
    (source target : Fields) (key : String)
    → get_field source key ≡ none
    → get_field (merge source target) key ≡ get_field target key
unfolding merge get_field
merge-kept end target key e = refl
merge-kept (field j v rest) target key e = elim (Bool-cases (j == key)) [
  | inl k ↦ absurd (some_not_none (rw k at e))
  | inr k ↦
      merge-kept rest (set_field j (merged v (get_field target j)) target) key (rw k at e)
      ∙ get-set_field j (merged v (get_field target j)) target key
      ∙ rw k refl
]

merge-get :
    (source target : Fields) (key : String) (value : Json)
    → UniqueFields source
    → get_field source key ≡ some value
    → get_field (merge source target) key ≡ some (merged value (get_field target key))
unfolding merge get_field UniqueFields
merge-get end target key value u e = cc e
merge-get (field j v rest) target key value u e = elim (Bool-cases (j == key)) [
  | inl k ↦
      let same : some v ≡ some value = rw k at e in
      let next = set_field j (merged v (get_field target j)) target in
      merge-kept rest next key (subst (λ x. get_field rest x ≡ none) (same_text j key k) u.0)
      ∙ get-set_field j (merged v (get_field target j)) target key
      ∙ rw k (
          ap some (
            subst (λ x. merged v (get_field target x) ≡ merged value (get_field target key))
              (sym (same_text j key k)) (rw (some_inj same) refl)))
  | inr k ↦
      let next = set_field j (merged v (get_field target j)) target in
      let other = get-set_field j (merged v (get_field target j)) target key in
      merge-get rest next key value u.2 (rw k at e)
      ∙ ap (λ x. some (merged value x)) (other ∙ rw k refl)
]

get-Unique :
    (fs : Fields) (key : String) (value : Json)
    → get_field fs key ≡ some value
    → UniqueFields fs
    → Unique value
unfolding get_field UniqueFields
get-Unique end key value e u = cc e
get-Unique (field j v rest) key value e u = elim (Bool-cases (j == key)) [
  | inl k ↦ let m : some v ≡ some value = rw k at e in subst Unique (some_inj m) u.1
  | inr k ↦ get-Unique rest key value (rw k at e) u.2
]

merged-plain :
    (value : Json) (other : Option Json)
    → as_mapping (some value) ≡ none
    → merged value other ≡ value
unfolding merge
merged-plain (object fs) other e = absurd (some_not_none e)
merged-plain null other e = refl
merged-plain (flag b) other e = refl
merged-plain (number n) other e = refl
merged-plain (string s) other e = refl
merged-plain (array xs) other e = refl

-- A mapping that is merged stays, or is merged into the one that is there.
merged-mapping :
    (fs : Fields) (other : Option Json)
    → (merged (object fs) other ≡ object fs)
      ⊎ ((gs : Fields) × (merged (object fs) other ≡ object (merge fs gs)))
unfolding merge
merged-mapping fs none = inl refl
merged-mapping fs (some (object gs)) = inr (gs, refl)
merged-mapping fs (some null) = inl refl
merged-mapping fs (some (flag b)) = inl refl
merged-mapping fs (some (number n)) = inl refl
merged-mapping fs (some (string s)) = inl refl
merged-mapping fs (some (array xs)) = inl refl

-- The mapping that a lookup leads to, with what the lookup finds.
looked_under :
    (look : Fields → Option Json) (found : Option Json) (value : Json)
    → under look (as_mapping found) ≡ some value
    → (fs : Fields) × (found ≡ some (object fs)) × (look fs ≡ some value)
looked_under look (some (object fs)) value e = (fs, refl, e)
looked_under look (some null) value e = cc e
looked_under look (some (flag b)) value e = cc e
looked_under look (some (number n)) value e = cc e
looked_under look (some (string s)) value e = cc e
looked_under look (some (array xs)) value e = cc e
looked_under look none value e = cc e

-- Whatever plain value a configuration has at a path is there once it is merged into another, if it
-- has each key once, whatever the other has on that path.
pub merge-at_path :
    (parts : List String) (part : String) (source target : Fields) (value : Json)
    → UniqueFields source
    → as_mapping (some value) ≡ none
    → at_path parts part source ≡ some value
    → at_path parts part (merge source target) ≡ some value
unfolding at_path UniqueFields
merge-at_path [] part source target value u p e =
    merge-get source target part value u e ∙ ap some (merged-plain value (get_field target part) p)
merge-at_path (next ∷ parts) part source target value u p e =
    let (fs, l, m) = looked_under (λ gs. at_path parts next gs) (get_field source part) value e in
    let found = merge-get source target part (object fs) u l in
    let v : UniqueFields fs = get-Unique source part (object fs) l u in
    elim (merged-mapping fs (get_field target part)) [
      | inl stays ↦ rw (found, stays) m
      | inr (gs, joined) ↦ rw (found, joined) (merge-at_path parts next fs gs value v p m)
    ]
