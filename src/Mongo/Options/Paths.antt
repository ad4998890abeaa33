-- ===== src/Mongo/Options/Paths.antt =====
-- Dotted keys as paths.
use Prim.Native.String.{String}
use yggdrasil_home.Base.{
  some_inj, ◌≡◌, refl, subst, ◌∙◌, true, Option, none, some, List, [], ◌∷◌, inl, inr, Bool-cases,
}
use yggdrasil_home.Base.Dict.Laws.{same_text_refl}
use yggdrasil_home.Base.Fields.{get_field, set_field, get-set_field}
use yggdrasil_home.Base.Json.{Json, object, Fields, end, field}
use yggdrasil_home.Mongo.Options.{
  as_mapping, has_dot, mapping_at, nest, normalize_into, normalize_value, parts_of, set_parts,
  set_path,
}
use yggdrasil_home.Mongo.Options.Dotless.{and_then-some, and_value-some}

abbrev pub under : (Fields → Option Json) → Option Fields → Option Json
under look none = none
under look (some fs) = look fs

-- What stands at the end of a path of mappings.
unfoldable pub at_path : List String → String → Fields → Option Json
unfolding get_field
at_path [] part fs = get_field fs part
at_path (next ∷ parts) part fs =
    under (λ gs. at_path parts next gs) (as_mapping (get_field fs part))

set-get_field :
    (key : String) (value : Json) (fs : Fields)
    → get_field (set_field key value fs) key ≡ some value
set-get_field key value fs = get-set_field key value fs key ∙ rw (same_text_refl key) refl

set_path-at_path :
    (part : String) (parts : List String) (value : Json) (fs : Fields)
    → at_path parts part (set_path part parts value fs) ≡ some value
unfolding at_path set_path
set_path-at_path part [] value fs = set-get_field part value fs
set_path-at_path part (next ∷ parts) value fs =
    rw (set-get_field part (object (set_path next parts value (mapping_at (get_field fs part)))) fs)
      (set_path-at_path next parts value (mapping_at (get_field fs part)))

-- The options with one more at their end.
abbrev pub with_last : String → Json → Fields → Fields
with_last key value end = field key value end
with_last key value (field j v rest) = field j v (with_last key value rest)

last_path :
    (key : String) (value : Json) (part : String) (parts : List String)
    (options normalized out : Fields)
    → normalize_into (with_last key value options) normalized ≡ some out
    → has_dot key ≡ true
    → parts_of key ≡ part ∷ parts
    → at_path parts part out ≡ some value
unfolding normalize_into
last_path key value part parts end normalized out e d p =
    let (fs, l, m) =
      and_then-some (set_parts (parts_of key) value normalized) (λ fs. some fs) out (rw d at e) in
    let set : some (set_path part parts value normalized) ≡ some fs = rw p at l in
    subst (λ x. at_path parts part x ≡ some value) (some_inj set ∙ some_inj m)
      (set_path-at_path part parts value normalized)
last_path key value part parts (field j v rest) normalized out e d p =
    elim (Bool-cases (has_dot j)) [
      | inl k ↦
          let (fs, l, m) =
            and_then-some (set_parts (parts_of j) v normalized)
              (λ fs. normalize_into (with_last key value rest) fs) out (rw k at e) in
          last_path key value part parts rest fs out m d p
      | inr k ↦
          let (u, l, m) =
            and_value-some (normalize_value v)
              (λ u. normalize_into (with_last key value rest) (set_field j u normalized)) out
              (rw k at e) in
          last_path key value part parts rest (set_field j u normalized) out m d p
    ]

-- The last of the options, if its key has dots, is found again in the nested options by the path of
-- the key's parts, whatever the options before it have put on that path.
pub nest-at_path :
    (options nested : Fields) (key : String) (value : Json) (part : String) (parts : List String)
    → nest (with_last key value options) ≡ some nested
    → has_dot key ≡ true
    → parts_of key ≡ part ∷ parts
    → at_path parts part nested ≡ some value
nest-at_path options nested key value part parts e d p =
    last_path key value part parts options end nested e d p
