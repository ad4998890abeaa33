-- ===== src/Inventory/Related/Excluded.antt =====
-- The groups and rules that `_exclude_default_security_group` leaves, as lists.
use Prim.Native.String.{String}
use yggdrasil_home.Base.{
  ◌≡◌, refl, sym, ◌∙◌, ap, Bool, true, false, Option, none, some, List, [], ◌∷◌, map, ◌==◌, keep,
  if◌then◌else◌,
}
use yggdrasil_home.Base.Dict
use yggdrasil_home.Base.Dict.{Dict, member}
use yggdrasil_home.Base.Dict.Laws.{get_or-put}
use yggdrasil_home.Base.Json.{Json}
use yggdrasil_home.Inventory.Related.{
  Listing, not_among, put_objects, resource_to_dict, without_groups, without_rules,
}

-- The result shows every object of a listing as `_resource_to_dict` gives it, and nothing else.
abbrev pub IsMirrored : Listing → Type 0
IsMirrored l =
    (name : String)
    → Dict.get_or l.result name [] ≡ map resource_to_dict (Dict.get_or l.objects name [])

map-if :
    (b : Bool) (xs ys : List Json)
    → (if b then map resource_to_dict xs else map resource_to_dict ys)
      ≡ map resource_to_dict (if b then xs else ys)
map-if true xs ys = refl
map-if false xs ys = refl

-- Storing a resource's objects keeps the result in step.
pub put_objects-IsMirrored :
    (l : Listing) (name : String) (objects : List Json)
    → IsMirrored l
    → IsMirrored (put_objects l name objects)
unfolding put_objects
put_objects-IsMirrored l name objects h key =
    get_or-put l.result name (map resource_to_dict objects) key []
    ∙ ap (λ xs. if name == key then map resource_to_dict objects else xs) (h key)
    ∙ map-if (name == key) objects (Dict.get_or l.objects key [])
    ∙ ap (map resource_to_dict) (sym (get_or-put l.objects name objects key []))

stored :
    (l : Listing) (name key : String) (objects : List Json)
    → Dict.get_or (put_objects l name objects).objects key []
      ≡ (if name == key then objects else Dict.get_or l.objects key [])
unfolding put_objects
stored l name key objects = get_or-put l.objects name objects key []

keep_none : (key : String) (xs : List Json) → keep (not_among [] key) xs ≡ xs
unfolding keep member
keep_none key [] = refl
keep_none key (x ∷ xs) = ap (λ ys. x ∷ ys) (keep_none key xs)

-- The groups and rules of a listing are those of another that have none of the identifiers, and they
-- are shown.
abbrev pub Excludes : List String → (before after : Listing) → Type 0
Excludes ids before after =
    IsMirrored after
    × (Dict.get_or after.objects "security_group" []
        ≡ keep (not_among ids "id") (Dict.get_or before.objects "security_group" []))
    × (Dict.get_or after.objects "security_group_rule" []
        ≡ keep (not_among ids "security_group_id")
            (Dict.get_or before.objects "security_group_rule" []))

with_rules :
    (ids : List String) (rules : Option (List Json)) (before l : Listing)
    → Dict.get l.objects "security_group_rule" ≡ rules
    → IsMirrored l
    → Dict.get_or l.objects "security_group" []
      ≡ keep (not_among ids "id") (Dict.get_or before.objects "security_group" [])
    → Dict.get_or l.objects "security_group_rule" []
      ≡ Dict.get_or before.objects "security_group_rule" []
    → Excludes ids before (without_rules ids rules l)
unfolding Dict.get_or keep
with_rules ids none before l e m g r =
    let nothing : Dict.get_or l.objects "security_group_rule" [] ≡ [] = ap (Dict.or_default []) e in
    (m, g, nothing ∙ ap (keep (not_among ids "security_group_id")) (sym nothing ∙ r))
with_rules ids (some rules) before l e m g r =
    let kept = keep (not_among ids "security_group_id") rules in
    let given : Dict.get_or l.objects "security_group_rule" [] ≡ rules =
      ap (Dict.or_default []) e in
    (
      put_objects-IsMirrored l "security_group_rule" kept m,
      stored l "security_group_rule" "security_group" kept ∙ g,
      stored l "security_group_rule" "security_group_rule" kept
          ∙ ap (keep (not_among ids "security_group_id")) (sym given ∙ r),
    )

pub without_groups-Excludes :
    (ids : List String) (l : Listing)
    → IsMirrored l
    → Excludes ids l (without_groups ids (Dict.get_or l.objects "security_group" []) l)
without_groups-Excludes [] l m = (m, sym (keep_none "id" _), sym (keep_none "security_group_id" _))
without_groups-Excludes (id ∷ ids) l m =
    let kept = keep (not_among (id ∷ ids) "id") (Dict.get_or l.objects "security_group" []) in
    let fewer = put_objects l "security_group" kept in
    with_rules (id ∷ ids) (Dict.get fewer.objects "security_group_rule") l fewer refl
      (put_objects-IsMirrored l "security_group" kept m)
      (stored l "security_group" "security_group" kept)
      (stored l "security_group" "security_group_rule" kept)
