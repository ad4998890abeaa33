-- ===== src/Inventory/Related/Kept.antt =====
-- What an inventory shows of the security groups.
use Prim.Native.String.{String}
use yggdrasil_home.Base.{
  ◌≡◌, refl, sym, ◌∙◌, ap, subst, Bool, true, false, true≢false, not, List, [], ◌∷◌, map, ◌==◌, ◌⊎◌,
  inl, inr, Bool-cases, lower, keep, In, here, there, In_keep, In-keep, not_In-nil,
}
use yggdrasil_home.Base.Dict
use yggdrasil_home.Base.Dict.{Dict, member}
use yggdrasil_home.Base.Dict.Laws.{same_text, same_text_refl}
use yggdrasil_home.Base.Json.{Json, null, flag, number, string, array, object, get_json, field, end}
use yggdrasil_home.Inventory.Filters.{text_of}
use yggdrasil_home.Inventory.Ownership.{value_of}
use yggdrasil_home.Inventory.Related.{
  Listing, default_ids, exclude_default_security_group, is_default, not_among, resource_to_dict,
}
use yggdrasil_home.Inventory.Related.Excluded.{IsMirrored, without_groups-Excludes}

abbrev pub text_at : String → Json → String
text_at key resource = text_of (value_of resource key)

abbrev pub IsDefault : Json → Type 0
IsDefault group = (lower (text_at "name" group) == "default") ≡ true

member_self : (ids : List String) (id : String) → In id ids → member ids id ≡ true
unfolding member
member_self [] id m = absurd (not_In-nil m)
member_self (x ∷ ids) id (here e) = rw (← e, same_text_refl id) refl
member_self (x ∷ ids) id (there m) = elim (Bool-cases (x == id)) [
  | inl k ↦ rw k refl
  | inr k ↦ rw k (member_self ids id m)
]

In-map : (x : Json) (xs : List Json) → In x xs → In (resource_to_dict x) (map resource_to_dict xs)
In-map x [] m = absurd (not_In-nil m)
In-map x (y ∷ ys) (here e) = here (ap resource_to_dict e)
In-map x (y ∷ ys) (there m) = there (In-map x ys m)

In_map :
    (y : Json) (xs : List Json)
    → In y (map resource_to_dict xs)
    → (x : Json) × In x xs × (y ≡ resource_to_dict x)
In_map y [] m = absurd (not_In-nil m)
In_map y (x ∷ xs) (here e) = (x, here refl, e)
In_map y (x ∷ xs) (there m) = let (z, n, e) = In_map y xs m in (z, there n, e)

In-default_ids :
    (g : Json) (groups : List Json) → In g groups → In (text_at "id" g) (map (text_at "id") groups)
In-default_ids g [] m = absurd (not_In-nil m)
In-default_ids g (y ∷ ys) (here e) = here (ap (text_at "id") e)
In-default_ids g (y ∷ ys) (there m) = there (In-default_ids g ys m)

none_member :
    (groups : List Json) (text : String)
    → ((g : Json) → In g groups → (text_at "id" g == text) ≡ false)
    → member (map (text_at "id") groups) text ≡ false
unfolding member
none_member [] text h = refl
none_member (g ∷ groups) text h =
    rw (h g (here refl), none_member groups text (λ x m. h x (there m))) refl

-- What is shown of a resource has its texts at the keys that the groups are told apart by.
wrapped_text :
    (key : String) (x : Json)
    → (key ≡ "id") ⊎ (key ≡ "security_group_id")
    → text_at key (object (field "value" x end)) ≡ text_of null
unfolding value_of get_json
wrapped_text key x (inl e) = rw e refl
wrapped_text key x (inr e) = rw e refl

shown_text :
    (key : String)
    → (key ≡ "id") ⊎ (key ≡ "security_group_id")
    → (x : Json) → text_at key (resource_to_dict x) ≡ text_at key x
unfolding resource_to_dict value_of
shown_text key e (object fs) = refl
shown_text key e null = wrapped_text key null e
shown_text key e (flag b) = wrapped_text key (flag b) e
shown_text key e (number n) = wrapped_text key (number n) e
shown_text key e (string s) = wrapped_text key (string s) e
shown_text key e (array xs) = wrapped_text key (array xs) e

-- Of the resources of a name, those are shown whose text at a key is the identifier of no default
-- group of the listing, and no other.
pub record ShowsOthers (name key : String) (before after : Listing) : Type 0 where
  pub shows :
      (x group : Json)
      → In x (Dict.get_or after.result name [])
      → In group (Dict.get_or before.objects "security_group" [])
      → IsDefault group
      → (text_at "id" group == text_at key x) ≡ false
  pub comes_from :
      (y : Json)
      → In y (Dict.get_or after.result name [])
      → (x : Json) × In x (Dict.get_or before.objects name []) × (y ≡ resource_to_dict x)
  pub keeps :
      (x : Json)
      → In x (Dict.get_or before.objects name [])
      → ((group : Json)
          → In group (Dict.get_or before.objects "security_group" [])
          → IsDefault group
          → (text_at "id" group == text_at key x) ≡ false)
      → In (resource_to_dict x) (Dict.get_or after.result name [])

distinct : {b : Bool} → not b ≡ true → b ≡ true → ⊥
distinct h e = absurd (true≢false (sym h ∙ ap not e))

other_text :
    (ids : List String) (id key : String) (x : Json)
    → In id ids
    → not_among ids key x ≡ true
    → (id == text_at key x) ≡ false
other_text ids id key x m h = elim (Bool-cases (id == text_at key x)) [
  | inl k ↦ absurd (
      distinct h
        (subst (λ t. member ids t ≡ true) (same_text id (text_at key x) k) (member_self ids id m)))
  | inr k ↦ k
]

module _ (name key : String) (before after : Listing)
    (is_key : (key ≡ "id") ⊎ (key ≡ "security_group_id")) (mirrored : IsMirrored after)
    (kept : Dict.get_or after.objects name []
      ≡ keep
          (not_among (default_ids (Dict.get_or before.objects "security_group" [])) key)
          (Dict.get_or before.objects name [])) where
  shown :
      Dict.get_or after.result name []
      ≡ map resource_to_dict (
          keep
            (not_among (default_ids (Dict.get_or before.objects "security_group" [])) key)
            (Dict.get_or before.objects name []))
  shown = mirrored name ∙ ap (map resource_to_dict) kept

  default_id :
      (group : Json)
      → In group (Dict.get_or before.objects "security_group" [])
      → IsDefault group
      → In (text_at "id" group) (default_ids (Dict.get_or before.objects "security_group" []))
  unfolding default_ids is_default
  default_id group m d = In-default_ids group _ (In-keep is_default m d)

  no_default_id :
      (x : Json)
      → ((group : Json)
          → In group (Dict.get_or before.objects "security_group" [])
          → IsDefault group
          → (text_at "id" group == text_at key x) ≡ false)
      → not_among (default_ids (Dict.get_or before.objects "security_group" [])) key x ≡ true
  unfolding default_ids is_default
  no_default_id x h = ap not (
      none_member (keep is_default (Dict.get_or before.objects "security_group" [])) (text_at key x)
        (λ g m.
          let (n, d) = In_keep is_default (Dict.get_or before.objects "security_group" []) m in
          h g n d))

  origin :
      (y : Json)
      → In y (Dict.get_or after.result name [])
      → (x : Json) × In x (Dict.get_or before.objects name [])
        × (not_among (default_ids (Dict.get_or before.objects "security_group" [])) key x ≡ true)
        × (y ≡ resource_to_dict x)
  origin y m =
      let (x, n, e) = In_map y _ (subst (In y) shown m) in
      let (listed, other) =
        In_keep (not_among (default_ids (Dict.get_or before.objects "security_group" [])) key) _
          n in
      (x, listed, other, e)

  shows_others : ShowsOthers name key before after
  shows_others = record {
    shows = λ y group m g d.
        let (x, listed, other, e) = origin y m in
        let text : text_at key x ≡ text_at key y =
          sym (ap (text_at key) e ∙ shown_text key is_key x) in
        subst (λ t. (text_at "id" group == t) ≡ false) text
          (other_text _ (text_at "id" group) key x (default_id group g d) other);
    comes_from = λ y m. let (x, listed, other, e) = origin y m in (x, listed, e);
    keeps = λ x m h. subst (In (resource_to_dict x)) (sym shown) (
        In-map x _ (
          In-keep (not_among (default_ids (Dict.get_or before.objects "security_group" [])) key) m
            (no_default_id x h)));
  }

-- Of a listing whose result shows its objects, the exclusion leaves in the result no security group
-- with the identifier of a listed group named "default", in any case, and no rule of such a group;
-- every other group and rule stays, and nothing comes that was not listed.
pub exclude_default_security_group-ShowsOthers :
    (l : Listing)
    → IsMirrored l
    → ShowsOthers "security_group" "id" l (exclude_default_security_group l)
      × ShowsOthers "security_group_rule" "security_group_id" l (exclude_default_security_group l)
unfolding exclude_default_security_group
exclude_default_security_group-ShowsOthers l h =
    let (mirrored, groups, rules) =
      without_groups-Excludes (default_ids (Dict.get_or l.objects "security_group" [])) l h in
    (
      shows_others "security_group" "id" l (exclude_default_security_group l) (inl refl) mirrored
          groups,
      shows_others "security_group_rule" "security_group_id" l (exclude_default_security_group l)
          (inr refl) mirrored rules,
    )
