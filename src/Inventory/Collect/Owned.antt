-- ===== src/Inventory/Collect/Owned.antt =====
-- Whose the collected resources are.
use Prim.Native.String.{String}
use yggdrasil_home.Base.{
  some_inj, ◌≡◌, refl, sym, ◌∙◌, subst, ℕ, Bool, true, false, true≢false, ◌&&◌, Option, none, some,
  List, [], ◌∷◌, ◌++◌, ◌==◌, ◌⊎◌, inl, inr, Bool-cases, map, if◌then◌else◌, keep, In, All, All-In,
  All-of_In, In_keep,
}
use yggdrasil_home.Base.Dict
use yggdrasil_home.Base.Dict.{Dict, member}
use yggdrasil_home.Base.Result.{Result, ok, err, links, ok_inj}
use yggdrasil_home.Base.Json.{Json, null, flag, number, string, array, object, get_json}
use yggdrasil_home.Inventory.Filters.{Endpoint}
use yggdrasil_home.Inventory.Records.{Failure}
use yggdrasil_home.Inventory.Ownership.{
  belongs_to_project, project_value, link_project_of, reference_of, value_of, first_value,
}
use yggdrasil_home.Inventory.Related.{
  Listing, exclude_default_security_group, default_ids, filter_related_resources, put_objects,
  without_groups, without_rules, resource_to_dict,
}
use yggdrasil_home.Inventory.Errors.{Problem, provider_error, is_missing_resource_error}
use yggdrasil_home.Inventory.Specs.{ResourceSpec}
use yggdrasil_home.Inventory.Listings.{Proxy, list_spec, spec_objects}
use yggdrasil_home.Inventory.Collect.{
  Collected, Project, Raised, collect, collect_spec, handled, listed_or_none, refined, relate,
  start, store_as,
}
use yggdrasil_home.Inventory.Collect.Invariant.{collect_keeps}

abbrev with_errors : Collected → List Problem → Collected
with_errors c errors = record { errors = errors; listing = c.listing }

module _ (project_id : String) where
  abbrev pub Owned : Json → Type 0
  Owned resource = belongs_to_project project_id resource ≡ true

  abbrev AllOwned : Dict (List Json) → Type 0
  AllOwned d = All (λ (name, objects). All Owned objects) d

  keep-Owned : (p : Json → Bool) (xs : List Json) → All Owned xs → All Owned (keep p xs)
  keep-Owned p xs h = All-of_In Owned (keep p xs) (λ x m. All-In Owned h (In_keep p xs m).0)

  put-AllOwned :
      (d : Dict (List Json)) (name : String) (objects : List Json)
      → AllOwned d
      → All Owned objects
      → AllOwned (Dict.put d name objects)
  unfolding Dict.put
  put-AllOwned [] name objects h k = (k, tt)
  put-AllOwned ((j, v) ∷ d) name objects h k = elim (Bool-cases (j == name)) [
    | inl e ↦ rw e (k, h.1)
    | inr e ↦ rw e (h.0, put-AllOwned d name objects h.1 k)
  ]

  get-Owned :
      (d : Dict (List Json)) (name : String) (objects : List Json)
      → Dict.get d name ≡ some objects
      → AllOwned d
      → All Owned objects
  unfolding Dict.get
  get-Owned [] name objects e h = cc e
  get-Owned ((j, v) ∷ d) name objects e h = elim (Bool-cases (j == name)) [
    | inl k ↦ let m : some v ≡ some objects = rw k at e in subst (All Owned) (some_inj m) h.0
    | inr k ↦ get-Owned d name objects (rw k at e) h.1
  ]

  get_or-Owned :
      (d : Dict (List Json)) (name : String) → AllOwned d → All Owned (Dict.get_or d name [])
  unfolding Dict.get_or
  get_or-Owned d name h = by_lookup (Dict.get d name) refl
    where
      by_lookup :
          (found : Option (List Json))
          → Dict.get d name ≡ found
          → All Owned (Dict.or_default [] found)
      by_lookup none e = tt
      by_lookup (some objects) e = get-Owned d name objects e h

  -- What is shown of a resource says of no other project than the resource that it is of it.
  resource_to_dict-Owned : (x : Json) → Owned x → Owned (resource_to_dict x)
  unfolding resource_to_dict belongs_to_project project_value link_project_of reference_of value_of
      first_value get_json
  resource_to_dict-Owned (object fs) h = h
  resource_to_dict-Owned null h = refl
  resource_to_dict-Owned (flag b) h = refl
  resource_to_dict-Owned (number n) h = refl
  resource_to_dict-Owned (string s) h = refl
  resource_to_dict-Owned (array xs) h = refl

  map-Owned : (xs : List Json) → All Owned xs → All Owned (map resource_to_dict xs)
  map-Owned [] h = tt
  map-Owned (x ∷ xs) h = (resource_to_dict-Owned x h.0, map-Owned xs h.1)

  abbrev Sound : Listing → Type 0
  Sound l = AllOwned l.objects × AllOwned l.result

  put_objects-Sound :
      (l : Listing) (name : String) (objects : List Json)
      → Sound l
      → All Owned objects
      → Sound (put_objects l name objects)
  unfolding put_objects
  put_objects-Sound l name objects h k = (
    put-AllOwned l.objects name objects h.0 k,
    put-AllOwned l.result name (map resource_to_dict objects) h.1 (map-Owned objects k),
  )

  without_rules-Sound :
      (ids : List String) (rules : Option (List Json)) (l : Listing)
      → Dict.get l.objects "security_group_rule" ≡ rules
      → Sound l
      → Sound (without_rules ids rules l)
  without_rules-Sound ids none l e h = h
  without_rules-Sound ids (some rules) l e h =
      put_objects-Sound l "security_group_rule" _ h
        (keep-Owned _ rules (get-Owned l.objects "security_group_rule" rules e h.0))

  without_groups-Sound :
      (ids : List String) (groups : List Json) (l : Listing)
      → All Owned groups
      → Sound l
      → Sound (without_groups ids groups l)
  without_groups-Sound [] groups l k h = h
  without_groups-Sound (id ∷ ids) groups l k h =
      without_rules-Sound (id ∷ ids) _ _ refl
        (put_objects-Sound l "security_group" _ h (keep-Owned _ groups k))

  exclude-Sound : (l : Listing) → Sound l → Sound (exclude_default_security_group l)
  unfolding exclude_default_security_group
  exclude-Sound l h =
      let groups = Dict.get_or l.objects "security_group" [] in
      without_groups-Sound (default_ids groups) groups l
        (get_or-Owned l.objects "security_group" h.0) h

  related-Owned :
      (service_type name : String) (objects : List Json) (parents : Dict (List Json))
      → All Owned objects
      → All Owned (filter_related_resources service_type name objects parents)
  unfolding filter_related_resources
  related-Owned service_type name objects parents h =
      by_test
        ((service_type == "workflow") && member ("execution" ∷ "workflow_execution" ∷ []) name) _
    where
      by_test : (b : Bool) (p : Json → Bool) → All Owned (if b then keep p objects else objects)
      by_test true p = keep-Owned p objects h
      by_test false p = h

  handled-listing :
      (strict : Bool) (name : String) (error : Failure) (c d : Collected)
      → handled strict name error c ≡ ok d
      → Sound c.listing
      → Sound d.listing
  unfolding handled
  handled-listing strict name error c d h i = elim (Bool-cases (is_missing_resource_error error)) [
    | inl k ↦
        let e : ◌≡◌ {A = Result Raised Collected} (ok c) (ok d) = rw k at h in
        subst (λ x. Sound x.listing) (ok_inj e) i
    | inr k ↦ elim (Bool-cases strict) [
      | inl s ↦ cc (rw (k, s) at h)
      | inr s ↦
          let e : ◌≡◌ {A = Result Raised Collected}
              (ok (with_errors c (c.errors ++ provider_error name error ∷ []))) (ok d) =
            rw (k, s) at h in
          subst (λ x. Sound x.listing) (ok_inj e) i
    ]
  ]

  listed-Sound :
      (strict : Bool) (name : String) (r : Result Failure (List Json)) (c : Collected)
      (found : List Json × Collected)
      → listed_or_none strict name r c ≡ ok found
      → ((objects : List Json) → r ≡ ok objects → All Owned objects)
      → Sound c.listing
      → All Owned found.0 × Sound found.1.listing
  listed-Sound strict name (ok objects) c found h owned i =
      subst (λ f. All Owned f.0 × Sound f.1.listing) (ok_inj h) (owned objects refl, i)
  listed-Sound strict name (err error) c found h owned i =
      let (d, l, m) = links (handled strict name error c) (λ d. ok ([], d)) h in
      subst (λ f. All Owned f.0 × Sound f.1.listing) (ok_inj m)
        (tt, handled-listing strict name error c d l i)

  list_spec-Owned :
      (proxy : Proxy) (spec : ResourceSpec) (parents : Dict (List Json)) (objects : List Json)
      → list_spec proxy spec project_id parents ≡ ok objects
      → All Owned objects
  unfolding list_spec
  list_spec-Owned proxy spec parents objects h =
      let (all, l, m) =
        links (spec_objects proxy spec project_id parents)
          (λ xs. ok (keep (belongs_to_project project_id) xs)) h in
      subst (All Owned) (ok_inj m) (
        All-of_In Owned (keep (belongs_to_project project_id) all)
          (λ x n. (In_keep (belongs_to_project project_id) all n).1))

module _ (endpoint : Endpoint) (proxy : Proxy) (project : Project) (strict : Bool) where
  abbrev Kept : Collected → Type 0
  Kept c = Sound project.project_id c.listing

  spec_keeps :
      (spec : ResourceSpec) (c d : Collected)
      → collect_spec endpoint proxy project strict spec c ≡ ok d
      → Kept c
      → Kept d
  unfolding collect_spec
  spec_keeps spec c d h i =
      let r = list_spec proxy spec project.project_id c.listing.objects in
      let (found, l, m) =
        links (listed_or_none strict spec.name r c) (λ found. ok (store_as spec.name found)) h in
      let (objects, e) = found in
      let (owned, j) =
        listed-Sound project.project_id strict spec.name r c (objects, e) l
          (list_spec-Owned project.project_id proxy spec c.listing.objects) i in
      subst Kept (ok_inj m)
        (put_objects-Sound project.project_id e.listing spec.name objects j owned)

  relate-Sound :
      (d : Dict (List Json)) (l : Listing)
      → AllOwned project.project_id d
      → Sound project.project_id l
      → Sound project.project_id (relate endpoint proxy project strict d l)
  unfolding relate put_objects
  relate-Sound [] l h i = i
  relate-Sound ((name, objects) ∷ d) l h i =
      relate-Sound d _ h.1 (by_result (Dict.has l.result name))
    where
      related : List Json
      related = filter_related_resources endpoint.service_type name objects l.objects

      owned : All (Owned project.project_id) related
      owned = related-Owned project.project_id endpoint.service_type name objects l.objects h.0

      by_result :
          (b : Bool)
          → Sound project.project_id (
              if b
              then put_objects l name related
              else record { objects = Dict.put l.objects name related; result = l.result })
      by_result true = put_objects-Sound project.project_id l name related i owned
      by_result false = (put-AllOwned project.project_id l.objects name related i.0 owned, i.1)

  refined-Sound :
      (l : Listing)
      → Sound project.project_id l
      → Sound project.project_id (refined endpoint proxy project strict l)
  unfolding refined
  refined-Sound l h = elim (Bool-cases (endpoint.service_type == "network")) [
    | inl k ↦ rw k (let e = exclude-Sound project.project_id l h in relate-Sound _ _ e.0 e)
    | inr k ↦ rw k (relate-Sound l.objects l h.0 h)
  ]

  starts : Owned project.project_id project.raw → Kept (start endpoint proxy project strict)
  unfolding start put_objects Dict.put
  starts h = elim (Bool-cases (endpoint.service_type == "identity")) [
    | inl k ↦ rw k (
        put_objects-Sound project.project_id (record { objects = []; result = [] }) "project"
          (project.raw ∷ []) (tt, tt) (h, tt))
    | inr k ↦ rw k (tt, tt)
  ]

  -- Every resource in the result that a collection returns for a service other than the object store,
  -- and every object behind it, by whatever path it came to be listed, is of the project or says of
  -- no project that it is of it, as long as the project's own record says of no other one.
  pub collect-Owned :
      (fuel : ℕ) (c : Collected)
      → (endpoint.service_type == "object-store") ≡ false
      → belongs_to_project project.project_id project.raw ≡ true
      → collect endpoint proxy project strict fuel ≡ some (ok c)
      → (name : String) (resource : Json)
      → In resource (Dict.get_or c.listing.result name [])
        ⊎ In resource (Dict.get_or c.listing.objects name [])
      → belongs_to_project project.project_id resource ≡ true
  collect-Owned fuel c other raw h name resource m =
      let sound =
        collect_keeps endpoint proxy project strict Kept spec_keeps
          (λ d i. refined-Sound d.listing i)
          (λ resources d e k l i. absurd (true≢false (sym k ∙ other))) (starts raw) fuel c h in
      elim m [
        | inl shown ↦
            All-In (Owned project.project_id)
              (get_or-Owned project.project_id c.listing.result name sound.1) shown
        | inr kept ↦
            All-In (Owned project.project_id)
              (get_or-Owned project.project_id c.listing.objects name sound.0) kept
      ]
