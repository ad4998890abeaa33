-- ===== src/Inventory/Collect.antt =====
-- `BuiltinSDKProvider.collect`: what a provider lists for a project and the problems that it meets.
-- What is raised leaves the problems that `self.errors` has by then.
pub mod Ends
pub mod Invariant
pub mod Owned
pub mod Same
pub mod Strict
pub mod Lenient
use Prim.Native.String.{String}
use yggdrasil_home.Base.{
  ℕ, zero, suc, Bool, true, false, not, ◌&&◌, ◌||◌, Option, none, some, List, [], ◌∷◌, ◌++◌, map,
  ◌==◌, any, all, if◌then◌else◌, is_empty,
}
use yggdrasil_home.Base.Dict
use yggdrasil_home.Base.Dict.{Dict}
use yggdrasil_home.Base.Result.{Result, ok, err, ◌>>=◌}
use yggdrasil_home.Base.Json.{Json, null, object, Fields, field, end, get_json, to_dict}
use yggdrasil_home.Inventory.Filters.{Endpoint}
use yggdrasil_home.Inventory.Records.{Failure, unsupported_client_error}
use yggdrasil_home.Inventory.Ownership.{resource_attr}
use yggdrasil_home.Inventory.Related.{
  Listing, exclude_default_security_group, filter_related_resources, put_objects, resource_to_dict,
}
use yggdrasil_home.Inventory.Errors.{Problem, is_missing_resource_error, provider_error}
use yggdrasil_home.Inventory.Specs.{
  ResourceClass, ResourceSpec, direct_specs, nested_specs, registry,
}
use yggdrasil_home.Inventory.Listings.{Proxy, is_none, is_parent, list_all, list_spec}

pub record Project : Type 0 where
  pub project_id : String
  pub name : String
  pub raw : Json

-- `self.errors` and the two dictionaries.
pub record Collected : Type 0 where
  pub errors : List Problem
  pub listing : Listing

pub record Raised : Type 0 where
  pub failure : Failure
  pub errors : List Problem

abbrev pub with_listing : Collected → Listing → Collected
with_listing c l = record { errors = c.errors; listing = l }

-- The handler of a failed listing: it is a problem unless the resource is missing, and in a strict
-- run it is raised.
unfoldable pub handled : Bool → String → Failure → Collected → Result Raised Collected
unfolding is_missing_resource_error provider_error
handled strict name error c =
    let errors = c.errors ++ provider_error name error ∷ [] in
    if is_missing_resource_error error
    then ok c
    else if strict
    then err (record { failure = error; errors = errors })
    else ok (record { errors = errors; listing = c.listing })

-- The objects that a listing gives, none if it fails.
abbrev pub listed_or_none :
    Bool → String → Result Failure (List Json) → Collected → Result Raised (List Json × Collected)
listed_or_none strict name (ok objects) c = ok (objects, c)
listed_or_none strict name (err error) c = handled strict name error c >>= λ d. ok ([], d)

abbrev pub store_as : String → List Json × Collected → Collected
store_as name (objects, c) = with_listing c (put_objects c.listing name objects)

unfoldable with_container : Json → Fields → Fields
with_container name end = field "container" name end
with_container name (field k v rest) = field k v (with_container name rest)

-- `serialized.setdefault("container", container_name)`
unfoldable pub set_container : Json → Json → Json
unfolding Dict.has with_container
set_container name (object fs) =
    if Dict.has (to_dict fs) "container" then object fs else object (with_container name fs)
set_container name other = other

module _ (endpoint : Endpoint) (proxy : Proxy) (project : Project) (strict : Bool) where
  unfoldable pub collect_spec : ResourceSpec → Collected → Result Raised Collected
  unfolding list_spec handled put_objects
  collect_spec spec c =
      listed_or_none strict spec.name (list_spec proxy spec project.project_id c.listing.objects) c
      >>= λ found. ok (store_as spec.name found)

  unfoldable pub collect_direct : List ResourceSpec → Collected → Result Raised Collected
  unfolding collect_spec
  collect_direct [] c = ok c
  collect_direct (spec ∷ specs) c = collect_spec spec c >>= collect_direct specs

  -- Whether each placeholder has a parent of which some are listed.
  unfoldable pub is_ready : Dict (List Json) → ResourceSpec → Bool
  unfolding all any is_parent
  is_ready objects spec =
      all
        (λ placeholder.
          any (λ (name, values). is_parent placeholder name && not (is_empty values)) objects)
        spec.placeholders

  -- One pass of the `while` loop: whether it progressed, what remains and what it has collected.
  pub record Pass : Type 0 where
    pub progressed : Bool
    pub remaining : List ResourceSpec
    pub collected : Collected

  unfoldable pub run_pass : Pass → List ResourceSpec → Result Raised Pass
  unfolding is_ready collect_spec
  run_pass p [] = ok p
  run_pass p (spec ∷ specs) =
      if is_ready p.collected.listing.objects spec
      then (collect_spec spec p.collected >>= λ c.
          run_pass (record { progressed = true; remaining = p.remaining; collected = c }) specs)
      else run_pass
          (record {
            progressed = p.progressed;
            remaining = p.remaining ++ spec ∷ [];
            collected = p.collected;
          })
          specs

  -- What is left of the loop after a pass, and the loop, which is none when the fuel runs out first.
  abbrev pub after_pass :
      (List ResourceSpec → Collected → Option (Result Raised Collected))
      → Result Raised Pass
      → Option (Result Raised Collected)
  after_pass loop (err e) = some (err e)
  after_pass loop (ok p) =
      if p.progressed then loop p.remaining p.collected else some (ok p.collected)

  unfoldable pub collect_nested :
      ℕ → List ResourceSpec → Collected → Option (Result Raised Collected)
  unfolding run_pass
  collect_nested n [] c = some (ok c)
  collect_nested zero (spec ∷ specs) c = none
  collect_nested (suc n) (spec ∷ specs) c =
      after_pass (collect_nested n)
        (run_pass (record { progressed = false; remaining = []; collected = c }) (spec ∷ specs))

  abbrev pub more_objects :
      (List Json → Collected → Result Raised (List Json × Collected))
      → Json
      → List Json
      → List Json × Collected
      → Result Raised (List Json × Collected)
  more_objects rest name so_far (objects, c) =
      rest (so_far ++ map (λ obj. set_container name (resource_to_dict obj)) objects) c

  -- The objects of each container in turn, behind those so far.
  unfoldable pub objects_of_containers :
      ResourceClass → List Json → List Json → Collected → Result Raised (List Json × Collected)
  unfolding resource_attr list_all handled set_container resource_to_dict
  objects_of_containers object_class [] so_far c = ok (so_far, c)
  objects_of_containers object_class (container ∷ containers) so_far c =
      let name = resource_attr container "container" in
      if is_none name
      then objects_of_containers object_class containers so_far c
      else (listed_or_none strict "object" (list_all proxy object_class (("container", name) ∷ []))
            c
          >>= more_objects (objects_of_containers object_class containers) name so_far)

  abbrev pub store_objects : List Json × Collected → Collected
  store_objects (objects, c) =
      with_listing c (record {
        objects = c.listing.objects;
        result = Dict.put c.listing.result "object" objects;
      })

  -- The containers that are listed already, or else those that the service lists now.
  abbrev pub with_containers :
      ResourceClass → Option (List Json) → Collected → Result Raised (List Json × Collected)
  with_containers container_class (some containers) c = ok (containers, c)
  with_containers container_class none c =
      listed_or_none strict "container" (list_all proxy container_class []) c >>= λ found.
      ok (found.0, store_as "container" found)

  abbrev pub object_store_by :
      Option ResourceClass → Option ResourceClass → Collected → Result Raised Collected
  object_store_by (some container_class) (some object_class) c =
      with_containers container_class (Dict.get c.listing.objects "container") c >>= λ found.
      objects_of_containers object_class found.0 [] found.1 >>= λ listed. ok (store_objects listed)
  object_store_by container_class object_class c =
      let error =
        unsupported_client_error
          "openstacksdk object-store proxy does not expose both container and object resources" in
      let errors = c.errors ++ provider_error "object-store" error ∷ [] in
      if strict
      then err (record { failure = error; errors = errors })
      else ok (record { errors = errors; listing = c.listing })

  unfoldable pub collect_object_store : Dict ResourceClass → Collected → Result Raised Collected
  unfolding objects_of_containers list_all handled put_objects provider_error Dict.get Dict.put
  collect_object_store resources c =
      object_store_by (Dict.get resources "container") (Dict.get resources "object") c

  abbrev pub relate_one : Listing → String → List Json → Listing
  relate_one l name objects =
      if Dict.has l.result name
      then put_objects l name objects
      else record { objects = Dict.put l.objects name objects; result = l.result }

  -- The loop that filters what is related to other resources.
  unfoldable pub relate : Dict (List Json) → Listing → Listing
  unfolding filter_related_resources put_objects Dict.has Dict.put
  relate [] l = l
  relate ((name, objects) ∷ rest) l =
      relate rest
        (relate_one l name (filter_related_resources endpoint.service_type name objects l.objects))

  abbrev pub nothing : Listing
  nothing = record { objects = []; result = [] }

  unfoldable pub start : Collected
  unfolding put_objects
  start = record {
    errors = [];
    listing =
        if endpoint.service_type == "identity"
        then put_objects nothing "project" (project.raw ∷ [])
        else nothing;
  }

  -- What is done between the direct specifications and the object store.
  unfoldable pub refined : Listing → Listing
  unfolding exclude_default_security_group relate
  refined l =
      let excluded =
        if endpoint.service_type == "network" then exclude_default_security_group l else l in
      relate excluded.objects excluded

  -- All that precedes the `while` loop.
  unfoldable pub collect_flat : Dict ResourceClass → Result Raised Collected
  unfolding collect_direct direct_specs start refined collect_object_store
  collect_flat resources = collect_direct (direct_specs endpoint resources) start >>= λ c.
      let d = with_listing c (refined c.listing) in
      if endpoint.service_type == "object-store" then collect_object_store resources d else ok d

  abbrev pub nested_after :
      ℕ → Dict ResourceClass → Result Raised Collected → Option (Result Raised Collected)
  nested_after fuel resources (err e) = some (err e)
  nested_after fuel resources (ok c) = collect_nested fuel (nested_specs endpoint resources) c

  unfoldable pub collect : ℕ → Option (Result Raised Collected)
  unfolding registry collect_flat collect_nested nested_specs
  collect fuel =
      let resources = registry proxy.resource_registry in
      nested_after fuel resources (collect_flat resources)
