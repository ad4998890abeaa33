-- ===== src/Inventory/Collect/Strict.antt =====
-- What a strict collection that returned has met.
use Prim.Native.String.{String}
use yggdrasil_home.Base.{
  ◌≡◌, refl, subst, All, ℕ, true, false, Option, none, some, List, [], ◌∷◌, inl, inr, Bool-cases,
}
use yggdrasil_home.Base.Dict
use yggdrasil_home.Base.Dict.{Dict}
use yggdrasil_home.Base.Result.{Result, ok, err, links, ok_inj}
use yggdrasil_home.Base.Json.{Json}
use yggdrasil_home.Inventory.Filters.{Endpoint}
use yggdrasil_home.Inventory.Records.{Failure}
use yggdrasil_home.Inventory.Ownership.{resource_attr}
use yggdrasil_home.Inventory.Errors.{is_missing_resource_error}
use yggdrasil_home.Inventory.Specs.{ResourceClass, ResourceSpec, direct_specs, registry}
use yggdrasil_home.Inventory.Listings.{Proxy, is_none, list_all, list_spec}
use yggdrasil_home.Inventory.Collect.{
  Collected, Project, Raised, collect, collect_direct, collect_flat, collect_object_store,
  collect_spec, handled, listed_or_none, more_objects, object_store_by, objects_of_containers,
  start, store_as, store_objects, with_containers,
}
use yggdrasil_home.Inventory.Collect.Invariant.{collect_keeps}
use yggdrasil_home.Inventory.Collect.Same.{IsListed, direct-IsListed}
use yggdrasil_home.Inventory.Collect.Same.Whole.{best_effort_same, nested_after-returns}

abbrev IsClean : Collected → Type 0
IsClean c = c.errors ≡ []

handled-IsClean :
    (name : String) (error : Failure) (c d : Collected)
    → handled true name error c ≡ ok d
    → IsClean c
    → IsClean d
unfolding handled
handled-IsClean name error c d h i = elim (Bool-cases (is_missing_resource_error error)) [
  | inl k ↦
      let e : ◌≡◌ {A = Result Raised Collected} (ok c) (ok d) = rw k at h in
      subst IsClean (ok_inj e) i
  | inr k ↦ cc (rw k at h)
]

listed-IsClean :
    (name : String) (r : Result Failure (List Json)) (c : Collected) (found : List Json × Collected)
    → listed_or_none true name r c ≡ ok found
    → IsClean c
    → IsClean found.1
listed-IsClean name (ok objects) c found h i = subst (λ f. IsClean f.1) (ok_inj h) i
listed-IsClean name (err error) c found h i =
    let (d, l, m) = links (handled true name error c) (λ d. ok ([], d)) h in
    subst (λ f. IsClean f.1) (ok_inj m) (handled-IsClean name error c d l i)

module _ (endpoint : Endpoint) (proxy : Proxy) (project : Project) where
  spec_keeps :
      (spec : ResourceSpec) (c d : Collected)
      → collect_spec endpoint proxy project true spec c ≡ ok d
      → IsClean c
      → IsClean d
  unfolding collect_spec
  spec_keeps spec c d h i =
      let r = list_spec proxy spec project.project_id c.listing.objects in
      let (found, l, m) =
        links (listed_or_none true spec.name r c) (λ found. ok (store_as spec.name found)) h in
      subst IsClean (ok_inj m) (listed-IsClean spec.name r c found l i)

  objects_keep :
      (object_class : ResourceClass) (containers so_far : List Json) (c : Collected)
      (found : List Json × Collected)
      → objects_of_containers endpoint proxy project true object_class containers so_far c
        ≡ ok found
      → IsClean c
      → IsClean found.1
  unfolding objects_of_containers
  objects_keep object_class [] so_far c found h i = subst (λ f. IsClean f.1) (ok_inj h) i
  objects_keep object_class (container ∷ containers) so_far c found h i =
      elim (Bool-cases (is_none (resource_attr container "container"))) [
        | inl k ↦ objects_keep object_class containers so_far c found (rw k at h) i
        | inr k ↦
            let name = resource_attr container "container" in
            let r = list_all proxy object_class (("container", name) ∷ []) in
            let (listed, l, m) =
              links (listed_or_none true "object" r c)
                (more_objects endpoint proxy project true
                  (objects_of_containers endpoint proxy project true object_class containers) name
                  so_far)
                (rw k at h) in
            let (objects, d) = listed in
            objects_keep object_class containers _ d found m
              (listed-IsClean "object" r c (objects, d) l i)
      ]

  containers_keep :
      (container_class : ResourceClass) (listed : Option (List Json)) (c : Collected)
      (found : List Json × Collected)
      → with_containers endpoint proxy project true container_class listed c ≡ ok found
      → IsClean c
      → IsClean found.1
  containers_keep container_class (some containers) c found h i =
      subst (λ f. IsClean f.1) (ok_inj h) i
  containers_keep container_class none c found h i =
      let r = list_all proxy container_class [] in
      let (listed, l, m) =
        links (listed_or_none true "container" r c)
          (λ found. ok (found.0, store_as "container" found)) h in
      subst (λ f. IsClean f.1) (ok_inj m) (listed-IsClean "container" r c listed l i)

  store_by_keeps :
      (containers objects : Option ResourceClass) (c d : Collected)
      → object_store_by endpoint proxy project true containers objects c ≡ ok d
      → IsClean c
      → IsClean d
  store_by_keeps none objects c d h i = cc h
  store_by_keeps (some container_class) none c d h i = cc h
  store_by_keeps (some container_class) (some object_class) c d h i =
      let listed = Dict.get c.listing.objects "container" in
      let ((containers, e), l, m) =
        links (with_containers endpoint proxy project true container_class listed c) _ h in
      let (found, n, o) =
        links (objects_of_containers endpoint proxy project true object_class containers [] e)
          (λ found. ok (store_objects endpoint proxy project true found)) m in
      let (objects, f) = found in
      subst IsClean (ok_inj o) (
        objects_keep object_class containers [] e (objects, f) n
          (containers_keep container_class listed c (containers, e) l i))

  clean :
      (fuel : ℕ) (c : Collected)
      → collect endpoint proxy project true fuel ≡ some (ok c)
      → c.errors ≡ []
  unfolding collect_object_store start
  clean fuel c h =
      collect_keeps endpoint proxy project true IsClean spec_keeps (λ d i. i)
        (λ resources d e k l i.
          store_by_keeps (Dict.get resources "container") (Dict.get resources "object") d e l i)
        refl fuel c h

  -- The run met no problem; the listing of each direct specification was given, or is of a resource
  -- that the service does not have; and a best-effort collection returns the same.
  pub record IsCleanRun (fuel : ℕ) (c : Collected) : Type 0 where
    pub no_errors : c.errors ≡ []
    pub listed :
        All
          (λ spec.
            (parents : Dict (List Json)) × IsListed
              (list_spec proxy spec project.project_id parents))
          (direct_specs endpoint (registry proxy.resource_registry))
    pub same_run : collect endpoint proxy project false fuel ≡ some (ok c)

  listed_of :
      (fuel : ℕ) (c : Collected)
      → collect endpoint proxy project true fuel ≡ some (ok c)
      → All
          (λ spec.
            (parents : Dict (List Json)) × IsListed
              (list_spec proxy spec project.project_id parents))
          (direct_specs endpoint (registry proxy.resource_registry))
  unfolding collect collect_flat
  listed_of fuel c h =
      let resources = registry proxy.resource_registry in
      let (flat, l, m) =
        nested_after-returns endpoint proxy project fuel resources
          (collect_flat endpoint proxy project true resources) c h in
      let (d, n, o) =
        links
          (collect_direct endpoint proxy project true (direct_specs endpoint resources)
            (start endpoint proxy project true))
          _ l in
      direct-IsListed endpoint proxy project (direct_specs endpoint resources)
        (start endpoint proxy project true) d n

  -- A strict collection that returns has met no problem: each direct specification was listed, or is
  -- of a resource that the service does not have, and a best-effort collection returns the same.
  pub strict-IsClean :
      (fuel : ℕ) (c : Collected)
      → collect endpoint proxy project true fuel ≡ some (ok c)
      → IsCleanRun fuel c
  strict-IsClean fuel c h = record {
    no_errors = clean fuel c h;
    listed = listed_of fuel c h;
    same_run = best_effort_same endpoint proxy project fuel c h;
  }
