-- ===== src/Inventory/Collect/Lenient.antt =====
-- A best-effort collection, with the fuel of its loop.
use Prim.Native.String.{String}
use yggdrasil_home.Base.{
  ◌≡◌, refl, ap, ◌∙◌, subst, ℕ, zero, suc, ◌≤◌, Bool, true, false, Option, none, some, List, [],
  ◌∷◌, ◌++◌, ◌==◌, inl, inr, Bool-cases, if◌then◌else◌, length,
}
use yggdrasil_home.Base.Dict
use yggdrasil_home.Base.Dict.{Dict}
use yggdrasil_home.Base.Result.{Result, ok, err, ◌>>=◌}
use yggdrasil_home.Base.Json.{Json}
use yggdrasil_home.Inventory.Filters.{Endpoint}
use yggdrasil_home.Inventory.Records.{Failure}
use yggdrasil_home.Inventory.Ownership.{resource_attr}
use yggdrasil_home.Inventory.Errors.{is_missing_resource_error}
use yggdrasil_home.Inventory.Specs.{
  ResourceClass, ResourceSpec, direct_specs, nested_specs, registry,
}
use yggdrasil_home.Inventory.Listings.{Proxy, is_none, list_all, list_spec}
use yggdrasil_home.Inventory.Collect.{
  Collected, Pass, Project, Raised, after_pass, collect, collect_direct, collect_flat,
  collect_nested, collect_object_store, collect_spec, handled, is_ready, listed_or_none,
  more_objects, nested_after, object_store_by, objects_of_containers, refined, run_pass, start,
  store_as, with_containers, with_listing,
}
use yggdrasil_home.Inventory.Collect.Ends.{collect_ends}

abbrev Succeeds {ℓ κ} : {E : Type ℓ} {A : Type κ} → Result E A → Type (ℓ ⊔ κ)
Succeeds {E = E} {A = A} r = (a : A) × (◌≡◌ {A = Result E A} r (ok a))

>>=-Succeeds {ℓ κ μ} :
    {E : Type ℓ} {A : Type κ} {B : Type μ} (m : Result E A) (f : A → Result E B)
    → Succeeds m
    → ((a : A) → Succeeds (f a))
    → Succeeds (m >>= f)
>>=-Succeeds m f (a, h) k = rw h (k a)

handled-Succeeds :
    (name : String) (error : Failure) (c : Collected) → Succeeds (handled false name error c)
unfolding handled
handled-Succeeds name error c = elim (Bool-cases (is_missing_resource_error error)) [
  | inl k ↦ rw k (c, refl)
  | inr k ↦ rw k (_, refl)
]

listed-Succeeds :
    (name : String) (r : Result Failure (List Json)) (c : Collected)
    → Succeeds (listed_or_none false name r c)
listed-Succeeds name (ok objects) c = ((objects, c), refl)
listed-Succeeds name (err error) c =
    >>=-Succeeds (handled false name error c) _ (handled-Succeeds name error c)
      (λ d. (([], d), refl))

module _ (endpoint : Endpoint) (proxy : Proxy) (project : Project) where
  spec-Succeeds :
      (spec : ResourceSpec) (c : Collected)
      → Succeeds (collect_spec endpoint proxy project false spec c)
  unfolding collect_spec
  spec-Succeeds spec c =
      let r = list_spec proxy spec project.project_id c.listing.objects in
      >>=-Succeeds (listed_or_none false spec.name r c) (λ found. ok (store_as spec.name found))
        (listed-Succeeds spec.name r c) (λ found. (store_as spec.name found, refl))

  direct-Succeeds :
      (specs : List ResourceSpec) (c : Collected)
      → Succeeds (collect_direct endpoint proxy project false specs c)
  unfolding collect_direct
  direct-Succeeds [] c = (c, refl)
  direct-Succeeds (spec ∷ specs) c =
      >>=-Succeeds (collect_spec endpoint proxy project false spec c) _ (spec-Succeeds spec c)
        (λ d. direct-Succeeds specs d)

  pass-Succeeds :
      (p : Pass endpoint proxy project false) (specs : List ResourceSpec)
      → Succeeds (run_pass endpoint proxy project false p specs)
  unfolding run_pass
  pass-Succeeds p [] = (p, refl)
  pass-Succeeds p (spec ∷ specs) =
      elim (Bool-cases (is_ready endpoint proxy project false p.collected.listing.objects spec)) [
        | inl k ↦ rw k (
            >>=-Succeeds (collect_spec endpoint proxy project false spec p.collected)
              (λ c. run_pass endpoint proxy project false (moved c) specs)
              (spec-Succeeds spec p.collected) (λ c. pass-Succeeds (moved c) specs))
        | inr k ↦ rw k (pass-Succeeds kept specs)
      ]
    where
      moved : Collected → Pass endpoint proxy project false
      moved c = record { progressed = true; remaining = p.remaining; collected = c }

      kept : Pass endpoint proxy project false
      kept = record {
        progressed = p.progressed;
        remaining = p.remaining ++ spec ∷ [];
        collected = p.collected;
      }

  objects-Succeeds :
      (object_class : ResourceClass) (containers so_far : List Json) (c : Collected)
      → Succeeds
          (objects_of_containers endpoint proxy project false object_class containers so_far c)
  unfolding objects_of_containers
  objects-Succeeds object_class [] so_far c = ((so_far, c), refl)
  objects-Succeeds object_class (container ∷ containers) so_far c =
      elim (Bool-cases (is_none (resource_attr container "container"))) [
        | inl k ↦ rw k (objects-Succeeds object_class containers so_far c)
        | inr k ↦ rw k (
            >>=-Succeeds (listed_or_none false "object" asked c) next
              (listed-Succeeds "object" asked c)
              (λ (objects, d). objects-Succeeds object_class containers _ d))
      ]
    where
      asked : Result Failure (List Json)
      asked = list_all proxy object_class (("container", resource_attr container "container") ∷ [])

      next : List Json × Collected → Result Raised (List Json × Collected)
      next =
          more_objects endpoint proxy project false
            (objects_of_containers endpoint proxy project false object_class containers)
            (resource_attr container "container") so_far

  containers-Succeeds :
      (container_class : ResourceClass) (listed : Option (List Json)) (c : Collected)
      → Succeeds (with_containers endpoint proxy project false container_class listed c)
  containers-Succeeds container_class (some containers) c = ((containers, c), refl)
  containers-Succeeds container_class none c =
      let r = list_all proxy container_class [] in
      >>=-Succeeds (listed_or_none false "container" r c)
        (λ found. ok (found.0, store_as "container" found)) (listed-Succeeds "container" r c)
        (λ found. (_, refl))

  store-Succeeds :
      (containers objects : Option ResourceClass) (c : Collected)
      → Succeeds (object_store_by endpoint proxy project false containers objects c)
  store-Succeeds none objects c = (_, refl)
  store-Succeeds (some container_class) none c = (_, refl)
  store-Succeeds (some container_class) (some object_class) c =
      >>=-Succeeds (with_containers endpoint proxy project false container_class _ c) _
        (containers-Succeeds container_class _ c)
        (λ found.
          >>=-Succeeds
            (objects_of_containers endpoint proxy project false object_class found.0 [] found.1) _
            (objects-Succeeds object_class found.0 [] found.1) (λ listed. (_, refl)))

  flat-Succeeds :
      (resources : Dict ResourceClass)
      → Succeeds (collect_flat endpoint proxy project false resources)
  unfolding collect_flat collect_object_store
  flat-Succeeds resources =
      >>=-Succeeds
        (collect_direct endpoint proxy project false (direct_specs endpoint resources)
          (start endpoint proxy project false))
        _ (direct-Succeeds (direct_specs endpoint resources) (start endpoint proxy project false))
        (λ c. by_service c (endpoint.service_type == "object-store"))
    where
      by_service :
          (c : Collected) (b : Bool)
          → Succeeds (
              let d = with_listing c (refined endpoint proxy project false c.listing) in
              if b then collect_object_store endpoint proxy project false resources d else ok d)
      by_service c true =
          store-Succeeds (Dict.get resources "container") (Dict.get resources "object") _
      by_service c false = (_, refl)

  Fine : Option (Result Raised Collected) → Type 0
  Fine none = Unit
  Fine (some r) = Succeeds r

  after_pass-Fine :
      (n : ℕ) (p : Result Raised (Pass endpoint proxy project false))
      → Succeeds p
      → ((specs : List ResourceSpec) (c : Collected)
          → Fine (collect_nested endpoint proxy project false n specs c))
      → Fine (
          after_pass endpoint proxy project false (collect_nested endpoint proxy project false n) p)
  unfolding Fine
  after_pass-Fine n (err e) (p, h) ih = cc h
  after_pass-Fine n (ok p) h ih = elim (Bool-cases p.progressed) [
    | inl k ↦ rw k (ih p.remaining p.collected)
    | inr k ↦ rw k (_, refl)
  ]

  nested-Fine :
      (n : ℕ) (specs : List ResourceSpec) (c : Collected)
      → Fine (collect_nested endpoint proxy project false n specs c)
  unfolding collect_nested Fine
  nested-Fine n [] c = (_, refl)
  nested-Fine zero (spec ∷ specs) c = tt
  nested-Fine (suc n) (spec ∷ specs) c =
      after_pass-Fine n _ (pass-Succeeds _ (spec ∷ specs)) (nested-Fine n)

  nested_after-Fine :
      (fuel : ℕ) (resources : Dict ResourceClass) (r : Result Raised Collected)
      → Succeeds r
      → Fine (nested_after endpoint proxy project false fuel resources r)
  nested_after-Fine fuel resources (err e) (c, h) = cc h
  nested_after-Fine fuel resources (ok c) h = nested-Fine fuel (nested_specs endpoint resources) c

  -- A best-effort collection that may make as many passes as there are nested specifications returns
  -- a listing, whatever the service answers or refuses.
  pub lenient_returns :
      (fuel : ℕ)
      → length (nested_specs endpoint (registry proxy.resource_registry)) ≤ fuel
      → (c : Collected) × (collect endpoint proxy project false fuel ≡ some (ok c))
  unfolding collect Fine
  lenient_returns fuel bound =
      let (r, h) = collect_ends endpoint proxy project false fuel bound in
      let f : Fine (collect endpoint proxy project false fuel) =
        nested_after-Fine fuel (registry proxy.resource_registry) _
          (flat-Succeeds (registry proxy.resource_registry)) in
      let (c, k) = subst Fine h f in (c, h ∙ ap some k)
