-- ===== src/Inventory/Collect/Same.antt =====
-- A strict collection that returns against a best-effort one: the direct specifications.
pub mod Passes
pub mod Store
pub mod Whole
use Prim.Native.String.{String}
use yggdrasil_home.Base.{
  ◌≡◌, refl, ap, ℕ, zero, suc, Bool, true, false, Option, none, some, List, [], ◌∷◌, ◌++◌, ◌==◌,
  inl, inr, Bool-cases, if◌then◌else◌, All,
}
use yggdrasil_home.Base.Dict
use yggdrasil_home.Base.Dict.{Dict}
use yggdrasil_home.Base.Result.{Result, ok, err, ◌>>=◌, links, ok_inj}
use yggdrasil_home.Base.Json.{Json}
use yggdrasil_home.Inventory.Filters.{Endpoint}
use yggdrasil_home.Inventory.Records.{Failure}
use yggdrasil_home.Inventory.Ownership.{resource_attr}
use yggdrasil_home.Inventory.Errors.{is_missing_resource_error}
use yggdrasil_home.Inventory.Specs.{
  ResourceClass, ResourceSpec, direct_specs, nested_specs, registry,
}
use yggdrasil_home.Inventory.Related.{Listing, exclude_default_security_group}
use yggdrasil_home.Inventory.Listings.{Proxy, is_none, list_all, list_spec}
use yggdrasil_home.Inventory.Collect.{
  Collected, Pass, Project, Raised, after_pass, collect, collect_direct, collect_flat,
  collect_nested, collect_object_store, collect_spec, handled, is_ready, listed_or_none,
  more_objects, nested_after, object_store_by, objects_of_containers, refined, relate, run_pass,
  start, store_as, store_objects, with_containers, with_listing,
}

-- A listing was given, or failed because the service does not have the resource.
pub data IsListed : Result Failure (List Json) → Type 0 where
  given : (objects : List Json) → IsListed (ok objects)
  missing : (error : Failure) → is_missing_resource_error error ≡ true → IsListed (err error)

handled-missing :
    (name : String) (error : Failure) (c d : Collected)
    → handled true name error c ≡ ok d
    → is_missing_resource_error error ≡ true
unfolding handled
handled-missing name error c d h = elim (Bool-cases (is_missing_resource_error error)) [
  | inl k ↦ k
  | inr k ↦ cc (rw k at h)
]

handled_same :
    (name : String) (error : Failure) (c d : Collected)
    → handled true name error c ≡ ok d
    → handled false name error c ≡ ok d
unfolding handled
handled_same name error c d h = elim (Bool-cases (is_missing_resource_error error)) [
  | inl k ↦ rw k (rw k at h)
  | inr k ↦ cc (rw k at h)
]

listed-IsListed :
    (name : String) (r : Result Failure (List Json)) (c : Collected) (found : List Json × Collected)
    → listed_or_none true name r c ≡ ok found
    → IsListed r
listed-IsListed name (ok objects) c found h = given objects
listed-IsListed name (err error) c found h =
    let (d, l, m) = links (handled true name error c) (λ d. ok ([], d)) h in
    missing error (handled-missing name error c d l)

pub listed_same :
    (name : String) (r : Result Failure (List Json)) (c : Collected) (found : List Json × Collected)
    → listed_or_none true name r c ≡ ok found
    → listed_or_none false name r c ≡ ok found
listed_same name (ok objects) c found h = h
listed_same name (err error) c found h =
    let (d, l, m) = links (handled true name error c) (λ d. ok ([], d)) h in
    rw (handled_same name error c d l) m

-- A chain whose links give the same results gives the same.
pub chain_same {ℓ κ μ} :
    {E : Type ℓ} {A : Type κ} {B : Type μ} (m n : Result E A) (f g : A → Result E B) (b : B)
    → m >>= f ≡ ok b
    → ((a : A) → ◌≡◌ {A = Result E A} m (ok a) → ◌≡◌ {A = Result E A} n (ok a))
    → ((a : A) → ◌≡◌ {A = Result E B} (f a) (ok b) → ◌≡◌ {A = Result E B} (g a) (ok b))
    → ◌≡◌ {A = Result E B} (n >>= g) (ok b)
chain_same m n f g b h first next = let (a, l, k) = links m f h in rw (first a l) (next a k)

module _ (endpoint : Endpoint) (proxy : Proxy) (project : Project) where
  pub spec_same :
      (spec : ResourceSpec) (c d : Collected)
      → collect_spec endpoint proxy project true spec c ≡ ok d
      → collect_spec endpoint proxy project false spec c ≡ ok d
  unfolding collect_spec
  spec_same spec c d h =
      let r = list_spec proxy spec project.project_id c.listing.objects in
      chain_same (listed_or_none true spec.name r c) (listed_or_none false spec.name r c)
        (λ found. ok (store_as spec.name found)) (λ found. ok (store_as spec.name found)) d h
        (λ found l. listed_same spec.name r c found l) (λ found k. k)

  spec-IsListed :
      (spec : ResourceSpec) (c d : Collected)
      → collect_spec endpoint proxy project true spec c ≡ ok d
      → IsListed (list_spec proxy spec project.project_id c.listing.objects)
  unfolding collect_spec
  spec-IsListed spec c d h =
      let r = list_spec proxy spec project.project_id c.listing.objects in
      let (found, l, m) =
        links (listed_or_none true spec.name r c) (λ found. ok (store_as spec.name found)) h in
      listed-IsListed spec.name r c found l

  pub direct_same :
      (specs : List ResourceSpec) (c d : Collected)
      → collect_direct endpoint proxy project true specs c ≡ ok d
      → collect_direct endpoint proxy project false specs c ≡ ok d
  unfolding collect_direct
  direct_same [] c d h = h
  direct_same (spec ∷ specs) c d h =
      chain_same (collect_spec endpoint proxy project true spec c)
        (collect_spec endpoint proxy project false spec c)
        (collect_direct endpoint proxy project true specs)
        (collect_direct endpoint proxy project false specs) d h (λ e l. spec_same spec c e l)
        (λ e k. direct_same specs e d k)

  pub direct-IsListed :
      (specs : List ResourceSpec) (c d : Collected)
      → collect_direct endpoint proxy project true specs c ≡ ok d
      → All
          (λ spec.
            (parents : Dict (List Json)) × IsListed
              (list_spec proxy spec project.project_id parents))
          specs
  unfolding collect_direct
  direct-IsListed [] c d h = tt
  direct-IsListed (spec ∷ specs) c d h =
      let (e, l, m) =
        links (collect_spec endpoint proxy project true spec c)
          (collect_direct endpoint proxy project true specs) h in
      ((c.listing.objects, spec-IsListed spec c e l), direct-IsListed specs e d m)
