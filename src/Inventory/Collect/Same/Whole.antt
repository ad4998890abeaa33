-- ===== src/Inventory/Collect/Same/Whole.antt =====
-- The whole collection, strict and best-effort.
use yggdrasil_home.Base.{◌≡◌, refl, ℕ, Bool, true, false, some, List, [], ◌∷◌, ◌==◌, if◌then◌else◌}
use yggdrasil_home.Base.Dict
use yggdrasil_home.Base.Dict.{Dict}
use yggdrasil_home.Base.Result.{Result, ok, err}
use yggdrasil_home.Base.Json.{Json}
use yggdrasil_home.Inventory.Filters.{Endpoint}
use yggdrasil_home.Inventory.Specs.{ResourceClass, direct_specs, nested_specs, registry}
use yggdrasil_home.Inventory.Related.{Listing, exclude_default_security_group}
use yggdrasil_home.Inventory.Listings.{Proxy}
use yggdrasil_home.Inventory.Collect.{
  Collected, Project, Raised, collect, collect_direct, collect_flat, collect_nested,
  collect_object_store, nested_after, refined, relate, start, with_listing,
}
use yggdrasil_home.Inventory.Collect.Same.{chain_same, direct_same}
use yggdrasil_home.Inventory.Collect.Same.Passes.{nested_same}
use yggdrasil_home.Inventory.Collect.Same.Store.{store_by_same}

module _ (endpoint : Endpoint) (proxy : Proxy) (project : Project) where
  relate_same :
      (d : Dict (List Json)) (l : Listing)
      → relate endpoint proxy project true d l ≡ relate endpoint proxy project false d l
  unfolding relate
  relate_same [] l = refl
  relate_same ((name, objects) ∷ d) l = relate_same d _

  refined_same :
      (l : Listing) → refined endpoint proxy project true l ≡ refined endpoint proxy project false l
  unfolding refined
  refined_same l =
      let excluded : Listing =
        if endpoint.service_type == "network" then exclude_default_security_group l else l in
      relate_same excluded.objects excluded

  flat_same :
      (resources : Dict ResourceClass) (d : Collected)
      → collect_flat endpoint proxy project true resources ≡ ok d
      → collect_flat endpoint proxy project false resources ≡ ok d
  unfolding collect_flat collect_object_store start
  flat_same resources d h =
      chain_same
        (collect_direct endpoint proxy project true (direct_specs endpoint resources)
          (start endpoint proxy project true))
        (collect_direct endpoint proxy project false (direct_specs endpoint resources)
          (start endpoint proxy project false))
        _ _ d h
        (λ c l.
          direct_same endpoint proxy project (direct_specs endpoint resources)
            (start endpoint proxy project true) c l)
        (λ c k.
          rw (← refined_same c.listing) (by_service c (endpoint.service_type == "object-store") k))
    where
      by_service :
          (c : Collected) (b : Bool)
          → (let e = with_listing c (refined endpoint proxy project true c.listing) in
              if b then collect_object_store endpoint proxy project true resources e else ok e)
            ≡ ok d
          → (let e = with_listing c (refined endpoint proxy project true c.listing) in
              if b then collect_object_store endpoint proxy project false resources e else ok e)
            ≡ ok d
      by_service c true k =
          store_by_same endpoint proxy project (Dict.get resources "container")
            (Dict.get resources "object") _ d k
      by_service c false k = k

  pub nested_after-returns :
      (fuel : ℕ) (resources : Dict ResourceClass) (r : Result Raised Collected) (d : Collected)
      → nested_after endpoint proxy project true fuel resources r ≡ some (ok d)
      → (c : Collected) × (◌≡◌ {A = Result Raised Collected} r (ok c))
        × (collect_nested endpoint proxy project true fuel (nested_specs endpoint resources) c
            ≡ some (ok d))
  nested_after-returns fuel resources (err e) d h = cc h
  nested_after-returns fuel resources (ok c) d h = (c, refl, h)

  pub best_effort_same :
      (fuel : ℕ) (d : Collected)
      → collect endpoint proxy project true fuel ≡ some (ok d)
      → collect endpoint proxy project false fuel ≡ some (ok d)
  unfolding collect
  best_effort_same fuel d h =
      let resources = registry proxy.resource_registry in
      let (c, l, m) =
        nested_after-returns fuel resources (collect_flat endpoint proxy project true resources) d
          h in
      rw (flat_same resources c l)
        (nested_same endpoint proxy project fuel (nested_specs endpoint resources) c d m)
