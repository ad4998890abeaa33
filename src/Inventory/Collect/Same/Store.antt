-- ===== src/Inventory/Collect/Same/Store.antt =====
-- The object store, strict and best-effort.
use yggdrasil_home.Base.{◌≡◌, true, false, Option, none, some, List, [], ◌∷◌, inl, inr, Bool-cases}
use yggdrasil_home.Base.Dict
use yggdrasil_home.Base.Dict.{Dict}
use yggdrasil_home.Base.Result.{ok, links}
use yggdrasil_home.Base.Json.{Json}
use yggdrasil_home.Inventory.Filters.{Endpoint}
use yggdrasil_home.Inventory.Ownership.{resource_attr}
use yggdrasil_home.Inventory.Specs.{ResourceClass}
use yggdrasil_home.Inventory.Listings.{Proxy, is_none, list_all}
use yggdrasil_home.Inventory.Collect.{
  Collected, Project, listed_or_none, more_objects, object_store_by, objects_of_containers,
  store_as, store_objects, with_containers,
}
use yggdrasil_home.Inventory.Collect.Same.{chain_same, listed_same}

module _ (endpoint : Endpoint) (proxy : Proxy) (project : Project) where
  objects_same :
      (object_class : ResourceClass) (containers so_far : List Json) (c : Collected)
      (found : List Json × Collected)
      → objects_of_containers endpoint proxy project true object_class containers so_far c
        ≡ ok found
      → objects_of_containers endpoint proxy project false object_class containers so_far c
        ≡ ok found
  unfolding objects_of_containers
  objects_same object_class [] so_far c found h = h
  objects_same object_class (container ∷ containers) so_far c found h =
      elim (Bool-cases (is_none (resource_attr container "container"))) [
        | inl k ↦ rw k (objects_same object_class containers so_far c found (rw k at h))
        | inr k ↦
            let name = resource_attr container "container" in
            let r = list_all proxy object_class (("container", name) ∷ []) in
            let (listed, l, m) =
              links (listed_or_none true "object" r c)
                (more_objects endpoint proxy project true
                  (objects_of_containers endpoint proxy project true object_class containers) name
                  so_far)
                (rw k at h) in
            rw (k, listed_same "object" r c listed l)
              (objects_same object_class containers _ listed.1 found m)
      ]

  containers_same :
      (container_class : ResourceClass) (listed : Option (List Json)) (c : Collected)
      (found : List Json × Collected)
      → with_containers endpoint proxy project true container_class listed c ≡ ok found
      → with_containers endpoint proxy project false container_class listed c ≡ ok found
  containers_same container_class (some containers) c found h = h
  containers_same container_class none c found h =
      let r = list_all proxy container_class [] in
      chain_same (listed_or_none true "container" r c) (listed_or_none false "container" r c)
        (λ found. ok (found.0, store_as "container" found))
        (λ found. ok (found.0, store_as "container" found)) found h
        (λ f l. listed_same "container" r c f l) (λ f k. k)

  pub store_by_same :
      (containers objects : Option ResourceClass) (c d : Collected)
      → object_store_by endpoint proxy project true containers objects c ≡ ok d
      → object_store_by endpoint proxy project false containers objects c ≡ ok d
  store_by_same none objects c d h = cc h
  store_by_same (some container_class) none c d h = cc h
  store_by_same (some container_class) (some object_class) c d h =
      let listed = Dict.get c.listing.objects "container" in
      chain_same (with_containers endpoint proxy project true container_class listed c)
        (with_containers endpoint proxy project false container_class listed c) _ _ d h
        (λ f l. containers_same container_class listed c f l)
        (λ f k.
          chain_same (objects_of_containers endpoint proxy project true object_class f.0 [] f.1)
            (objects_of_containers endpoint proxy project false object_class f.0 [] f.1)
            (λ g. ok (store_objects endpoint proxy project true g))
            (λ g. ok (store_objects endpoint proxy project false g)) d k
            (λ g l. objects_same object_class f.0 [] f.1 g l) (λ g m. m))
