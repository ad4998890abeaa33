-- ===== src/Deletion/Plan/Complete.antt =====
-- The loops of `_resource_entries` on a report in which they find no issue.
use Prim.Native.String.{String}
use yggdrasil_home.Base.{
  ℕ, ◌≡◌, refl, false, Option, none, some, List, [], ◌∷◌, ◌++◌, inl, inr, In, here, there,
  In-append_left, In-append_right, not_In-nil, Bool-cases, is_blank,
}
use yggdrasil_home.Base.Dict.{Dict}
use yggdrasil_home.Base.Json.{
  Json, array, object, Fields, Items, nil, cons, to_list, to_dict, truthy,
}
use yggdrasil_home.Deletion.Names.{identifier, canonical_service, canonical_resource}
use yggdrasil_home.Deletion.Commands.{Resource}
use yggdrasil_home.Deletion.Plan.{
  scan_item, scan_items, scan_list, scan_collection, scan_collections, scan_service, scan_services,
  is_skipped, phase_of, scan_phased,
}
use yggdrasil_home.Deletion.Plan.Entries.{entry_of}

pub append-eq-nil {ℓ} : {A : Type ℓ} (xs ys : List A) → xs ++ ys ≡ [] → (xs ≡ []) × (ys ≡ [])
append-eq-nil [] ys h = (refl, h)
append-eq-nil (x ∷ xs) ys h = cc

-- The item is an object, and its entry is among those found.
pub record IsRead (service resource : String) (entries : List Resource) (item : Json) : Type 0 where
  pub raw : Fields
  pub is_object : item ≡ object raw
  pub entered : In (entry_of service resource raw) entries

IsRead-more :
    {service resource : String} (xs ys : List Resource) {item : Json}
    → ((r : Resource) → In r xs → In r ys)
    → IsRead service resource xs item
    → IsRead service resource ys item
IsRead-more xs ys f e = record { raw = e.raw; is_object = e.is_object; entered = f _ e.entered }

scan_item_complete :
    (service resource : String) (item : Json)
    → (scan_item service resource item).issues ≡ []
    → IsRead service resource (scan_item service resource item).entries item
unfolding scan_item
scan_item_complete service resource (object raw) h =
    elim (Bool-cases (is_blank (identifier raw service resource))) [
      | inl k ↦ let h' = rw k at h in cc
      | inr k ↦ record { raw = raw; is_object = refl; entered = rw k (here refl) }
    ]
scan_item_complete service resource other h = cc

scan_items_complete :
    (service resource : String) (items : List Json)
    → (scan_items service resource items).issues ≡ []
    → {item : Json} → In item items
    → IsRead service resource (scan_items service resource items).entries item
unfolding scan_items
scan_items_complete service resource [] h m = absurd (not_In-nil m)
scan_items_complete service resource (x ∷ xs) h (here e) =
    let (p, q) = append-eq-nil (scan_item service resource x).issues _ h in
    rw e (
      IsRead-more (scan_item service resource x).entries _
        (λ r. In-append_left (scan_items service resource xs).entries)
        (scan_item_complete service resource x p))
scan_items_complete service resource (x ∷ xs) h (there m) =
    let (p, q) = append-eq-nil (scan_item service resource x).issues _ h in
    IsRead-more (scan_items service resource xs).entries _
      (λ r. In-append_right (scan_item service resource x).entries)
      (scan_items_complete service resource xs q m)

scan_phased_complete :
    (service resource : String) (items : List Json) (phase : Option ℕ)
    → (scan_phased service resource items phase).issues ≡ []
    → {item : Json} → In item items
    → IsRead service resource (scan_phased service resource items phase).entries item
unfolding scan_phased
scan_phased_complete service resource items none h m = cc
scan_phased_complete service resource items (some n) h m =
    scan_items_complete service resource items h m

scan_list_complete :
    (service resource : String) (items : List Json)
    → is_skipped (service, resource) ≡ false
    → (scan_list service resource items).issues ≡ []
    → {item : Json} → In item items
    → IsRead service resource (scan_list service resource items).entries item
unfolding scan_list
scan_list_complete service resource items k h m =
    rw k (scan_phased_complete service resource items (phase_of (service, resource)) (rw k at h) m)

scan_collection_complete :
    (service resource : String) (items : Items)
    → is_skipped (service, resource) ≡ false
    → (scan_collection service resource (array items)).issues ≡ []
    → {item : Json} → In item (to_list items)
    → IsRead service resource (scan_collection service resource (array items)).entries item
unfolding scan_collection truthy
scan_collection_complete service resource nil k h m = absurd (not_In-nil m)
scan_collection_complete service resource (cons x xs) k h m =
    scan_list_complete service resource (x ∷ to_list xs) k h m

collection_complete_at :
    (service raw_resource : String) (items : Items) (c : String × Json)
    → is_skipped (service, canonical_resource raw_resource) ≡ false
    → (raw_resource, array items) ≡ c
    → (scan_collection service (canonical_resource c.0) c.1).issues ≡ []
    → {item : Json} → In item (to_list items)
    → IsRead service
        (canonical_resource raw_resource)
        (scan_collection service (canonical_resource c.0) c.1).entries
        item
collection_complete_at service raw_resource items c k e h m =
    rw (← e)
      (scan_collection_complete service (canonical_resource raw_resource) items k (rw (← e) at h) m)

scan_collections_complete :
    (service raw_resource : String) (items : Items) (collections : Dict Json)
    → is_skipped (service, canonical_resource raw_resource) ≡ false
    → (scan_collections service collections).issues ≡ []
    → In (raw_resource, array items) collections
    → {item : Json} → In item (to_list items)
    → IsRead service
        (canonical_resource raw_resource)
        (scan_collections service collections).entries
        item
unfolding scan_collections
scan_collections_complete service raw_resource items [] k h c m = absurd (not_In-nil c)
scan_collections_complete service raw_resource items ((name, objects) ∷ rest) k h (there c) m =
    let (p, q) =
      append-eq-nil (scan_collection service (canonical_resource name) objects).issues _ h in
    IsRead-more (scan_collections service rest).entries _
      (λ r. In-append_right (scan_collection service (canonical_resource name) objects).entries)
      (scan_collections_complete service raw_resource items rest k q c m)
scan_collections_complete service raw_resource items ((name, objects) ∷ rest) k h (here e) m =
    let (p, q) =
      append-eq-nil (scan_collection service (canonical_resource name) objects).issues _ h in
    IsRead-more (scan_collection service (canonical_resource name) objects).entries _
      (λ r. In-append_left (scan_collections service rest).entries)
      (collection_complete_at service raw_resource items (name, objects) k e p m)

-- An item of the report under names that the loops do not skip.
pub record IsItem (services : Dict Json) (raw_service raw_resource : String) (item : Json)
    : Type 0 where
  pub collections : Fields
  pub items : Items
  pub service_at : In (raw_service, object collections) services
  pub resource_at : In (raw_resource, array items) (to_dict collections)
  pub item_at : In item (to_list items)
  pub not_skipped :
      is_skipped (canonical_service raw_service, canonical_resource raw_resource) ≡ false

service_complete_at :
    (raw_service raw_resource : String) (collections : Fields) (items : Items) (c : String × Json)
    → is_skipped (canonical_service raw_service, canonical_resource raw_resource) ≡ false
    → (raw_service, object collections) ≡ c
    → (scan_service c.0 c.1).issues ≡ []
    → In (raw_resource, array items) (to_dict collections)
    → {item : Json} → In item (to_list items)
    → IsRead
        (canonical_service raw_service)
        (canonical_resource raw_resource)
        (scan_service c.0 c.1).entries
        item
unfolding scan_service
service_complete_at raw_service raw_resource collections items c k e h r m = rw (← e) (
    scan_collections_complete (canonical_service raw_service) raw_resource items
      (to_dict collections) k (rw (← e) at h) r m)

services_complete_at :
    (raw_service raw_resource : String) (collections : Fields) (items : Items) (l : Dict Json)
    → is_skipped (canonical_service raw_service, canonical_resource raw_resource) ≡ false
    → (scan_services l).issues ≡ []
    → In (raw_service, object collections) l
    → In (raw_resource, array items) (to_dict collections)
    → {item : Json} → In item (to_list items)
    → IsRead
        (canonical_service raw_service)
        (canonical_resource raw_resource)
        (scan_services l).entries
        item
unfolding scan_services
services_complete_at raw_service raw_resource collections items [] k h s r m = absurd (not_In-nil s)
services_complete_at raw_service raw_resource collections items ((name, value) ∷ rest) k h (here e)
      r m =
    let (p, q) = append-eq-nil (scan_service name value).issues _ h in
    IsRead-more (scan_service name value).entries _
      (λ x. In-append_left (scan_services rest).entries)
      (service_complete_at raw_service raw_resource collections items (name, value) k e p r m)
services_complete_at raw_service raw_resource collections items ((name, value) ∷ rest) k h (there s)
      r m =
    let (p, q) = append-eq-nil (scan_service name value).issues _ h in
    IsRead-more (scan_services rest).entries _
      (λ x. In-append_right (scan_service name value).entries)
      (services_complete_at raw_service raw_resource collections items rest k q s r m)

pub scan_services_complete :
    (services : Dict Json) (raw_service raw_resource : String) {item : Json}
    → (scan_services services).issues ≡ []
    → IsItem services raw_service raw_resource item
    → IsRead
        (canonical_service raw_service)
        (canonical_resource raw_resource)
        (scan_services services).entries
        item
scan_services_complete services raw_service raw_resource h i =
    services_complete_at raw_service raw_resource i.collections i.items services i.not_skipped h
      i.service_at i.resource_at i.item_at
