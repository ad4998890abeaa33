-- ===== src/Deletion/Plan/Entries.antt =====
-- Which items of a report become entries.
use Prim.Native.String.{String}
use yggdrasil_home.Base.{
  ℕ, ◌<>◌, if◌then◌else◌, ◌≡◌, refl, Bool, true, false, Option, none, some, List, [], ◌∷◌, inl, inr,
  In, here, there, In-append, In-append_left, not_In-nil, Bool-cases, is_blank,
}
use yggdrasil_home.Base.Dict.{Dict}
use yggdrasil_home.Base.Json.{
  Json, null, flag, number, string, array, object, Fields, Items, nil, cons, to_list, to_dict,
  truthy,
}
use yggdrasil_home.Deletion.Names.{identifier, canonical_service, canonical_resource}
use yggdrasil_home.Deletion.Commands.{Resource}
use yggdrasil_home.Deletion.Plan.{
  scan_item, scan_items, scan_list, scan_collection, scan_collections, scan_service, scan_services,
  is_skipped, phase_of, scan_phased, issue, nothing, slashed,
}

-- The entry that an item gives under a kind.
abbrev pub entry_of : String → String → Fields → Resource
entry_of service resource raw = record {
  service = service;
  resource = resource;
  identifier = identifier raw service resource;
  raw = raw;
}

-- The entry is that of an object among the items, which has an identifier.
pub record IsEntry (service resource : String) (items : List Json) (r : Resource) : Type 0 where
  pub raw : Fields
  pub item : In (object raw) items
  pub is_entry : r ≡ entry_of service resource raw
  pub has_id : is_blank (identifier raw service resource) ≡ false

scan_item_sound :
    (service resource : String) (item : Json) {r : Resource}
    → In r (scan_item service resource item).entries
    → IsEntry service resource (item ∷ []) r
unfolding scan_item
scan_item_sound service resource (object raw) m =
    elim (Bool-cases (is_blank (identifier raw service resource))) [
      | inl k ↦ absurd (not_In-nil (rw k at m))
      | inr k ↦ one k (rw k at m)
    ]
  where
    one :
        is_blank (identifier raw service resource) ≡ false
        → {a : Resource} → In a (entry_of service resource raw ∷ [])
        → IsEntry service resource (object raw ∷ []) a
    one k (here e) = record { raw = raw; item = here refl; is_entry = e; has_id = k }
    one k (there n) = absurd (not_In-nil n)
scan_item_sound service resource null m = absurd (not_In-nil m)
scan_item_sound service resource (flag b) m = absurd (not_In-nil m)
scan_item_sound service resource (number n) m = absurd (not_In-nil m)
scan_item_sound service resource (string s) m = absurd (not_In-nil m)
scan_item_sound service resource (array xs) m = absurd (not_In-nil m)

IsEntry-first :
    {service resource : String} {x : Json} (xs : List Json) {r : Resource}
    → IsEntry service resource (x ∷ []) r
    → IsEntry service resource (x ∷ xs) r
IsEntry-first xs e = record {
  raw = e.raw;
  item = In-append_left xs e.item;
  is_entry = e.is_entry;
  has_id = e.has_id;
}

IsEntry-later :
    {service resource : String} (x : Json) {xs : List Json} {r : Resource}
    → IsEntry service resource xs r
    → IsEntry service resource (x ∷ xs) r
IsEntry-later x e = record {
  raw = e.raw;
  item = there e.item;
  is_entry = e.is_entry;
  has_id = e.has_id;
}

scan_items_sound :
    (service resource : String) (items : List Json) {r : Resource}
    → In r (scan_items service resource items).entries
    → IsEntry service resource items r
unfolding scan_items
scan_items_sound service resource [] m = absurd (not_In-nil m)
scan_items_sound service resource (x ∷ xs) m =
    elim (In-append (scan_item service resource x).entries _ m) [
      | inl l ↦ IsEntry-first xs (scan_item_sound service resource x l)
      | inr l ↦ IsEntry-later x (scan_items_sound service resource xs l)
    ]

-- A kind whose items are read.
pub record IsDeletable (service resource : String) : Type 0 where
  pub not_skipped : is_skipped (service, resource) ≡ false
  pub phase : ℕ
  pub phased : phase_of (service, resource) ≡ some phase

scan_phased_sound :
    (service resource : String) (items : List Json) (phase : Option ℕ) {r : Resource}
    → is_skipped (service, resource) ≡ false
    → phase_of (service, resource) ≡ phase
    → In r (scan_phased service resource items phase).entries
    → IsDeletable service resource × IsEntry service resource items r
unfolding scan_phased
scan_phased_sound service resource items none k e m = absurd (not_In-nil m)
scan_phased_sound service resource items (some n) k e m =
    (record { not_skipped = k; phase = n; phased = e }, scan_items_sound service resource items m)

scan_list_sound :
    (service resource : String) (items : List Json) {r : Resource}
    → In r (scan_list service resource items).entries
    → IsDeletable service resource × IsEntry service resource items r
unfolding scan_list
scan_list_sound service resource items m = elim (Bool-cases (is_skipped (service, resource))) [
  | inl k ↦ absurd (not_In-nil (rw k at m))
  | inr k ↦ scan_phased_sound service resource items _ k refl (rw k at m)
]

-- An entry, traced to the item of the report's resources that it stands for.
pub record IsListed (services : Dict Json) (r : Resource) : Type 0 where
  pub raw_service : String
  pub collections : Fields
  pub raw_resource : String
  pub items : Items
  pub service_at : In (raw_service, object collections) services
  pub resource_at : In (raw_resource, array items) (to_dict collections)
  pub deletable : IsDeletable (canonical_service raw_service) (canonical_resource raw_resource)
  pub entry :
      IsEntry (canonical_service raw_service) (canonical_resource raw_resource) (to_list items) r

-- The same, within one service's collections.
record IsCollected (service : String) (collections : Dict Json) (r : Resource) : Type 0 where
  raw_resource : String
  items : Items
  resource_at : In (raw_resource, array items) collections
  deletable : IsDeletable service (canonical_resource raw_resource)
  entry : IsEntry service (canonical_resource raw_resource) (to_list items) r

scan_collection_sound :
    (service raw_resource : String) (objects : Json) {r : Resource}
    → In r (scan_collection service (canonical_resource raw_resource) objects).entries
    → IsCollected service ((raw_resource, objects) ∷ []) r
unfolding scan_collection truthy
scan_collection_sound service raw_resource (array nil) m = absurd (not_In-nil m)
scan_collection_sound service raw_resource (array (cons x xs)) m =
    let (d, e) = scan_list_sound service (canonical_resource raw_resource) (x ∷ to_list xs) m in
    record {
      raw_resource = raw_resource;
      items = cons x xs;
      resource_at = here refl;
      deletable = d;
      entry = e;
    }
scan_collection_sound service raw_resource objects m =
    no_entries (truthy objects)
      (slashed service (canonical_resource raw_resource) <> ": resource collection is not a list") m
  where
    no_entries :
        (b : Bool) (message : String) {a : Resource}
        → In a (if b then issue message else nothing).entries
        → IsCollected service ((raw_resource, objects) ∷ []) a
    no_entries true message n = absurd (not_In-nil n)
    no_entries false message n = absurd (not_In-nil n)

IsCollected-first :
    {service : String} {c : String × Json} (rest : Dict Json) {r : Resource}
    → IsCollected service (c ∷ []) r
    → IsCollected service (c ∷ rest) r
IsCollected-first rest c = record {
  raw_resource = c.raw_resource;
  items = c.items;
  resource_at = In-append_left rest c.resource_at;
  deletable = c.deletable;
  entry = c.entry;
}

IsCollected-later :
    {service : String} (c : String × Json) {rest : Dict Json} {r : Resource}
    → IsCollected service rest r
    → IsCollected service (c ∷ rest) r
IsCollected-later c d = record {
  raw_resource = d.raw_resource;
  items = d.items;
  resource_at = there d.resource_at;
  deletable = d.deletable;
  entry = d.entry;
}

scan_collections_sound :
    (service : String) (collections : Dict Json) {r : Resource}
    → In r (scan_collections service collections).entries
    → IsCollected service collections r
unfolding scan_collections
scan_collections_sound service [] m = absurd (not_In-nil m)
scan_collections_sound service ((raw_resource, objects) ∷ rest) m =
    elim (In-append (scan_collection service (canonical_resource raw_resource) objects).entries _
      m) [
        | inl l ↦ IsCollected-first rest (scan_collection_sound service raw_resource objects l)
        | inr l ↦ IsCollected-later (raw_resource, objects) (scan_collections_sound service rest l)
      ]

scan_service_sound :
    (raw_service : String) (value : Json) {r : Resource}
    → In r (scan_service raw_service value).entries
    → IsListed ((raw_service, value) ∷ []) r
unfolding scan_service
scan_service_sound raw_service (object collections) m =
    let c = scan_collections_sound (canonical_service raw_service) (to_dict collections) m in
    record {
      raw_service = raw_service;
      collections = collections;
      raw_resource = c.raw_resource;
      items = c.items;
      service_at = here refl;
      resource_at = c.resource_at;
      deletable = c.deletable;
      entry = c.entry;
    }
scan_service_sound raw_service other m = absurd (not_In-nil m)

IsListed-more :
    (xs ys : Dict Json)
    → ((x : String × Json) → In x xs → In x ys)
    → {r : Resource} → IsListed xs r
    → IsListed ys r
IsListed-more xs ys f l = record {
  raw_service = l.raw_service;
  collections = l.collections;
  raw_resource = l.raw_resource;
  items = l.items;
  service_at = f _ l.service_at;
  resource_at = l.resource_at;
  deletable = l.deletable;
  entry = l.entry;
}

-- Every entry stands for an item of the report.
pub scan_services_sound :
    (services : Dict Json) {r : Resource}
    → In r (scan_services services).entries
    → IsListed services r
unfolding scan_services
scan_services_sound [] m = absurd (not_In-nil m)
scan_services_sound ((raw_service, value) ∷ rest) m =
    elim (In-append (scan_service raw_service value).entries _ m) [
      | inl l ↦
          IsListed-more ((raw_service, value) ∷ []) _ (λ x. In-append_left rest)
            (scan_service_sound raw_service value l)
      | inr l ↦ IsListed-more rest _ (λ x. there) (scan_services_sound rest l)
    ]
