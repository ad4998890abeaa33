-- ===== src/Deletion/Plan/Supported.antt =====
-- The table of phases against the commands for its kinds.
use Prim.Native.String.{String}
use yggdrasil_home.Base.{
  ℕ, ◌≡◌, refl, true, ◌||◌, some, List, [], ◌∷◌, ◌⊎◌, inl, inr, All, is_blank, Bool-cases,
}
use yggdrasil_home.Base.Json.{Fields, get_json, or_else}
use yggdrasil_home.Deletion.Names.{scalar_text}
use yggdrasil_home.Deletion.Tables.{Kind, resource_phases}
use yggdrasil_home.Deletion.Commands.{
  Resource, ok, command_for, Argv, recordset_operation, zone_share_operation, object_operation,
}
use yggdrasil_home.Deletion.Plan.{phase_of}
use yggdrasil_home.Deletion.Plan.Phases.{phase_in-All}

-- The texts in an item that a command names beside the identifier, or in its place.
abbrev pub zone_text : Resource → String
zone_text r = scalar_text (or_else (get_json r.raw "zone_id") (get_json r.raw "zone"))

abbrev pub container_text : Resource → String
container_text r =
    scalar_text (or_else (get_json r.raw "container") (get_json r.raw "container_name"))

abbrev pub object_text : Resource → String
object_text r =
    scalar_text
      (or_else (or_else (get_json r.raw "name") (get_json r.raw "id")) (get_json r.raw "object"))

-- An item that names nothing that its kind is deleted in: a recordset or a zone share with no text
-- for its zone, an object with none for its container or for its own name.
pub data LacksParent (r : Resource) : Type 0 where
  no_zone :
      r.service ≡ "dns"
      → (r.resource ≡ "recordset") ⊎ (r.resource ≡ "zone_share")
      → is_blank (zone_text r) ≡ true
      → LacksParent r
  no_container :
      r.service ≡ "object-store"
      → r.resource ≡ "object"
      → (is_blank (container_text r) || is_blank (object_text r)) ≡ true
      → LacksParent r

-- The planner has a command for the resource, or its item lacks what the command would name.
pub data IsSupported (r : Resource) : Type 0 where
  has_command : (argv : Argv) → command_for r ≡ ok argv → IsSupported r
  lacks_parent : LacksParent r → IsSupported r

abbrev made : String → String → String → Fields → Resource
made service resource id raw = record {
  service = service;
  resource = resource;
  identifier = id;
  raw = raw;
}

recordset-IsSupported : (id : String) (raw : Fields) → IsSupported (made "dns" "recordset" id raw)
unfolding command_for recordset_operation
recordset-IsSupported id raw =
    elim (Bool-cases (is_blank (zone_text (made "dns" "recordset" id raw)))) [
      | inl k ↦ lacks_parent (no_zone refl (inl refl) k)
      | inr k ↦
          has_command ("recordset" ∷ "delete" ∷ zone_text (made "dns" "recordset" id raw) ∷ id ∷ [])
            (rw k refl)
    ]

zone_share-IsSupported : (id : String) (raw : Fields) → IsSupported (made "dns" "zone_share" id raw)
unfolding command_for zone_share_operation
zone_share-IsSupported id raw =
    elim (Bool-cases (is_blank (zone_text (made "dns" "zone_share" id raw)))) [
      | inl k ↦ lacks_parent (no_zone refl (inr refl) k)
      | inr k ↦
          has_command
            ("zone" ∷ "share" ∷ "delete" ∷ zone_text (made "dns" "zone_share" id raw) ∷ id ∷ [])
            (rw k refl)
    ]

object-IsSupported :
    (id : String) (raw : Fields) → IsSupported (made "object-store" "object" id raw)
unfolding command_for object_operation
object-IsSupported id raw =
    let r : Resource = made "object-store" "object" id raw in
    elim (Bool-cases (is_blank (container_text r) || is_blank (object_text r))) [
      | inl k ↦ lacks_parent (no_container refl refl k)
      | inr k ↦
          has_command ("object" ∷ "delete" ∷ container_text r ∷ object_text r ∷ []) (rw k refl)
    ]

infixr 5 ◌▸◌
-- What is shown of each row of a table, in its order.
data Rows : List (Kind × ℕ) → Type 0 where
  no_more : Rows []
  ◌▸◌ :
      {service resource : String} {phase : ℕ} {table : List (Kind × ℕ)}
      → ((id : String) (raw : Fields) → IsSupported (made service resource id raw))
      → Rows table
      → Rows (((service, resource), phase) ∷ table)

Rows-All :
    (table : List (Kind × ℕ))
    → Rows table
    → All (λ ((s, k), n). (id : String) (raw : Fields) → IsSupported (made s k id raw)) table
Rows-All [] no_more = tt
Rows-All (((s, k), n) ∷ table) (row ▸ rows) = (row, Rows-All table rows)

commands_known : Rows resource_phases
unfolding command_for
commands_known =
    (λ id raw. has_command _ refl)
    ▸ (λ id raw. has_command _ refl)
    ▸ (λ id raw. has_command _ refl)
    ▸ (λ id raw. has_command _ refl)
    ▸ (λ id raw. has_command _ refl)
    ▸ (λ id raw. has_command _ refl)
    ▸ (λ id raw. has_command _ refl)
    ▸ (λ id raw. has_command _ refl)
    ▸ (λ id raw. has_command _ refl)
    ▸ (λ id raw. has_command _ refl)
    ▸ (λ id raw. has_command _ refl)
    ▸ (λ id raw. zone_share-IsSupported id raw)
    ▸ (λ id raw. recordset-IsSupported id raw)
    ▸ (λ id raw. has_command _ refl)
    ▸ (λ id raw. has_command _ refl)
    ▸ (λ id raw. has_command _ refl)
    ▸ (λ id raw. has_command _ refl)
    ▸ (λ id raw. has_command _ refl)
    ▸ (λ id raw. has_command _ refl)
    ▸ (λ id raw. has_command _ refl)
    ▸ (λ id raw. has_command _ refl)
    ▸ (λ id raw. has_command _ refl)
    ▸ (λ id raw. has_command _ refl)
    ▸ (λ id raw. has_command _ refl)
    ▸ (λ id raw. has_command _ refl)
    ▸ (λ id raw. has_command _ refl)
    ▸ (λ id raw. has_command _ refl)
    ▸ (λ id raw. has_command _ refl)
    ▸ (λ id raw. has_command _ refl)
    ▸ (λ id raw. has_command _ refl)
    ▸ (λ id raw. has_command _ refl)
    ▸ (λ id raw. has_command _ refl)
    ▸ (λ id raw. has_command _ refl)
    ▸ (λ id raw. has_command _ refl)
    ▸ (λ id raw. object-IsSupported id raw)
    ▸ (λ id raw. has_command _ refl)
    ▸ (λ id raw. has_command _ refl)
    ▸ (λ id raw. has_command _ refl)
    ▸ (λ id raw. has_command _ refl)
    ▸ (λ id raw. has_command _ refl)
    ▸ (λ id raw. has_command _ refl)
    ▸ (λ id raw. has_command _ refl)
    ▸ (λ id raw. has_command _ refl)
    ▸ (λ id raw. has_command _ refl)
    ▸ (λ id raw. has_command _ refl)
    ▸ (λ id raw. has_command _ refl)
    ▸ (λ id raw. has_command _ refl)
    ▸ (λ id raw. has_command _ refl)
    ▸ (λ id raw. has_command _ refl)
    ▸ (λ id raw. has_command _ refl)
    ▸ (λ id raw. has_command _ refl)
    ▸ (λ id raw. has_command _ refl)
    ▸ (λ id raw. has_command _ refl)
    ▸ (λ id raw. has_command _ refl)
    ▸ (λ id raw. has_command _ refl)
    ▸ (λ id raw. has_command _ refl)
    ▸ (λ id raw. has_command _ refl)
    ▸ no_more

-- For a resource of a kind with a phase the planner has a command, or the item lacks what the command
-- would name: a recordset or a zone share the text of its zone, an object that of its container or of
-- its own name.
pub phased-IsSupported :
    (r : Resource) (phase : ℕ) → phase_of (r.service, r.resource) ≡ some phase → IsSupported r
unfolding phase_of
phased-IsSupported r phase h =
    phase_in-All
      (λ s k n.
        (id : String) (raw : Fields)
        → IsSupported (record { service = s; resource = k; identifier = id; raw = raw }))
      resource_phases (Rows-All resource_phases commands_known) r.service r.resource phase h
      r.identifier r.raw
