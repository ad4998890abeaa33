-- ===== src/Deletion/Commands.antt =====
-- `Resource`, and `command_for` of scripts/openstack/delete-project-resources.py with its helpers:
-- the command line that deletes one resource.
use Prim.Native.String.{String}
use yggdrasil_home.Base.{
  ◌&&◌, ◌||◌, Option, none, some, List, [], ◌∷◌, ◌++◌, ◌==◌, ◌<>◌, if◌then◌else◌, is_blank,
}
use yggdrasil_home.Base.Dict
use yggdrasil_home.Base.Dict.{Dict}
use yggdrasil_home.Base.Json.{object, Fields, get_json, or_else, repr}
use yggdrasil_home.Deletion.Names.{scalar_text}
use yggdrasil_home.Deletion.CommandTables.{
  clustering_commands, workflow_commands, orchestration_commands, application_container_commands,
  shared_file_system_commands, compute_commands, key_manager_commands, block_storage_commands,
  network_commands,
}

pub record Resource : Type 0 where
  pub service : String
  pub resource : String
  pub identifier : String
  pub raw : Fields

-- What a call returns, or the message of the `DeletePlanError` that it raises.
pub data Planned {ℓ} (A : Type ℓ) : Type ℓ where
  ok : A → Planned A
  delete_plan_error : String → Planned A

abbrev pub Argv : Type 0
Argv = List String

unfoldable pub first_some {ℓ} : {A : Type ℓ} → List (Option A) → Option A
first_some [] = none
first_some (some a ∷ rest) = some a
first_some (none ∷ rest) = first_some rest

module _ (r : Resource) where
  abbrev raw_zone : String
  raw_zone = scalar_text (or_else (get_json r.raw "zone_id") (get_json r.raw "zone"))

  abbrev raw_container : String
  raw_container =
      scalar_text (or_else (get_json r.raw "container") (get_json r.raw "container_name"))

  abbrev raw_object : String
  raw_object =
      scalar_text
        (or_else (or_else (get_json r.raw "name") (get_json r.raw "id")) (get_json r.raw "object"))

  unfoldable pub object_operation : Planned Argv
  object_operation =
      if is_blank raw_container || is_blank raw_object
      then delete_plan_error
          ("object-store object is missing its container or object name: " <> repr (object r.raw))
      else ok ("object" ∷ "delete" ∷ raw_container ∷ raw_object ∷ [])

  unfoldable pub recordset_operation : Planned Argv
  recordset_operation =
      if is_blank raw_zone
      then delete_plan_error ("dns recordset is missing its zone ID: " <> repr (object r.raw))
      else ok ("recordset" ∷ "delete" ∷ raw_zone ∷ r.identifier ∷ [])

  unfoldable pub zone_share_operation : Planned Argv
  zone_share_operation =
      if is_blank raw_zone
      then delete_plan_error ("dns zone share is missing its zone ID: " <> repr (object r.raw))
      else ok ("zone" ∷ "share" ∷ "delete" ∷ raw_zone ∷ r.identifier ∷ [])

  -- `if service == name and kind == k: return (*words, identifier)`
  unfoldable pub single : String → String → Argv → Option (Planned Argv)
  single name k words =
      if (r.service == name) && (r.resource == k)
      then some (ok (words ++ r.identifier ∷ []))
      else none

  -- `if kind in commands: return (*commands[kind], identifier)`
  unfoldable pub from_table : Dict Argv → Option (Planned Argv)
  from_table commands = elim (Dict.get commands r.resource) [
    | none ↦ none
    | some words ↦ some (ok (words ++ r.identifier ∷ []))
  ]

  unfoldable pub for_service : String → Option (Planned Argv) → Option (Planned Argv)
  for_service name result = if r.service == name then result else none

  dns_command : Option (Planned Argv)
  dns_command =
      if r.resource == "recordset"
      then some recordset_operation
      else if r.resource == "zone_share"
      then some zone_share_operation
      else if r.resource == "zone"
      then some (ok ("zone" ∷ "delete" ∷ "--hard-delete" ∷ r.identifier ∷ []))
      else none

  object_store_command : Option (Planned Argv)
  object_store_command =
      if r.resource == "object"
      then some object_operation
      else if r.resource == "container"
      then some (ok ("container" ∷ "delete" ∷ "-r" ∷ r.identifier ∷ []))
      else none

  network_command : Dict Argv → Option (Planned Argv)
  network_command commands =
      if r.resource == "router"
      then some (ok ("router" ∷ "delete" ∷ r.identifier ∷ []))
      else from_table commands

  -- The `if`s of `command_for`, in order; a service whose table lacks the kind goes on to the rest.
  unfoldable pub attempts : List (Option (Planned Argv))
  unfolding dns_command object_store_command network_command from_table single for_service
  attempts =
      single "identity" "trust" ("trust" ∷ "delete" ∷ [])
      ∷ for_service "dns" dns_command
      ∷ single "alarm" "alarm" ("alarm" ∷ "delete" ∷ [])
      ∷ for_service "clustering" (from_table clustering_commands)
      ∷ for_service "workflow" (from_table workflow_commands)
      ∷ for_service "orchestration" (from_table orchestration_commands)
      ∷ for_service "application-container" (from_table application_container_commands)
      ∷ single "load-balancer" "load_balancer"
          ("loadbalancer" ∷ "delete" ∷ "--cascade" ∷ "--wait" ∷ [])
      ∷ single "container-infrastructure-management" "cluster" ("coe" ∷ "cluster" ∷ "delete" ∷ [])
      ∷ single "container-infrastructure-management" "cluster_template"
          ("coe" ∷ "cluster" ∷ "template" ∷ "delete" ∷ [])
      ∷ single "database" "instance" ("database" ∷ "instance" ∷ "delete" ∷ "--force" ∷ [])
      ∷ for_service "shared-file-system" (from_table shared_file_system_commands)
      ∷ for_service "object-store" object_store_command
      ∷ for_service "compute" (from_table compute_commands)
      ∷ single "image" "image" ("image" ∷ "delete" ∷ [])
      ∷ for_service "key-manager" (from_table key_manager_commands)
      ∷ for_service "block-storage" (from_table block_storage_commands)
      ∷ for_service "network" (network_command network_commands)
      ∷ []

  unfoldable pub or_unsupported : Option (Planned Argv) → Planned Argv
  or_unsupported (some result) = result
  or_unsupported none =
      delete_plan_error ("unsupported project resource: " <> (r.service <> ("/" <> r.resource)))

  unfoldable pub command_for : Planned Argv
  unfolding attempts first_some Dict.get or_unsupported
  command_for = or_unsupported (first_some attempts)
