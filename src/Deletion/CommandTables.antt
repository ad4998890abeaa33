-- ===== src/Deletion/CommandTables.antt =====
-- The tables of commands inside `command_for`, one for each service that has one.
use yggdrasil_home.Base.{List, [], ◌∷◌}
use yggdrasil_home.Base.Dict.{Dict}
use Prim.Native.String.{String}

abbrev pub clustering_commands : Dict (List String)
clustering_commands =
    ("cluster", "cluster" ∷ "delete" ∷ "--force" ∷ [])
    ∷ ("policy", "cluster" ∷ "policy" ∷ "delete" ∷ "--force" ∷ [])
    ∷ ("profile", "cluster" ∷ "profile" ∷ "delete" ∷ "--force" ∷ [])
    ∷ ("node", "cluster" ∷ "node" ∷ "delete" ∷ "--force" ∷ [])
    ∷ ("receiver", "cluster" ∷ "receiver" ∷ "delete" ∷ [])
    ∷ []

abbrev pub workflow_commands : Dict (List String)
workflow_commands =
    ("action", "action" ∷ "definition" ∷ "delete" ∷ [])
    ∷ ("action_execution", "action" ∷ "execution" ∷ "delete" ∷ [])
    ∷ ("code_source", "code" ∷ "source" ∷ "delete" ∷ [])
    ∷ ("cron_trigger", "cron" ∷ "trigger" ∷ "delete" ∷ [])
    ∷ ("dynamic_action", "dynamic" ∷ "action" ∷ "delete" ∷ [])
    ∷ ("environment", "workflow" ∷ "env" ∷ "delete" ∷ [])
    ∷ ("event_trigger", "event" ∷ "trigger" ∷ "delete" ∷ [])
    ∷ ("execution", "workflow" ∷ "execution" ∷ "delete" ∷ "--force" ∷ [])
    ∷ ("workbook", "workbook" ∷ "delete" ∷ [])
    ∷ ("workflow", "workflow" ∷ "delete" ∷ [])
    ∷ []

abbrev pub orchestration_commands : Dict (List String)
orchestration_commands =
    ("software_config", "software" ∷ "config" ∷ "delete" ∷ [])
    ∷ ("software_deployment", "software" ∷ "deployment" ∷ "delete" ∷ [])
    ∷ ("stack", "stack" ∷ "delete" ∷ "--yes" ∷ [])
    ∷ []

abbrev pub application_container_commands : Dict (List String)
application_container_commands =
    ("capsule", "capsule" ∷ "delete" ∷ [])
    ∷ ("container", "appcontainer" ∷ "delete" ∷ "--force" ∷ "--stop" ∷ "--wait" ∷ [])
    ∷ []

abbrev pub shared_file_system_commands : Dict (List String)
shared_file_system_commands =
    ("share", "share" ∷ "delete" ∷ "--wait" ∷ [])
    ∷ ("share_network", "share" ∷ "network" ∷ "delete" ∷ [])
    ∷ ("share_group", "share" ∷ "group" ∷ "delete" ∷ [])
    ∷ ("share_snapshot", "share" ∷ "snapshot" ∷ "delete" ∷ [])
    ∷ ("user_message", "share" ∷ "message" ∷ "delete" ∷ [])
    ∷ []

abbrev pub compute_commands : Dict (List String)
compute_commands =
    ("keypair", "keypair" ∷ "delete" ∷ [])
    ∷ ("server", "server" ∷ "delete" ∷ "--wait" ∷ [])
    ∷ ("server_group", "server" ∷ "group" ∷ "delete" ∷ [])
    ∷ []

abbrev pub key_manager_commands : Dict (List String)
key_manager_commands =
    ("container", "secret" ∷ "container" ∷ "delete" ∷ [])
    ∷ ("order", "secret" ∷ "order" ∷ "delete" ∷ [])
    ∷ ("secret", "secret" ∷ "delete" ∷ [])
    ∷ []

abbrev pub block_storage_commands : Dict (List String)
block_storage_commands =
    ("backup", "volume" ∷ "backup" ∷ "delete" ∷ [])
    ∷ ("group", "volume" ∷ "group" ∷ "delete" ∷ [])
    ∷ ("group_snapshot", "volume" ∷ "group" ∷ "snapshot" ∷ "delete" ∷ [])
    ∷ ("snapshot", "volume" ∷ "snapshot" ∷ "delete" ∷ [])
    ∷ ("volume", "volume" ∷ "delete" ∷ "--force" ∷ [])
    ∷ ("volume_transfer", "volume" ∷ "transfer" ∷ "request" ∷ "delete" ∷ [])
    ∷ []

abbrev pub network_commands : Dict (List String)
network_commands =
    ("floating_ip", "floating" ∷ "ip" ∷ "delete" ∷ [])
    ∷ ("network", "network" ∷ "delete" ∷ [])
    ∷ ("port", "port" ∷ "delete" ∷ [])
    ∷ ("rbac_policy", "network" ∷ "rbac" ∷ "delete" ∷ [])
    ∷ ("security_group", "security" ∷ "group" ∷ "delete" ∷ [])
    ∷ ("security_group_rule", "security" ∷ "group" ∷ "rule" ∷ "delete" ∷ [])
    ∷ ("subnet", "subnet" ∷ "delete" ∷ [])
    ∷ []
