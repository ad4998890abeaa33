-- ===== src/Inventory/Tables.antt =====
-- The tables of scripts/openstack/list-project-resources.py: services and resources that an inventory
-- leaves out.
use Prim.Native.String.{String}
use yggdrasil_home.Base.{List, [], ◌∷◌}
use yggdrasil_home.Base.Dict.{Dict}

abbrev pub ignored_service_types : List String
ignored_service_types =
    "cloudformation" ∷ "gnocchi" ∷ "instance-ha" ∷ "lms" ∷ "metric" ∷ "nfv-orchestration" ∷ "panel"
    ∷ "rating" ∷ "resource-optimization" ∷ []

abbrev pub global_resource_names : List String
global_resource_names =
    "account" ∷ "agent" ∷ "archive_policy" ∷ "archive_policy_rule" ∷ "availability_zone"
    ∷ "availability_zone_profile" ∷ "capabilities" ∷ "cluster_template" ∷ "conductor" ∷ "datastore"
    ∷ "datastore_version" ∷ "domain" ∷ "endpoint" ∷ "extension" ∷ "flavor" ∷ "flavor_access"
    ∷ "group" ∷ "group_type" ∷ "host" ∷ "hypervisor" ∷ "image_import" ∷ "info" ∷ "limit" ∷ "limits"
    ∷ "migration" ∷ "policy_type" ∷ "profile_type" ∷ "provider" ∷ "policy" ∷ "quota"
    ∷ "quota_class_set" ∷ "quota_set" ∷ "region" ∷ "resource_class" ∷ "resource_filter"
    ∷ "resource_provider" ∷ "role" ∷ "schema" ∷ "server_migration" ∷ "service" ∷ "service_profile"
    ∷ "service_status" ∷ "stats" ∷ "stats_pools" ∷ "task" ∷ "tenant_usage" ∷ "type" ∷ "user"
    ∷ "usage" ∷ "version" ∷ "volume_type" ∷ "volume_type_access" ∷ "zone_export" ∷ []

abbrev pub global_legacy_manager_names : List String
global_legacy_manager_names =
    "archive_policies" ∷ "archive_policy_rules" ∷ "availability_zones" ∷ "capabilities"
    ∷ "datastores" ∷ "datastore_versions" ∷ "extensions" ∷ "flavors" ∷ "group_types" ∷ "hosts"
    ∷ "hypervisors" ∷ "images" ∷ "limits" ∷ "mservices" ∷ "policies" ∷ "policy_types" ∷ "profiles"
    ∷ "quotas" ∷ "regions" ∷ "registries" ∷ "resource_classes" ∷ "resource_filters"
    ∷ "resource_providers" ∷ "resource_type" ∷ "resource_types" ∷ "roles" ∷ "services" ∷ "stats"
    ∷ "tasks" ∷ "types" ∷ "users" ∷ "versions" ∷ "volume_type_accesses" ∷ "volume_types" ∷ []

abbrev pub non_deletable_resource_names : List String
non_deletable_resource_names = "network_ip_availability" ∷ "network_ip_availabilities" ∷ []

abbrev pub non_deletable_resource_names_by_service : Dict (List String)
non_deletable_resource_names_by_service =
    (
      "application-container",
      "action" ∷ "actions" ∷ "container_action" ∷ "container_actions" ∷ "log" ∷ "logs" ∷ "stats"
          ∷ [],
    )
    ∷ ("backup", "action" ∷ "actions" ∷ [])
    ∷ ("clustering", "action" ∷ "event" ∷ [])
    ∷ (
      "dns",
      "blacklist" ∷ "blacklists" ∷ "floatingip" ∷ "floatingips" ∷ "pool" ∷ "pools"
          ∷ "service_status" ∷ "service_statuses" ∷ "tld" ∷ "tlds" ∷ "tsigkey" ∷ "tsigkeys"
          ∷ "zone_export" ∷ "zone_exports" ∷ "zone_import" ∷ "zone_imports" ∷ [],
    )
    ∷ ("image", "image_member" ∷ "image_members" ∷ "member" ∷ "members" ∷ [])
    ∷ ("load-balancer", "healthmonitor" ∷ "health_monitor" ∷ "listener" ∷ "member" ∷ "pool" ∷ [])
    ∷ ("orchestration", "resource" ∷ "resources" ∷ [])
    ∷ []

abbrev pub project_scoped_exceptions : Dict (List String)
project_scoped_exceptions =
    ("application-container", "container" ∷ "capsule" ∷ [])
    ∷ ("block-storage", "group" ∷ "group_snapshot" ∷ "volume_transfer" ∷ [])
    ∷ ("container-infrastructure-management", "cluster" ∷ [])
    ∷ ("compute", [])
    ∷ ("database", "backup" ∷ "cluster" ∷ "configuration" ∷ "instance" ∷ "module" ∷ [])
    ∷ ("key-manager", "container" ∷ "order" ∷ "secret" ∷ [])
    ∷ ("orchestration", "stack" ∷ [])
    ∷ ("shared-file-system", "share" ∷ "share_group" ∷ "share_snapshot" ∷ "user_message" ∷ [])
    ∷ ("workflow", "execution" ∷ "workflow" ∷ [])
    ∷ []
