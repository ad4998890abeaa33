-- ===== src/Mongo/Tests.antt =====
-- The MongoDB guest agent on small inputs, and each theorem applied to one.
use Prim.Native.String.{String}
use yggdrasil_home.Base.{◌≡◌, ◌≢◌, refl, ℕ, ◌≤◌, ◌<◌, true, false, none, some, List, [], ◌∷◌, arith}
use yggdrasil_home.Base.Int.{pos}
use yggdrasil_home.Base.Fields.{get_field}
use yggdrasil_home.Base.Json.{Json, Fields, null, object, string, number, flag, field, end, Number}
use yggdrasil_home.Base.Run.{returned, unfinished}
use yggdrasil_home.Mongo.Options.{has_dot, merge, nest, normalize_into, parts_of, sanitize}
use yggdrasil_home.Mongo.Options.Dotless.{DotlessFields, PlainFields, nest-Dotless}
use yggdrasil_home.Mongo.Options.Paths.{at_path, nest-at_path}
use yggdrasil_home.Mongo.Options.Modern.{IsSanitized, sanitize-IsSanitized}
use yggdrasil_home.Mongo.Options.Merged.{UniqueFields, merge-at_path}
use yggdrasil_home.Mongo.Configuration.{configuration_contents, megabytes, user_options}
use yggdrasil_home.Mongo.Configuration.Cache.{configuration_contents_bounds}
use yggdrasil_home.Mongo.Service.{Cluster, image_reference}
use yggdrasil_home.Mongo.Guest.{Event}
use yggdrasil_home.Mongo.Members.{initialize_replica_set, mongosh_host, remove_replica_members}
use yggdrasil_home.Mongo.Members.Primary.{IsPrimary, initialize_replica_set-IsPrimary}
use yggdrasil_home.Mongo.Members.Ends.{Clock, initialize_replica_set_ends}
use yggdrasil_home.Mongo.Members.Removal.{IsRouted, remove_replica_members-IsRouted}
use yggdrasil_home.Mongo.Shards.{add_config_servers}
use yggdrasil_home.Mongo.Shards.Router.{IsRouting, add_config_servers-IsRouting}
use yggdrasil_home.Mongo.Samples.{guest, router}

abbrev verbosity : Json
verbosity = number (record { text = "2"; is_zero = false })

abbrev dotted : Fields
dotted = field "storage.journal.enabled" (flag true) (field "systemLog.verbosity" verbosity end)

abbrev nested : Fields
nested =
    field "storage" (object (field "journal" (object (field "enabled" (flag true) end)) end))
      (field "systemLog" (object (field "verbosity" verbosity end)) end)

dotted-nested : nest dotted ≡ some nested
unfolding normalize_into
dotted-nested = refl

sanitized : sanitize nested ≡ field "systemLog" (object (field "verbosity" verbosity end)) end
unfolding sanitize
sanitized = refl

image : image_reference guest ≡ "registry:5000/mongo:8.0"
unfolding image_reference
image = refl

hosts : (mongosh_host "[fe80::1]:27017" ≡ "fe80::1") × (mongosh_host "10.0.0.1:27017" ≡ "10.0.0.1")
unfolding mongosh_host
hosts = (refl, refl)

dotted_plain : PlainFields dotted
unfolding PlainFields
dotted_plain = (tt, (tt, tt))

nest-Dotless_example : DotlessFields nested
nest-Dotless_example = nest-Dotless dotted nested dotted-nested dotted_plain

verbosity_dot : has_dot "systemLog.verbosity" ≡ true
unfolding has_dot
verbosity_dot = refl

verbosity_parts : parts_of "systemLog.verbosity" ≡ "systemLog" ∷ "verbosity" ∷ []
unfolding parts_of
verbosity_parts = refl

nest-at_path_example : at_path ("verbosity" ∷ []) "systemLog" nested ≡ some verbosity
nest-at_path_example =
    nest-at_path (field "storage.journal.enabled" (flag true) end) nested "systemLog.verbosity"
      verbosity "systemLog" ("verbosity" ∷ []) dotted-nested verbosity_dot verbosity_parts

sanitize-IsSanitized_example : IsSanitized nested (sanitize nested)
sanitize-IsSanitized_example = sanitize-IsSanitized nested

nested_unique : UniqueFields nested
unfolding UniqueFields
nested_unique = (refl, (refl, (refl, tt, tt), tt), (refl, (refl, tt, tt), tt))

verbosity_there : at_path ("verbosity" ∷ []) "systemLog" nested ≡ some verbosity
unfolding at_path
verbosity_there = refl

merge-at_path_example :
    at_path
      ("verbosity" ∷ [])
      "systemLog"
      (merge nested (field "systemLog" (object (field "quiet" (flag true) end)) end))
    ≡ some verbosity
merge-at_path_example =
    merge-at_path ("verbosity" ∷ []) "systemLog" nested
      (field "systemLog" (object (field "quiet" (flag true) end)) end) verbosity nested_unique refl
      verbosity_there

abbrev shown : ℕ → Number
shown n = record { text = "0.5"; is_zero = false }

abbrev nothing_read : String → Json
nothing_read text = null

abbrev prepared : Fields
prepared =
    field "storage"
      (object (
        field "dbPath" (string "/data/db") (
          field "wiredTiger"
            (object (
              field "engineConfig" (object (field "cacheSizeGB" (number (shown 2048000)) end)) end))
            end)))
      end

nothing_given : user_options nothing_read shown null ≡ some end
unfolding user_options
nothing_given = refl

prepared_run : configuration_contents nothing_read shown null (megabytes (pos 2048)) ≡ some prepared
unfolding configuration_contents
prepared_run = refl

no_storage : get_field end "storage" ≡ none
unfolding get_field
no_storage = refl

configuration_contents_bounds_example :
    (size : ℕ) × (1048576 ≤ size)
    × (size ≤ 8192000)
    × (at_path ("wiredTiger" ∷ "engineConfig" ∷ "cacheSizeGB" ∷ []) "storage" prepared
        ≡ some (number (shown size)))
configuration_contents_bounds_example =
    configuration_contents_bounds nothing_read shown null 2047 end prepared nothing_given no_storage
      prepared_run

-- The events of a run.
abbrev initialized_history : List Event
initialized_history = (initialize_replica_set guest 3001 (some router) ("10.0.0.1:27017" ∷ []) []).1

initialized :
    initialize_replica_set guest 3001 (some router) ("10.0.0.1:27017" ∷ []) []
    ≡ (returned true, initialized_history)
unfolding initialize_replica_set
initialized = refl

clock : Clock guest
clock = record { forward = λ e h. omega arith; slept = λ t h. omega arith }

enough : 3000 < 3001
enough = omega arith

initialize_replica_set_ends_example :
    (initialize_replica_set guest 3001 (some router) ("10.0.0.1:27017" ∷ []) []).0 ≢ unfinished
initialize_replica_set_ends_example =
    initialize_replica_set_ends guest clock 3001 (some router) ("10.0.0.1:27017" ∷ []) [] enough

initialize_replica_set-IsPrimary_example : IsPrimary guest initialized_history
initialize_replica_set-IsPrimary_example =
    initialize_replica_set-IsPrimary guest 3001 (some router) ("10.0.0.1:27017" ∷ []) []
      initialized_history initialized

abbrev removed_history : List Event
removed_history = (remove_replica_members guest ("10.0.0.1" ∷ []) []).1

abbrev removal_answer : Json
removal_answer =
    object (field "isWritablePrimary" (flag true) (field "me" (string "10.0.0.1:27017") end))

removed :
    remove_replica_members guest ("10.0.0.1" ∷ []) [] ≡ (returned removal_answer, removed_history)
unfolding remove_replica_members
removed = refl

remove_replica_members-IsRouted_example : IsRouted guest ("10.0.0.1" ∷ []) [] removed_history
remove_replica_members-IsRouted_example =
    remove_replica_members-IsRouted guest ("10.0.0.1" ∷ []) [] removed_history removal_answer
      removed

abbrev no_text : Cluster → String
no_text c = "{}"

abbrev routed : Cluster
routed = record {
  instance_type = some "query_router";
  config_servers = "10.0.0.2:27017" ∷ [];
  config_server_replica_set_name = none;
  replica_set_name = some "rs1";
  topology = some "sharded";
  key = some "secret";
}

abbrev routed_history : List Event
routed_history = (add_config_servers guest no_text (some router) ("10.0.0.2:27017" ∷ []) []).1

configured :
    add_config_servers guest no_text (some router) ("10.0.0.2:27017" ∷ []) []
    ≡ (returned (some routed), routed_history)
unfolding add_config_servers
configured = refl

add_config_servers-IsRouting_example :
    IsRouting guest (some router) ("10.0.0.2:27017" ∷ []) (some routed) routed_history
add_config_servers-IsRouting_example =
    add_config_servers-IsRouting guest no_text (some router) ("10.0.0.2:27017" ∷ []) (some routed)
      [] routed_history configured
