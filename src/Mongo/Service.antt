-- ===== src/Mongo/Service.antt =====
-- `MongoDbApp`: the roles of a service, its container, and the members of its replica set. The cluster
-- metadata is passed on where the source keeps it in `self.cluster_config`; it is what the task manager
-- makes, and none for None. A condition of the image, the isolation or the port is the World's.
pub mod Roles
use Prim.Native.String.{String}
use yggdrasil_home.Base.{
  ℕ, zero, suc, ◌+◌, Bool, true, false, not, ◌&&◌, ◌||◌, Option, none, some, List, [], ◌∷◌, ◌++◌,
  map, ◌==◌, ◌<>◌, if◌then◌else◌, is_blank, is_empty, or_text, join, decimal, strip, ltb, any,
  contains_text,
}
use yggdrasil_home.Base.Dict.{member}
use yggdrasil_home.Base.Run.{Outcome, pure, raise, out_of_fuel, rescue, ◌>>=◌, ◌>>◌}
use yggdrasil_home.Mongo.Guest.{
  Action, World, Volume, Start, do_event, clock, pause, say, mongosh, ensure_directory, write_file,
  restrict_file, remove_file, start_container, restart_container, stop_container, remove_container,
  wait_for_healthy, read_status, set_ready, set_status,
}

pub record Cluster : Type 0 where
  pub instance_type : Option String
  pub config_servers : List String
  pub config_server_replica_set_name : Option String
  pub replica_set_name : Option String
  pub topology : Option String
  pub key : Option String

abbrev pub no_cluster : Cluster
no_cluster = record {
  instance_type = none;
  config_servers = [];
  config_server_replica_set_name = none;
  replica_set_name = none;
  topology = none;
  key = none;
}

-- `self.cluster_config or {}`
abbrev pub cluster_or_empty : Option Cluster → Cluster
cluster_or_empty none = no_cluster
cluster_or_empty (some c) = c

abbrev text_or : String → Option String → String
text_or default none = default
text_or default (some s) = s

-- A text that is true: neither None nor empty.
abbrev pub or_blank : Option String → String
or_blank s = text_or "" s

-- `_instance_type`, `_config_server_hosts`, `_config_server_replica_set`
abbrev pub instance_type : Option Cluster → String
instance_type c = text_or "member" (cluster_or_empty c).instance_type

abbrev pub config_server_hosts : Option Cluster → List String
config_server_hosts c = (cluster_or_empty c).config_servers

abbrev pub config_server_replica_set : Option Cluster → String
config_server_replica_set c = text_or "configRS" (cluster_or_empty c).config_server_replica_set_name

-- Whether a query router knows its config servers, and so runs mongos.
abbrev pub is_router : Option Cluster → Bool
is_router c = (instance_type c == "query_router") && not (is_empty (config_server_hosts c))

abbrev pub mongos_command : World → Option Cluster → List String
mongos_command w c =
    "mongos"
    ∷ "--configdb"
    ∷ (config_server_replica_set c <> ("/" <> join "," (config_server_hosts c)))
    ∷ "--bind_ip_all"
    ∷ "--port"
    ∷ decimal w.port
    ∷ []

abbrev pub replica_set_arguments : Option Cluster → List String
replica_set_arguments c =
    if not (is_blank (or_blank (cluster_or_empty c).replica_set_name))
      && member ("member" ∷ "config_server" ∷ []) (instance_type c)
    then "--replSet" ∷ or_blank (cluster_or_empty c).replica_set_name ∷ []
    else []

abbrev pub role_arguments : Option Cluster → List String
role_arguments c =
    if instance_type c == "config_server"
    then "--configsvr" ∷ []
    else if (instance_type c == "member") && (or_blank (cluster_or_empty c).topology == "sharded")
    then "--shardsvr" ∷ []
    else []

abbrev pub mongod_command : World → Option Cluster → List String
mongod_command w c =
    ("mongod"
      ∷ "--config"
      ∷ "/etc/mongod.conf"
      ∷ "--dbpath"
      ∷ "/data/db"
      ∷ "--bind_ip_all"
      ∷ "--port"
      ∷ decimal w.port
      ∷ [])
    ++ (replica_set_arguments c ++ role_arguments c)

abbrev pub cluster_key : Option Cluster → String
cluster_key c = or_blank (cluster_or_empty c).key

abbrev pub key_arguments : Option Cluster → List String
key_arguments c = if is_blank (cluster_key c) then [] else "--keyFile" ∷ "/etc/mongodb-keyfile" ∷ []

-- The command that `_container_command` returns.
unfoldable pub command_of : World → Option Cluster → List String
unfolding join decimal member
command_of w c = (if is_router c then mongos_command w c else mongod_command w c) ++ key_arguments c

-- A command that names the key file is returned once the file is written.
abbrev pub with_key : World → String → List String → Action (List String)
with_key w key command =
    if is_blank key
    then pure command
    else (do_event w (write_file "/etc/trove/mongodb-keyfile" key)
        >> (do_event w (restrict_file "/etc/trove/mongodb-keyfile") >> pure command))

unfoldable pub container_command : World → Option Cluster → Action (List String)
unfolding command_of
container_command w c = with_key w (cluster_key c) (command_of w c)

-- `volumes.update`, of a path that is not there yet
unfoldable pub container_volumes : Option Cluster → String → List Volume
container_volumes c data_dir =
    (if is_router c
      then []
      else record { path = data_dir; bind = "/data/db"; mode = "rw" }
        ∷ record { path = "/etc/trove/mongodb.conf"; bind = "/etc/mongod.conf"; mode = "ro" }
        ∷ [])
    ++ (if is_blank (cluster_key c)
        then []
        else record {
          path = "/etc/trove/mongodb-keyfile";
          bind = "/etc/mongodb-keyfile";
          mode = "ro";
        }
          ∷ [])

-- `s.rsplit("/", 1)[-1]`
unfoldable pub after_slash : String → String → String
after_slash last String.[] = last
after_slash last (String.◌∷◌ c s) =
    if String.◌∷◌ c "" == "/" then after_slash s s else after_slash last s

unfoldable pub image_name : Option String → String
unfolding strip
image_name none = "mongo"
image_name (some text) = or_text (strip text) "mongo"

unfoldable pub image_reference : World → String
unfolding image_name after_slash contains_text
image_reference w =
    let image = image_name w.image_file in
    if not (contains_text ":" (after_slash image image)) && not (contains_text "@" image)
    then image <> (":" <> or_text w.datastore_version "8.0")
    else image

abbrev pub data_dir_of : World → String
data_dir_of w = or_text w.mount_point "/var/lib/mongodb"

-- `_network_mode`
unfoldable pub network_mode_of : World → Option Cluster → String
network_mode_of w (some c) = "host"
network_mode_of w none =
    if w.network_isolation && w.has_eth1_config then w.host_nic_mode else w.bridge_mode

abbrev pub start_of : World → Option Cluster → List String → Start
start_of w c command = record {
  image = image_reference w;
  network_mode = network_mode_of w c;
  ports = if network_mode_of w c == "host" then none else some w.port;
  volumes = container_volumes c (data_dir_of w);
  command = command;
}

-- `self.status.wait_for_status(HEALTHY, ...)`
abbrev pub await_healthy : World → Bool → String → Action (Unit {0})
await_healthy w update_db message h =
    let asked = wait_for_healthy update_db ∷ h in
    if w.becomes_healthy asked then pure tt asked else raise message asked

-- The call of `start_container`, whose every exception is one of Trove's.
abbrev pub start_checked : World → Action (List String) → (List String → Start) → Action (Unit {0})
start_checked w command start =
    rescue (command >>= λ arguments. do_event w (start_container (start arguments)))
      (λ _. raise "Failed to start MongoDB container")

unfoldable pub start_db : World → Option Cluster → Bool → Action (Unit {0})
unfolding container_command image_reference network_mode_of container_volumes
start_db w c update_db =
    do_event w (ensure_directory (data_dir_of w))
    >> (start_checked w (container_command w c) (start_of w c)
        >> await_healthy w update_db "MongoDB container did not become healthy")

unfoldable pub restart : World → Action (Unit {0})
restart w =
    rescue (do_event w restart_container) (λ _. raise "Failed to restart MongoDB container")
    >> await_healthy w false "MongoDB container did not become healthy after restart"

unfoldable pub replace_container : World → Option Cluster → Action (Unit {0})
unfolding start_db
replace_container w c =
    rescue (do_event w stop_container) (λ _. pure tt)
    >> (rescue (do_event w remove_container) (λ _. pure tt) >> start_db w c false)
