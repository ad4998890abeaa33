-- ===== src/Mongo/Samples.antt =====
-- A guest whose server is the primary as soon as it is asked, on a clock that only sleeps move.
use Prim.Native.String.{String}
use yggdrasil_home.Base.{ℕ, ◌+◌, true, false, Option, none, some, [], ◌∷◌, ◌==◌, if◌then◌else◌}
use yggdrasil_home.Base.Json.{Json, object, string, flag, field, end}
use yggdrasil_home.Mongo.Guest.{World, History, Event, mongosh, sleep}
use yggdrasil_home.Mongo.Members.{state_script}
use yggdrasil_home.Mongo.Service.{Cluster}

abbrev pub tick : Event → ℕ
tick (sleep t) = t
tick other = 0

abbrev pub time : History → ℕ
time [] = 0
time (e ∷ h) = time h + tick e

abbrev said : History → String
said (mongosh host script ∷ h) = if script == state_script then "1" else "hello"
said other = ""

abbrev loaded : String → Option Json
loaded text =
    if text == "hello"
    then some
        (object (field "isWritablePrimary" (flag true) (field "me" (string "10.0.0.1:27017") end)))
    else none

abbrev pub guest : World
guest = record {
  now = time;
  fails = λ h. none;
  says = said;
  becomes_healthy = λ h. true;
  status = λ h. "healthy";
  healthy_status = "healthy";
  dumps = λ j. "{}";
  loads = loaded;
  image_file = some "registry:5000/mongo";
  datastore_version = "8.0";
  port = 27017;
  add_members_timeout = 3000;
  network_isolation = false;
  has_eth1_config = false;
  mount_point = "";
  host_nic_mode = "docker-hostnic";
  bridge_mode = "bridge";
}

abbrev pub router : Cluster
router = record {
  instance_type = some "query_router";
  config_servers = [];
  config_server_replica_set_name = none;
  replica_set_name = some "rs1";
  topology = some "sharded";
  key = some "secret";
}
