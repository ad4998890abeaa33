-- ===== src/Mongo/Shards.antt =====
-- The cluster metadata and the shards of a router: `configure_cluster`, `add_config_servers`,
-- `add_shard`, `remove_shard`, `is_shard_active` and `cluster_complete`. What changes
-- `self.cluster_config` returns it.
pub mod Router
use Prim.Native.String.{String}
use yggdrasil_home.Base.{
  Bool, true, false, not, Option, none, some, List, [], ◌∷◌, ◌==◌, ◌<>◌, if◌then◌else◌, is_empty,
}
use yggdrasil_home.Base.Json.{Json, string}
use yggdrasil_home.Base.Run.{Outcome, returned, pure, raise, rescue, ◌>>=◌, ◌>>◌}
use yggdrasil_home.Mongo.Guest.{
  Action, World, do_event, write_file, remove_file, read_status, set_ready, set_status, say,
}
use yggdrasil_home.Mongo.Service.{
  Cluster, cluster_or_empty, instance_type, is_router, replace_container,
}
use yggdrasil_home.Mongo.Members.{local, run_mongosh}

abbrev pub cluster_file : String
cluster_file = "/etc/trove/mongodb-cluster.json"

-- `config_text` is what `json.dumps` gives for the metadata.
module _ (w : World) (config_text : Cluster → String) where
  -- `_write_cluster_config`
  abbrev pub write_cluster_config : Cluster → Action (Unit {0})
  write_cluster_config c = do_event w (write_file cluster_file (config_text c))

  unfoldable pub configure_cluster : Option Cluster → Action (Option Cluster)
  configure_cluster none =
      rescue (do_event w (remove_file cluster_file)) (λ _. pure tt) >> pure none
  configure_cluster (some c) = write_cluster_config c >> pure (some c)

  abbrev pub with_config_servers : Cluster → List String → Cluster
  with_config_servers c hosts = record {
    instance_type = c.instance_type;
    config_servers = hosts;
    config_server_replica_set_name = c.config_server_replica_set_name;
    replica_set_name = c.replica_set_name;
    topology = c.topology;
    key = c.key;
  }

  -- The two guards.
  abbrev pub guarded :
      Option Cluster → List String → Action (Option Cluster) → Action (Option Cluster)
  guarded c hosts rest =
      if not (instance_type c == "query_router")
      then raise "Config-server addresses can only be applied to a query router"
      else if is_empty hosts
      then raise "At least one config server is required for mongos"
      else rest

  abbrev pub reconfigured : Cluster → Action (Option Cluster)
  reconfigured c = write_cluster_config c >> (replace_container w (some c) >> pure (some c))

  unfoldable pub add_config_servers : Option Cluster → List String → Action (Option Cluster)
  unfolding replace_container
  add_config_servers c hosts =
      guarded c hosts (reconfigured (with_config_servers (cluster_or_empty c) hosts))

  -- `json.loads(self._run_mongosh(script))`
  abbrev parsed : Option Json → Action Json
  parsed none = raise "Expecting value"
  parsed (some value) = pure value

  abbrev ask_router : Option Cluster → (refusal script : String) → Action Json
  ask_router c refusal script =
      if is_router c
      then (run_mongosh w script local >>= λ output. parsed (w.loads output))
      else raise refusal

  unfoldable pub add_shard :
      Option Cluster → (replica_set_name replica_set_member : String) → Action Json
  unfolding run_mongosh
  add_shard c replica_set_name replica_set_member =
      ask_router c "MongoDB shard registration requires a configured mongos" (
        "const connection = "
        <> (w.dumps (string (replica_set_name <> ("/" <> replica_set_member)))
            <> ("; const name = "
                <> (w.dumps (string replica_set_name)
                    <> "; const existing = db.adminCommand({listShards: 1}); const found = (existing.shards || []).some((shard) => shard._id === name); print(JSON.stringify(found ? {ok: 1, already: true} : db.adminCommand({addShard: connection})));"))))

  unfoldable pub remove_shard : Option Cluster → String → Action Json
  unfolding run_mongosh
  remove_shard c replica_set_name =
      ask_router c "MongoDB shard removal requires a configured mongos" (
        "const name = "
        <> (w.dumps (string replica_set_name)
            <> "; const result = db.adminCommand({listShards: 1}); const found = (result.shards || []).some((shard) => shard._id === name); print(JSON.stringify(found ? db.adminCommand({removeShard: name}) : {ok: 1, state: 'completed', already: true}));"))

  unfoldable pub is_shard_active : Option Cluster → String → Action Json
  unfolding run_mongosh
  is_shard_active c replica_set_name =
      ask_router c "MongoDB shard status requires a configured mongos" (
        "const result = db.adminCommand({listShards: 1}); print(JSON.stringify((result.shards || []).some((shard) => shard._id === "
        <> (w.dumps (string replica_set_name) <> ")));"))

  abbrev actual_status : Action String
  actual_status h = (returned (w.status h), h)

  abbrev complete_with : String → Action Bool
  complete_with status =
      if status == w.healthy_status
      then (do_event w set_ready >> (do_event w (set_status status) >> pure true))
      else raise ("MongoDB container is not healthy after cluster setup: " <> status)

  unfoldable pub cluster_complete : Action Bool
  cluster_complete = do_event w read_status >> (actual_status >>= complete_with)
