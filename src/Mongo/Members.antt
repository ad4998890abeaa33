-- ===== src/Mongo/Members.antt =====
-- The members of a replica set: `_run_mongosh`, `_mongosh_host`, `_replica_hello`, `_wait_for_primary`,
-- `initialize_replica_set`, `add_replica_members` and `remove_replica_members`. A time is in milliseconds;
-- the fuel of a loop counts its rounds.
pub mod Primary
pub mod Ends
pub mod Removal
use Prim.Native.String.{String}
use yggdrasil_home.Base.{
  ℕ, zero, suc, ◌+◌, Bool, true, false, not, ◌&&◌, ◌||◌, Option, none, some, List, [], ◌∷◌, ◌++◌,
  map, ◌==◌, ◌<>◌, if◌then◌else◌, is_blank, strip, ltb, any, contains_text, decimal, eqb,
  drop_prefix,
}
use yggdrasil_home.Base.Json.{
  Json, null, flag, number, string, array, object, Fields, end, field, Items, nil, cons, Number,
  get_json, truthy, or_else, str,
}
use yggdrasil_home.Base.Run.{Outcome, pure, raise, out_of_fuel, rescue, ◌>>=◌, ◌>>◌}
use yggdrasil_home.Inventory.Catalog.{has_suffix}
use yggdrasil_home.Mongo.Guest.{Action, World, do_event, clock, pause, say, mongosh}
use yggdrasil_home.Mongo.Service.{Cluster, cluster_or_empty, instance_type, or_blank}

-- `_run_mongosh`
unfoldable pub run_mongosh : World → (script host : String) → Action String
unfolding strip
run_mongosh w script host =
    do_event w (mongosh host script) >> (say w >>= λ output. pure (strip output))

abbrev pub local : String
local = "127.0.0.1"

-- The text before the first `]`, if there is one.
unfoldable pub up_to_bracket : String → Option String
up_to_bracket String.[] = none
up_to_bracket (String.◌∷◌ c s) =
    let rest = up_to_bracket s in
    if String.◌∷◌ c "" == "]"
    then some ""
    else elim rest [ none ↦ none | some before ↦ some (String.◌∷◌ c before) ]

unfoldable pub count_colons : String → ℕ
count_colons String.[] = 0
count_colons (String.◌∷◌ c s) =
    if String.◌∷◌ c "" == ":" then suc (count_colons s) else count_colons s

unfoldable pub before_colon : String → String
before_colon String.[] = ""
before_colon (String.◌∷◌ c s) = if String.◌∷◌ c "" == ":" then "" else String.◌∷◌ c (before_colon s)

abbrev in_brackets : Option String → Option String
in_brackets none = none
in_brackets (some rest) = up_to_bracket rest

abbrev without_port : String → Option String → String
without_port host (some inside) = inside
without_port host none = if eqb (count_colons host) 1 then before_colon host else host

-- `_mongosh_host`, of a text
unfoldable pub mongosh_host : String → String
unfolding up_to_bracket count_colons before_colon drop_prefix
mongosh_host host = without_port host (in_brackets (drop_prefix "[" host))

-- The exceptions of the interpreter on JSON of another shape than the server's.
abbrev no_attribute : String
no_attribute = "object has no attribute 'get'"

abbrev pub hello_of : String → Option Json → Action Fields
hello_of output none = raise ("MongoDB did not return replica-set hello data: " <> output)
hello_of output (some (object fs)) = pure fs
hello_of output (some other) = raise no_attribute

-- `_replica_hello`, whose result is asked for its keys
unfoldable pub replica_hello : World → Action Fields
unfolding run_mongosh
replica_hello w =
    run_mongosh w "JSON.stringify(db.hello())" local >>= λ output. hello_of output (w.loads output)

abbrev pub state_script : String
state_script = "JSON.stringify(rs.status().myState)"

-- `result.rstrip().endswith("1")`
abbrev pub shows_primary : String → Bool
shows_primary output = has_suffix "1" output

-- One look at the state of the set, of which every exception means that it is not primary yet.
abbrev pub looks_primary : World → Action Bool
looks_primary w =
    rescue (run_mongosh w state_script local >>= λ output. pure (shows_primary output))
      (λ _. pure false)

abbrev pub primary_round : World → Action (Unit {0}) → Bool → Action (Unit {0})
primary_round w rest true = pure tt
primary_round w rest false = pause w 2000 >> rest

unfoldable pub primary_loop : World → ℕ → ℕ → Action (Unit {0})
unfolding run_mongosh has_suffix
primary_loop w zero deadline = out_of_fuel
primary_loop w (suc fuel) deadline = clock w >>= λ now.
    if ltb now deadline
    then (looks_primary w >>= primary_round w (primary_loop w fuel deadline))
    else raise "MongoDB replica set did not elect a primary in time"

-- `_wait_for_primary`
unfoldable pub wait_for_primary : World → ℕ → Action (Unit {0})
unfolding primary_loop
wait_for_primary w fuel = clock w >>= λ now. primary_loop w fuel (now + w.add_members_timeout)

abbrev member_document : ℕ → String → Json
member_document index host = object (
    field "_id" (number (record { text = decimal index; is_zero = eqb index 0 }))
      (field "host" (string host) end))

-- `_member_documents`, from an index on
unfoldable pub member_documents : ℕ → List String → Items
unfolding decimal
member_documents index [] = nil
member_documents index (member ∷ members) =
    cons (member_document index member) (member_documents (suc index) members)

abbrev configsvr_field : Option Cluster → Fields
configsvr_field c =
    if instance_type c == "config_server" then field "configsvr" (flag true) end else end

unfoldable pub initiate_config : Option Cluster → List String → Json
unfolding member_documents
initiate_config c members = object (
    field "_id" (string (or_blank (cluster_or_empty c).replica_set_name))
      (field "members" (array (member_documents 0 members)) (configsvr_field c)))

abbrev pub initiate_script : World → Option Cluster → List String → String
initiate_script w c members =
    "const config = "
    <> (w.dumps (initiate_config c members)
        <> "; try { rs.status(); print(JSON.stringify({already: true})); } catch (e) { print(JSON.stringify(rs.initiate(config))); }")

abbrev pub transient_markers : List String
transient_markers =
    "quorum check failed" ∷ "No route to host" ∷ "Connection refused" ∷ "Connection timed out"
    ∷ "No host described in new configuration" ∷ []

unfoldable pub is_transient : String → Bool
unfolding contains_text any
is_transient message = any (λ marker. contains_text marker message) transient_markers

-- What a failed initialize_once leads to.
abbrev pub retry : World → Action Bool → String → Action Bool
retry w rest message = if is_transient message then (pause w 2000 >> rest) else raise message

abbrev pub shown_error : Option String → String
shown_error none = "None"
shown_error (some message) = message

abbrev pub initialize_once : World → ℕ → String → Action Bool
initialize_once w rounds script =
    run_mongosh w script local >> (wait_for_primary w rounds >> pure true)

-- `rounds` is the fuel of each wait for the primary.
unfoldable pub initialize_loop :
    World → (rounds fuel deadline : ℕ) → String → Option String → Action Bool
unfolding wait_for_primary is_transient run_mongosh
initialize_loop w rounds zero deadline script last_error = out_of_fuel
initialize_loop w rounds (suc fuel) deadline script last_error = clock w >>= λ now.
    if ltb now deadline
    then rescue (initialize_once w rounds script)
        (λ message. retry w (initialize_loop w rounds fuel deadline script (some message)) message)
    else raise ("MongoDB replica set did not become reachable in time: " <> shown_error last_error)

-- `initialize_replica_set`
unfoldable pub initialize_replica_set : World → ℕ → Option Cluster → List String → Action Bool
unfolding initialize_loop initiate_config
initialize_replica_set w fuel c members =
    if is_blank (or_blank (cluster_or_empty c).replica_set_name)
    then raise "MongoDB replica-set metadata is not configured"
    else (clock w >>= λ now.
        initialize_loop w fuel fuel (now + w.add_members_timeout) (initiate_script w c members)
          none)

abbrev host_items : List String → Items
host_items [] = nil
host_items (host ∷ hosts) = cons (string host) (host_items hosts)

abbrev pub hosts_text : World → List String → String
hosts_text w hosts = w.dumps (array (host_items hosts))

unfoldable pub add_replica_members : World → List String → Action Bool
unfolding run_mongosh
add_replica_members w members =
    run_mongosh w
      ("const hosts = "
        <> (hosts_text w members
            <> "; for (const host of hosts) { try { rs.add(host); } catch (e) { if (e.codeName !== 'NewReplicaSetConfigurationIncompatible' && e.codeName !== 'AlreadyInitialized') throw e; } } print(JSON.stringify({ok: 1, hosts: hosts}));"))
      local
    >> pure true

-- The elected primary by what a member says of itself.
unfoldable pub primary_of : Fields → Json
unfolding get_json truthy or_else
primary_of hello =
    if truthy (get_json hello "isWritablePrimary")
    then or_else (get_json hello "me") (get_json hello "primary")
    else get_json hello "primary"

-- `str(value or "")`
unfoldable pub text_or_blank : Json → String
unfolding truthy str
text_or_blank value = if truthy value then str value else ""

unfoldable pub host_matches : String → String → Bool
unfolding mongosh_host
host_matches left right = (left == right) || (mongosh_host left == mongosh_host right)

abbrev pub step_down_script : String
step_down_script =
    "try { rs.stepDown(60, 15); } catch (e) {} print(JSON.stringify({ok: 1, stepped_down: true}));"

abbrev pub remove_script : World → List String → String
remove_script w hosts =
    "const hosts = "
    <> (hosts_text w hosts
        <> "; for (const host of hosts) { try { rs.remove(host); } catch (e) { if (e.codeName !== 'MemberNotFound') throw e; } } print(JSON.stringify({ok: 1, removed: true, hosts: hosts}));")

unfoldable pub removal_script : World → String → List String → String
unfolding any host_matches
removal_script w primary hosts =
    if any (host_matches primary) hosts then step_down_script else remove_script w hosts

abbrev pub answer_of : List String → Option Json → Json
answer_of hosts (some answer) = answer
answer_of hosts none = object (
    field "ok" (number (record { text = "1"; is_zero = false }))
      (field "removed" (flag true) (field "hosts" (array (host_items hosts)) end)))

abbrev pub remove_through : World → List String → Json → Action Json
remove_through w hosts primary =
    if truthy primary
    then (run_mongosh w (removal_script w (text_or_blank primary) hosts)
          (mongosh_host (text_or_blank primary))
        >>= λ output. pure (answer_of hosts (w.loads output)))
    else raise "MongoDB replica set has no elected primary"

-- `remove_replica_members`
unfoldable pub remove_replica_members : World → List String → Action Json
unfolding replica_hello removal_script mongosh_host primary_of text_or_blank
remove_replica_members w hosts =
    replica_hello w >>= λ hello. remove_through w hosts (primary_of hello)

abbrev parsed : Option Json → Action Json
parsed none = raise "Expecting value"
parsed (some value) = pure value

-- `replica_set_status`
unfoldable pub replica_set_status : World → Action Json
unfolding run_mongosh
replica_set_status w =
    run_mongosh w
      "JSON.stringify(rs.status(), (key, value) => key === 'lastHeartbeat' || key === 'lastHeartbeatRecv' ? undefined : value)"
      local
    >>= λ output. parsed (w.loads output)
