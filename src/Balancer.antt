-- ===== src/Balancer.antt =====
-- The load-balancing policy of capsule clusters, CapsuleLoadBalancerDriver and
-- CapsuleLoadBalancingPolicy of capsule_loadbalance.py beside the capsule profile. `member_errors` is
-- passed on; the services, the profile and the base classes of Senlin are a World.
pub mod Address
pub mod Added
mod Tests
use Prim.Native.String.{String}
use yggdrasil_home.Base.{
  ℕ, Bool, true, false, not, ◌&&◌, Option, none, some, List, [], ◌∷◌, ◌++◌, map, ◌==◌, ◌<>◌,
  if◌then◌else◌, is_blank, is_empty, decimal, join,
}
use yggdrasil_home.Base.Distinct.{distinct}
use yggdrasil_home.Base.Dict
use yggdrasil_home.Base.Dict.{Dict}
use yggdrasil_home.Base.Fields.{get_field}
use yggdrasil_home.Base.Json.{
  Json, null, flag, number, string, array, object, Items, nil, cons, Fields, end, field, get_json,
  str, truthy, or_else,
}
use yggdrasil_home.Base.Run.{Run, Outcome, returned, raised, pure, raise, rescue, ◌>>=◌, ◌>>◌}

abbrev pub or_found : Option Json → Option Json → Option Json
or_found none rest = rest
or_found (some address) rest = some address

-- Whether an address is on the subnet, by its identifier and the version as texts, and is given.
unfoldable pub matches_subnet : String → String → Fields → Bool
unfolding get_json str truthy
matches_subnet subnet_id ip_version address =
    (str (get_json address "subnet_id") == subnet_id)
    && (str (get_json address "version") == ip_version)
    && truthy (get_json address "addr")

-- The inner loop of `_address_for_subnet`.
unfoldable pub address_among : String → String → Items → Option Json
unfolding matches_subnet get_json
address_among subnet_id ip_version nil = none
address_among subnet_id ip_version (cons (object address) rest) =
    let found = address_among subnet_id ip_version rest in
    if matches_subnet subnet_id ip_version address then some (get_json address "addr") else found
address_among subnet_id ip_version (cons other rest) = address_among subnet_id ip_version rest

unfoldable pub address_in : String → String → Fields → Option Json
unfolding address_among
address_in subnet_id ip_version end = none
address_in subnet_id ip_version (field key (array addresses) rest) =
    or_found (address_among subnet_id ip_version addresses) (address_in subnet_id ip_version rest)
address_in subnet_id ip_version (field key other rest) = address_in subnet_id ip_version rest

-- `_address_for_subnet`
unfoldable pub address_for_subnet : Json → String → String → Option Json
unfolding address_in
address_for_subnet (object addresses) subnet_id ip_version =
    address_in subnet_id ip_version addresses
address_for_subnet other subnet_id ip_version = none

pub record Subnet : Type 0 where
  pub id : String
  pub ip_version : ℕ

pub record ClusterNode : Type 0 where
  pub id : String
  pub name : String
  pub profile_id : String

-- The arguments of `pool_member_create`.
pub record Member : Type 0 where
  pub name : Json
  pub pool_id : String
  pub address : Json
  pub port : ℕ
  pub subnet_id : String

pub data Event : Type 0 where
  subnet_get : String → Event
  load_profile : String → Event
  get_details : String → Event
  wait_for_lb_ready : String → Event
  pool_member_create : Member → Event
  base_member_remove : (lb_id pool_id member_id : String) → Event

abbrev pub History : Type 0
History = List Event

-- `fails` is what the latest call raises; the other fields are what it returns otherwise.
pub record World : Type 0 where
  pub fails : History → Option String
  pub subnet : History → Subnet
  pub details : History → Fields
  pub is_lb_ready : History → Bool
  pub member_id : History → String
  pub is_removed : History → Bool

abbrev pub Action : Type 0 → Type 0
Action A = Run Event String A

abbrev pub failed_or : {A : Type 0} → Option String → A → Action A
failed_or none a = pure a
failed_or (some message) a = raise message

-- What `member_add` comes to before it is recorded.
pub data Verdict : Type 0 where
  refused : (reason : String) → Verdict
  added : (member_id : String) → Verdict

module _ (w : World) where
  abbrev pub call : {A : Type 0} → Event → (History → A) → Action A
  call event answer h = failed_or (w.fails (event ∷ h)) (answer (event ∷ h)) (event ∷ h)

  abbrev pub error_message : Json → Action String
  error_message (object fs) = pure (str (or_else (get_json fs "message") (string "unknown error")))
  error_message other = raise "object has no attribute 'get'"

  abbrev pub unreadable : ClusterNode → String → Verdict
  unreadable node message =
      refused ("Failed to read Capsule " <> (node.id <> (" network addresses: " <> message)))

  abbrev no_address : ClusterNode → Subnet → Verdict
  no_address node subnet = refused (
      "Capsule "
      <> (node.id
          <> (" has no address on pool subnet "
              <> (subnet.id <> (" (IPv" <> (decimal subnet.ip_version <> ")."))))))

  abbrev not_ready : ClusterNode → String → Verdict
  not_ready node lb_id =
      refused ("Load balancer " <> (lb_id <> (" is not ready for Capsule " <> (node.id <> "."))))

  abbrev not_ready_after : ClusterNode → String → Verdict
  not_ready_after node lb_id = refused (
      "Load balancer "
      <> (lb_id <> (" did not become ready after adding Capsule " <> (node.id <> "."))))

  abbrev pub ready : String → Action Bool
  ready lb_id = call (wait_for_lb_ready lb_id) w.is_lb_ready

  abbrev pub confirmed : ClusterNode → String → String → Bool → Verdict
  confirmed node lb_id member_id true = added member_id
  confirmed node lb_id member_id false = not_ready_after node lb_id

  abbrev pub created : ClusterNode → String → Member → Bool → Action Verdict
  created node lb_id member false = pure (not_ready node lb_id)
  created node lb_id member true = call (pool_member_create member) w.member_id >>= λ member_id.
      ready lb_id >>= λ b. pure (confirmed node lb_id member_id b)

  abbrev pub member_of : ClusterNode → (pool_id : String) → ℕ → Subnet → Fields → Json → Member
  member_of node pool_id port subnet details address = record {
    name = or_else (get_json details "name") (string node.name);
    pool_id = pool_id;
    address = address;
    port = port;
    subnet_id = subnet.id;
  }

  abbrev pub with_address :
      ClusterNode → (lb_id pool_id : String) → ℕ → Subnet → Fields → Option Json → Action Verdict
  with_address node lb_id pool_id port subnet details none = pure (no_address node subnet)
  with_address node lb_id pool_id port subnet details (some address) =
      ready lb_id >>= created node lb_id (member_of node pool_id port subnet details address)

  -- The address of a capsule on the subnet of a pool.
  abbrev pub address_of : Subnet → Fields → Option Json
  address_of subnet details =
      address_for_subnet (or_else (get_json details "addresses") (object end)) subnet.id
        (decimal subnet.ip_version)

  abbrev pub with_details :
      ClusterNode → (lb_id pool_id : String) → ℕ → Subnet → Fields → Action Verdict
  with_details node lb_id pool_id port subnet details =
      if truthy (get_json details "Error")
      then (error_message (get_json details "Error") >>= λ message. pure (unreadable node message))
      else with_address node lb_id pool_id port subnet details (address_of subnet details)

  -- The body of `member_add`.
  abbrev pub try_member_add : ClusterNode → (lb_id pool_id : String) → ℕ → String → Action Verdict
  try_member_add node lb_id pool_id port subnet_name =
      call (subnet_get subnet_name) w.subnet >>= λ subnet.
      (call (load_profile node.profile_id) (λ h. tt)
        >> (call (get_details node.id) w.details >>= with_details node lb_id pool_id port subnet))

  abbrev pub add_failed : ClusterNode → String → String → Verdict
  add_failed node pool_id error = refused (
      "Failed to add Capsule "
      <> (node.id <> (" to Octavia pool " <> (pool_id <> (": " <> error)))))

  -- `self.member_errors[node.id] = reason`, with what is returned.
  abbrev pub recorded : String → Dict String → Verdict → Option String × Dict String
  recorded id errors (refused reason) = (none, Dict.put errors id reason)
  recorded id errors (added member_id) = (some member_id, errors)

  unfoldable pub member_add :
      ClusterNode
      → (lb_id pool_id : String) → ℕ
      → String
      → Dict String
      → Action (Option String × Dict String)
  unfolding address_for_subnet get_json str truthy or_else decimal Dict.put
  member_add node lb_id pool_id port subnet errors =
      rescue (try_member_add node lb_id pool_id port subnet)
        (λ error. pure (add_failed node pool_id error))
      >>= λ verdict. pure (recorded node.id errors verdict)

  abbrev removal : String → String → String → Dict String → String → Bool × Dict String
  removal lb_id pool_id member_id errors ending = (
    false,
    Dict.put errors member_id (
        "Failed to remove Octavia member "
        <> (member_id
            <> (" from pool " <> (pool_id <> (" on load balancer " <> (lb_id <> ending)))))),
  )

  -- `member_remove`, of which the base class returns whether it has removed the member.
  unfoldable pub member_remove :
      (lb_id pool_id member_id : String) → Dict String → Action (Bool × Dict String)
  unfolding Dict.put
  member_remove lb_id pool_id member_id errors =
      rescue
        (call (base_member_remove lb_id pool_id member_id) w.is_removed >>= λ b.
          pure (if b then (true, errors) else removal lb_id pool_id member_id errors "."))
        (λ error. pure (removal lb_id pool_id member_id errors (": " <> error)))

-- `"; ".join(dict.fromkeys(driver.member_errors.values()))`
unfoldable pub errors_text : Dict String → String
unfolding distinct join
errors_text errors = join "; " (distinct ◌==◌ [] (map (λ (member, reason). reason) errors))

-- `_set_failure_reason`: the status and the reason of an action, after the base class.
unfoldable pub failure_reason : (is_check_error : Bool) → Dict String → String → String
unfolding errors_text
failure_reason is_check_error errors reason =
    if is_check_error && not (is_empty errors) then errors_text errors else reason

-- `attach` and `detach`: the base class runs with no errors recorded.
unfoldable pub attach : (Dict String → (Bool × String) × Dict String) → Bool × String
unfolding errors_text
attach base =
    let ((b, reason), errors) = base [] in
    if not b && not (is_empty errors) then (false, errors_text errors) else (b, reason)
