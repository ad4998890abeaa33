-- ===== src/Mongo/Guest.antt =====
-- What the guest agent meets outside: the container engine, mongosh, the clock, the files of the
-- guest and the service's status. Everything may answer by what happened before.
use Prim.Native.String.{String}
use yggdrasil_home.Base.{ℕ, Bool, Option, List, ◌∷◌}
use yggdrasil_home.Base.Json.{Json}
use yggdrasil_home.Base.Run.{Run, returned, or_raise}

pub record Volume : Type 0 where
  pub path : String
  pub bind : String
  pub mode : String

-- The arguments of `start_container`, less the name and the health check, which are constants.
pub record Start : Type 0 where
  pub image : String
  pub network_mode : String
  pub ports : Option ℕ
  pub volumes : List Volume
  pub command : List String

pub data Event : Type 0 where
  read_clock : Event
  sleep : ℕ → Event
  mongosh : (host script : String) → Event
  ensure_directory : String → Event
  write_file : (path text : String) → Event
  restrict_file : String → Event
  remove_file : String → Event
  start_container : Start → Event
  restart_container : Event
  stop_container : Event
  remove_container : Event
  wait_for_healthy : Bool → Event
  read_status : Event
  set_ready : Event
  set_status : String → Event

abbrev pub History : Type 0
History = List Event

-- `now` is in milliseconds. `fails` is what the latest event raises; `says` what mongosh prints.
-- An exception is its text.
pub record World : Type 0 where
  pub now : History → ℕ
  pub fails : History → Option String
  pub says : History → String
  pub becomes_healthy : History → Bool
  pub status : History → String
  pub healthy_status : String
  pub dumps : Json → String
  pub loads : String → Option Json
  pub image_file : Option String
  pub datastore_version : String
  pub port : ℕ
  pub add_members_timeout : ℕ
  pub network_isolation : Bool
  pub has_eth1_config : Bool
  pub mount_point : String
  pub host_nic_mode : String
  pub bridge_mode : String

abbrev pub Action : Type 0 → Type 0
Action A = Run Event String A

module _ (w : World) where
  -- An operation that returns nothing, or raises.
  abbrev pub do_event : Event → Action (Unit {0})
  do_event event h = or_raise (w.fails (event ∷ h)) tt (event ∷ h)

  abbrev pub clock : Action ℕ
  clock h = (returned (w.now (read_clock ∷ h)), read_clock ∷ h)

  -- `time.sleep`
  abbrev pub pause : ℕ → Action (Unit {0})
  pause time h = (returned tt, sleep time ∷ h)

  abbrev pub say : Action String
  say h = (returned (w.says h), h)
