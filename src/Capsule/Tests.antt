-- ===== src/Capsule/Tests.antt =====
-- Runs of the capsule profile, and each theorem applied to one.
use yggdrasil_home.Base.{
  some, ◌≡◌, ◌≢◌, ◌≤◌, ◌+◌, arith, refl, true, false, none, [], ◌∷◌, ◌<>◌, ℕ, rstrip_by, lower,
  map_text, strip_by,
}
use yggdrasil_home.Base.Json.{Fields, object, string, array, field, end, cons, nil}
use yggdrasil_home.Capsule.Session.{
  World, Event, read_clock, sleep, log, unfinished, History, request, responded, get_url,
  endpoint_at, error, returned, capsule_url, connect,
}
use yggdrasil_home.Capsule.Validation.{do_validate, accepted}
use yggdrasil_home.Capsule.Profile.{Node, do_delete, capsule_name}
use yggdrasil_home.Capsule.Profile.Ends.{Clock, do_delete_ends}
use yggdrasil_home.Capsule.Validation.Accepted.{IsCapsule, do_validate-IsCapsule}
use yggdrasil_home.Capsule.Profile.Absent.{Absent, do_delete-Absent}

name_of_node : capsule_name "Node_A.1-" ≡ "node-a-1"
unfolding capsule_name lower map_text strip_by
name_of_node = refl

-- A clock that only sleeps move.
abbrev slept_so_far : History → ℕ
slept_so_far [] = 0
slept_so_far (sleep t ∷ h) = slept_so_far h + t
slept_so_far (request r ∷ h) = slept_so_far h
slept_so_far (read_clock ∷ h) = slept_so_far h
slept_so_far (log line ∷ h) = slept_so_far h

-- A capsule that can be deleted once; it is gone at the first look.
abbrev replies : History → ℕ
replies (request (get_url url) ∷ h) = 404
replies h = 204

abbrev zun : World
zun = record {
  send = λ h. responded (record { status_code = replies h; has_content = false; payload = none });
  now = slept_so_far;
  raise_for_status = λ r. none;
  invalid_json = λ r. error "JSONDecodeError" "";
  attribute_error = λ v. error "AttributeError" "";
  unhashable = λ v. error "TypeError" "";
  urljoin = λ base path. base <> path;
  endpoint = endpoint_at "http://zun/v1/";
}

abbrev node : Node
node = record { id = "n1"; name = some "node-1"; cluster_id = "c1"; physical_id = "p1" }

connected : connect zun [] ≡ (returned "http://zun/v1/", [])
unfolding connect rstrip_by
connected = refl

deleted : (do_delete zun 5 node []).0 ≡ returned true
unfolding do_delete rstrip_by
deleted = refl

do_delete-Absent_example :
    Absent zun (capsule_url zun "http://zun/v1/" "p1") (do_delete zun 5 node []).1
do_delete-Absent_example =
    do_delete-Absent zun 5 node "http://zun/v1/" [] true refl connected deleted

zun-Clock : Clock zun
zun-Clock = record { forward = forward; slept = λ t h. omega arith }
  where
    forward : (e : Event) (h : History) → slept_so_far h ≤ slept_so_far (e ∷ h)
    forward (sleep t) h = omega arith
    forward (request r) h = omega arith
    forward read_clock h = omega arith
    forward (log line) h = omega arith

do_delete_ends_example : (do_delete zun 300001 node []).0 ≢ unfinished
do_delete_ends_example =
    do_delete_ends zun zun-Clock 300001 node "http://zun/v1/" [] (omega arith) connected

abbrev template : Fields
template = field "kind" (string "capsule") (
    field "spec"
      (object
        (field "containers" (array (cons (object (field "image" (string "nginx") end)) nil)) end))
      end)

valid : do_validate (object template) ≡ accepted
unfolding do_validate
valid = refl

do_validate-IsCapsule_example : IsCapsule template
do_validate-IsCapsule_example = do_validate-IsCapsule template valid
