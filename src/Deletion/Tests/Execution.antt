-- ===== src/Deletion/Tests/Execution.antt =====
-- Executions of small plans, and each theorem on executions applied to one.
use yggdrasil_home.Base.{
  ℕ, ◌+◌, ◌≤◌, ◌≡◌, refl, true, false, some, none, [], ◌∷◌, String, arith, ◌==◌, if◌then◌else◌,
}
use yggdrasil_home.Base.Int.{pos}
use yggdrasil_home.Base.Json.{object, array, Fields, end, field, cons, nil}
use yggdrasil_home.Samples.Reports.{item}
use yggdrasil_home.Deletion.World.{
  World, History, Event, command, senlin, connect, read_clock, sleep, say, warn, completed, raised,
  contents, done,
}
use yggdrasil_home.Deletion.World.Ends.{Clock}
use yggdrasil_home.Deletion.Commands.{Resource}
use yggdrasil_home.Deletion.Plan.{Operation}
use yggdrasil_home.Deletion.Senlin.{delete_senlin_resource}
use yggdrasil_home.Deletion.Senlin.Gone.{NotFound, delete_senlin_resource-NotFound}
use yggdrasil_home.Deletion.Execute.{execute_plan, wait_for_stack_delete}
use yggdrasil_home.Deletion.Execute.Gone.{StackGone, wait_for_stack_delete-StackGone}
use yggdrasil_home.Deletion.Execute.Confirmed.{Executed, execute_plan-Executed}
use yggdrasil_home.Deletion.Main.{Args, main}
use yggdrasil_home.Deletion.Main.Ends.{main_ends}
use yggdrasil_home.Deletion.Tests.{planner}
use yggdrasil_home.Deletion.Main.Verified.{Success, main_verified}

-- A clock that only sleeps move.
abbrev slept_so_far : History → ℕ
slept_so_far [] = 0
slept_so_far (sleep t ∷ h) = slept_so_far h + t
slept_so_far (command argv ∷ h) = slept_so_far h
slept_so_far (senlin c ∷ h) = slept_so_far h
slept_so_far (connect ∷ h) = slept_so_far h
slept_so_far (read_clock ∷ h) = slept_so_far h
slept_so_far (say line ∷ h) = slept_so_far h
slept_so_far (warn line ∷ h) = slept_so_far h

abbrev image_report : Fields
image_report =
    field "resources"
      (object (field "image" (object (field "image" (array (cons (item "i1") nil)) end)) end)) end

abbrev empty_report : Fields
empty_report = field "resources" (object end) end

abbrev only_one : History → String
only_one (e ∷ []) = "before"
only_one h = "after"

-- The first inventory has an image, later ones nothing; every other call answers well.
abbrev calm : World
calm = record {
  reply = λ h. completed (record { returncode = pos 0; stdout = only_one h; stderr = "" });
  sdk = λ h. raised "NotFoundException";
  now = slept_so_far;
  read = λ path. contents path;
  json_loads = λ s. some (object (if s == "before" then image_report else empty_report));
}

calm-Clock : Clock calm
calm-Clock = record { forward = forward; slept = λ t h. omega arith }
  where
    forward : (e : Event) (h : History) → slept_so_far h ≤ slept_so_far (e ∷ h)
    forward (sleep t) h = omega arith
    forward (command argv) h = omega arith
    forward (senlin c) h = omega arith
    forward connect h = omega arith
    forward read_clock h = omega arith
    forward (say line) h = omega arith
    forward (warn line) h = omega arith

abbrev verified_args : Args
verified_args = record {
  report = "";
  project = "demo";
  executable = "python3";
  inventory_script = "list-project-resources.py";
  openstack_bin = "openstack";
  interface = "";
  region = "";
  allow_inventory_errors = false;
  allow_service_api_errors = false;
  yes_flag = true;
  verify = true;
  wait_seconds = 1000;
  poll_seconds = 500;
}

main_ends_example : (code : ℕ) × ((main calm verified_args 1001 []).0 ≡ done code)
main_ends_example = main_ends calm verified_args calm-Clock 1001 (omega arith) (omega arith) []

main_zero : (main calm verified_args 10 []).0 ≡ done 0
unfolding main planner
main_zero = refl

main_verified_example : Success calm verified_args 10 []
main_verified_example = main_verified calm verified_args 10 [] refl refl main_zero

abbrev resource : String → String → String → Resource
resource service kind id = record { service = service; resource = kind; identifier = id; raw = end }

abbrev image_operation : Operation
image_operation = record {
  phase = 100;
  resource = resource "image" "image" "i1";
  argv = "image" ∷ "delete" ∷ "i1" ∷ [];
}

abbrev cluster_operation : Operation
cluster_operation = record {
  phase = 10;
  resource = resource "clustering" "cluster" "c1";
  argv = "cluster" ∷ "delete" ∷ "c1" ∷ [];
}

executed_well : (execute_plan calm "openstack" 10 1000 500 (image_operation ∷ []) []).0 ≡ done []
unfolding execute_plan
executed_well = refl

execute_plan-Executed_example :
    Executed calm "openstack" 10 1000 500 false
      (image_operation ∷ [])
      []
      (execute_plan calm "openstack" 10 1000 500 (image_operation ∷ []) []).1
execute_plan-Executed_example =
    execute_plan-Executed calm "openstack" 10 1000 500 (image_operation ∷ []) [] executed_well

cluster_gone :
    (delete_senlin_resource calm 10 1000 500 (resource "clustering" "cluster" "c1") []).0 ≡ done []
unfolding delete_senlin_resource
cluster_gone = refl

delete_senlin_resource-NotFound_example :
    NotFound calm
      (resource "clustering" "cluster" "c1")
      (delete_senlin_resource calm 10 1000 500 (resource "clustering" "cluster" "c1") []).1
delete_senlin_resource-NotFound_example =
    delete_senlin_resource-NotFound calm (resource "clustering" "cluster" "c1") 10 1000 500 []
      cluster_gone

-- The client no longer knows the stack.
abbrev forgetful : World
forgetful = record {
  reply =
      λ h. completed (record { returncode = pos 1; stdout = ""; stderr = "Stack not found: s1" });
  sdk = λ h. raised "NotFoundException";
  now = slept_so_far;
  read = λ path. contents path;
  json_loads = λ s. none;
}

stack_gone : (wait_for_stack_delete forgetful "openstack" 10 "s1" 1000 500 []).0 ≡ done none
unfolding wait_for_stack_delete
stack_gone = refl

wait_for_stack_delete-StackGone_example :
    StackGone forgetful "openstack" "s1"
      (wait_for_stack_delete forgetful "openstack" 10 "s1" 1000 500 []).1
wait_for_stack_delete-StackGone_example =
    wait_for_stack_delete-StackGone forgetful "openstack" 10 "s1" 1000 500 [] stack_gone
