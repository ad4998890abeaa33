-- ===== src/Deletion/Main.antt =====
-- `main` of scripts/openstack/delete-project-resources.py: the inventory, the refusals, the dry run,
-- the execution and the verification.
pub mod Safety
pub mod Ends
pub mod Verified
use Prim.Native.String.{String}
use yggdrasil_home.Base.{
  ℕ, Bool, true, false, not, ◌&&◌, ◌||◌, Option, none, some, List, [], ◌∷◌, ◌++◌, map, ◌==◌, ◌<>◌,
  if◌then◌else◌, is_blank, is_empty, or_text, keep, any, join, strip,
}
use yggdrasil_home.Base.Dict
use yggdrasil_home.Base.Int.{is_zero}
use yggdrasil_home.Base.Json.{
  Json, null, string, array, object, Fields, get_json, to_dict, to_list, truthy, or_else, str,
}
use yggdrasil_home.Deletion.World.{
  World, Run, pure, raise, ◌>>=◌, ◌>>◌, Completed, Contents, contents, unreadable, Failure,
  plan_error, os_error, Outcome, done, failed, unfinished, run, record_event, say, warn, History,
}
use yggdrasil_home.Deletion.Commands.{Resource}
use yggdrasil_home.Deletion.Plan.{Operation, Plan, plan, key_error, refused, plan_deletions}
use yggdrasil_home.Deletion.Execute.{execute_plan}

-- The parsed arguments; an absent text is "", which the code treats like None. `executable` is
-- `sys.executable`. The parser takes a report or a project, never both.
pub record Args : Type 0 where
  pub report : String
  pub project : String
  pub executable : String
  pub inventory_script : String
  pub openstack_bin : String
  pub interface : String
  pub region : String
  pub allow_inventory_errors : Bool
  pub allow_service_api_errors : Bool
  pub yes_flag : Bool
  pub verify : Bool
  pub wait_seconds : ℕ
  pub poll_seconds : ℕ

-- An error of the inventory: its category and its message.
abbrev pub Detail : Type 0
Detail = String × String

text_or : Fields → String → String → String
text_or issue key default = str (or_else (get_json issue key) (string default))

detail_of : Json → Detail
unfolding text_or str or_else get_json Dict.get
detail_of (object issue) = (
  text_or issue "category" "inventory",
  text_or issue "service" "unknown"
      <> ("/"
          <> (text_or issue "resource" "unknown"
              <> (": " <> str (or_else (get_json issue "error") (object issue))))),
)
detail_of issue = ("inventory", str issue)

details_in : Option Json → List Detail
unfolding detail_of keep truthy
details_in none = []
details_in (some (array issues)) = map detail_of (keep truthy (to_list issues))
details_in (some other) = ("inventory", "inventory report errors field is not a list") ∷ []

unfoldable pub report_error_details : Fields → List Detail
unfolding details_in Dict.get
report_error_details report = details_in (Dict.get (to_dict report) "errors")

unfoldable pub allowed_inventory_errors : Args → List Detail → List Detail
unfolding keep
allowed_inventory_errors args details =
    if args.allow_inventory_errors
    then details
    else if args.allow_service_api_errors
    then keep (λ (category, message). category == "service_api") details
    else []

same_detail : Detail → Detail → Bool
same_detail (c, m) (d, n) = (c == d) && (m == n)

-- `[issue for issue in details if issue not in allowed]`
unfoldable pub blocking_errors : Args → List Detail → List Detail
unfolding allowed_inventory_errors same_detail any keep
blocking_errors args details =
    keep (λ issue. not (any (same_detail issue) (allowed_inventory_errors args details))) details

abbrev messages : List Detail → List String
messages = map (λ (category, message). message)

abbrev option_if : Bool → List String → List String
option_if true words = words
option_if false words = []

unfoldable pub inventory_argv : Args → List String
inventory_argv args =
    (args.executable ∷ args.inventory_script ∷ "--project" ∷ args.project ∷ "--format" ∷ "json"
      ∷ [])
    ++ (option_if (not (args.allow_inventory_errors || args.allow_service_api_errors))
          ("--strict" ∷ [])
        ++ (("--openstack-bin" ∷ args.openstack_bin ∷ [])
            ++ (option_if (not (is_blank args.interface)) ("--interface" ∷ args.interface ∷ [])
                ++ option_if (not (is_blank args.region)) ("--region" ∷ args.region ∷ []))))

-- A parsed report: `none` is invalid JSON.
report_from : (invalid not_object : String) → Option Json → Run Fields
report_from invalid not_object none = raise (plan_error invalid)
report_from invalid not_object (some (object report)) = pure report
report_from invalid not_object (some other) = raise (plan_error not_object)

module _ (w : World) (args : Args) where
  inventory_result : Completed → Run Fields
  unfolding report_from strip is_zero
  inventory_result c =
      if is_zero c.returncode
      then report_from "project inventory returned invalid JSON"
          "project inventory did not return a JSON object" (w.json_loads c.stdout)
      else raise
          (plan_error ("project inventory failed: " <> or_text (strip c.stderr) (strip c.stdout)))

  unfoldable pub run_inventory : Run Fields
  unfolding inventory_result inventory_argv
  run_inventory = run w (inventory_argv args) >>= inventory_result

  read_report : Contents → Run Fields
  unfolding report_from
  read_report (unreadable message) = raise (os_error message)
  read_report (contents payload) =
      report_from "inventory input is not JSON; run list-project-resources.py with --format json"
        "inventory JSON must contain an object at the top level" (w.json_loads payload)

  -- A path of "-" is the standard input, which `read` gives like a file.
  unfoldable pub load_report : Run Fields
  unfolding read_report
  load_report = read_report (w.read args.report)

  abbrev say_each : List String → Run (Unit {0})
  say_each [] = pure tt
  say_each (line ∷ lines) = record_event (say line) >> say_each lines

  abbrev warn_each : List String → Run (Unit {0})
  warn_each [] = pure tt
  warn_each (line ∷ lines) = record_event (warn line) >> warn_each lines

  warnings : String → List Detail → List String
  warnings during = map (λ (category, message).
      "WARNING: non-blocking " <> (category <> (" error" <> (during <> (": " <> message)))))

  abbrev resource_name : Operation → String
  resource_name op =
      op.resource.service <> ("/" <> (op.resource.resource <> ("/" <> op.resource.identifier)))

  abbrev dry_line : Operation → String
  dry_line op =
      "  "
      <> (op.resource.service
          <> ("/"
              <> (op.resource.resource
                  <> (" " <> (op.resource.identifier <> (": " <> join " " op.argv))))))

  -- The refusal of a report with errors that are not allowed.
  check_errors : List Detail → Run (Unit {0})
  unfolding join
  check_errors [] = pure tt
  check_errors (e ∷ es) = raise (
      plan_error (
        "refusing to delete from an incomplete inventory; rerun the inventory with --strict and resolve these errors: "
        <> join "; " (messages (e ∷ es))))

  -- The planned operations, or the refusal of a report with issues. A `KeyError` is not caught: it
  -- ends the program with a traceback, for which the exit code 1 stands.
  check_plan : Plan → Run (Option (List Operation))
  unfolding join
  check_plan (refused message) = raise (plan_error message)
  check_plan key_error = pure none
  check_plan (plan ops []) = pure (some ops)
  check_plan (plan ops (i ∷ is)) = raise (plan_error ("refusing to delete: " <> join "; " (i ∷ is)))

  remaining : List Operation → List String
  unfolding join
  remaining [] = []
  remaining (op ∷ ops) = ("remaining resources: " <> join ", " (map resource_name (op ∷ ops))) ∷ []

  -- The test after the second inventory.
  verify_details : List Detail → List String → List Operation → Run ℕ
  unfolding remaining join
  verify_details [] [] [] =
      record_event (say "Verified that no project resources remain.") >> pure 0
  verify_details errors issues ops = raise (
      plan_error (
        "post-delete verification failed: "
        <> join "; " (messages errors ++ (issues ++ remaining ops))))

  verify_plan : List Detail → Plan → Run ℕ
  unfolding verify_details
  verify_plan errors (refused message) = raise (plan_error message)
  verify_plan errors key_error = pure 1
  verify_plan errors (plan ops issues) = verify_details errors issues ops

  unfoldable pub verify_report : Fields → Run ℕ
  unfolding verify_plan warnings report_error_details blocking_errors
  verify_report verified = do
    let details = report_error_details verified
    warn_each (warnings " during verification" (allowed_inventory_errors args details))
    verify_plan (blocking_errors args details) (plan_deletions verified)

  unfoldable pub verification : Run ℕ
  unfolding verify_report run_inventory
  verification =
      if is_blank args.project
      then raise (plan_error "--verify requires --project so the inventory can be refreshed")
      else run_inventory >>= verify_report

  after_execution : List String → Run ℕ
  unfolding verification
  after_execution [] = if args.verify then verification else pure 0
  after_execution (e ∷ es) = warn_each (map (λ error. "ERROR: " <> error) (e ∷ es)) >> pure 3

  -- From the planned operations on.
  unfoldable pub carry_out : ℕ → Option (List Operation) → Run ℕ
  unfolding after_execution execute_plan join
  carry_out fuel none = pure 1
  carry_out fuel (some []) = record_event (say "No deletable project resources found.") >> pure 0
  carry_out fuel (some (op ∷ ops)) =
      if args.yes_flag
      then execute_plan w args.openstack_bin fuel args.wait_seconds args.poll_seconds (op ∷ ops)
        >>= after_execution
      else record_event (say "Dry run; pass --yes to execute the ordered deletion plan.")
        >> (say_each (map dry_line (op ∷ ops)) >> pure 0)

  unfoldable pub acquire_report : Run Fields
  unfolding run_inventory load_report
  acquire_report = if is_blank args.project then load_report else run_inventory

  unfoldable pub planned_run : Fields → Run (Option (List Operation))
  unfolding check_errors check_plan warnings report_error_details blocking_errors
  planned_run report = do
    let details = report_error_details report
    warn_each (warnings "" (allowed_inventory_errors args details))
    check_errors (blocking_errors args details)
    check_plan (plan_deletions report)

  -- The body of the `try`.
  unfoldable pub attempt : ℕ → Run ℕ
  unfolding acquire_report planned_run carry_out
  attempt fuel = do report ← acquire_report; ops ← planned_run report; carry_out fuel ops

  abbrev failure_text : Failure → String
  failure_text (plan_error message) = message
  failure_text (os_error message) = message

  -- `except (DeletePlanError, OSError)`
  unfoldable pub caught : Outcome ℕ → Run ℕ
  caught (done code) = pure code
  caught (failed e) = record_event (warn ("error: " <> failure_text e)) >> pure 2
  caught unfinished = λ h. (unfinished, h)

  -- The exit code.
  unfoldable pub main : ℕ → Run ℕ
  unfolding attempt caught
  main fuel h = let (result, h') = attempt fuel h in caught result h'
