-- ===== src/Deletion/Main/Ends.antt =====
-- The fuel of `main`.
use yggdrasil_home.Base.{
  ◌<>◌, refl, ℕ, ◌<◌, ◌≤◌, ◌≡◌, ◌≢◌, Option, none, some, List, [], ◌∷◌, String, is_blank, map,
}
use yggdrasil_home.Base.Int.{is_zero}
use yggdrasil_home.Base.Json.{Json, object, Fields}
use yggdrasil_home.Deletion.World.{
  World, History, pure, say, warn, Outcome, done, failed, unfinished, Contents, contents,
  unreadable, Completed,
}
use yggdrasil_home.Deletion.World.Ends.{
  Ends, Ends-done, Ends-failed, Ends-record, Ends-bind, Ends-if, Clock, run-Ends,
}
use yggdrasil_home.Deletion.Plan.{Operation, Plan, plan, key_error, refused, plan_deletions}
use yggdrasil_home.Deletion.Execute.{execute_plan}
use yggdrasil_home.Deletion.Execute.Ends.{execute_plan-Ends}
use yggdrasil_home.Deletion.Main.{
  Args, Detail, main, attempt, acquire_report, planned_run, carry_out, caught, run_inventory,
  load_report, inventory_argv, inventory_result, read_report, report_from, warn_each, say_each,
  check_errors, check_plan, blocking_errors, report_error_details, warnings,
  allowed_inventory_errors, verification, verify_plan, verify_report, verify_details,
  after_execution, dry_line,
}

report_from-Ends :
    (invalid not_object : String) (o : Option Json) → Ends (report_from invalid not_object o)
unfolding report_from
report_from-Ends invalid not_object none = Ends-failed _
report_from-Ends invalid not_object (some (object report)) = Ends-done _
report_from-Ends invalid not_object (some other) = Ends-failed _

module _ (w : World) (args : Args) where
  warn_each-Ends : (lines : List String) → Ends (warn_each w args lines)
  warn_each-Ends [] = Ends-done tt
  warn_each-Ends (line ∷ lines) =
      Ends-bind _ _ (Ends-record (warn line)) (λ _. warn_each-Ends lines)

  say_each-Ends : (lines : List String) → Ends (say_each w args lines)
  say_each-Ends [] = Ends-done tt
  say_each-Ends (line ∷ lines) = Ends-bind _ _ (Ends-record (say line)) (λ _. say_each-Ends lines)

  inventory_result-Ends : (c : Completed) → Ends (inventory_result w args c)
  unfolding inventory_result
  inventory_result-Ends c =
      Ends-if (is_zero c.returncode) _ _ (report_from-Ends _ _ _) (Ends-failed _)

  run_inventory-Ends : Ends (run_inventory w args)
  unfolding run_inventory
  run_inventory-Ends = Ends-bind _ _ (run-Ends w (inventory_argv args)) inventory_result-Ends

  read_report-Ends : (c : Contents) → Ends (read_report w args c)
  unfolding read_report
  read_report-Ends (unreadable message) = Ends-failed _
  read_report-Ends (contents payload) = report_from-Ends _ _ _

  acquire_report-Ends : Ends (acquire_report w args)
  unfolding acquire_report load_report
  acquire_report-Ends =
      Ends-if (is_blank args.project) _ _ (read_report-Ends (w.read args.report)) run_inventory-Ends

  check_errors-Ends : (details : List Detail) → Ends (check_errors w args details)
  unfolding check_errors
  check_errors-Ends [] = Ends-done tt
  check_errors-Ends (e ∷ es) = Ends-failed _

  check_plan-Ends : (p : Plan) → Ends (check_plan w args p)
  unfolding check_plan
  check_plan-Ends (refused message) = Ends-failed _
  check_plan-Ends key_error = Ends-done none
  check_plan-Ends (plan ops []) = Ends-done (some ops)
  check_plan-Ends (plan ops (i ∷ is)) = Ends-failed _

  planned_run-Ends : (report : Fields) → Ends (planned_run w args report)
  unfolding planned_run
  planned_run-Ends report =
      let details = report_error_details report in
      Ends-bind _ _ (warn_each-Ends (warnings w args "" (allowed_inventory_errors args details)))
        λ _.
          Ends-bind _ _ (check_errors-Ends (blocking_errors args details))
            (λ _. check_plan-Ends (plan_deletions report))

  verify_details-Ends :
      (errors : List Detail) (issues : List String) (ops : List Operation)
      → Ends (verify_details w args errors issues ops)
  unfolding verify_details
  verify_details-Ends [] [] [] = Ends-bind _ _ (Ends-record _) (λ _. Ends-done 0)
  verify_details-Ends [] [] (op ∷ ops) = Ends-failed _
  verify_details-Ends [] (i ∷ is) ops = Ends-failed _
  verify_details-Ends (e ∷ es) issues ops = Ends-failed _

  verify_plan-Ends : (errors : List Detail) (p : Plan) → Ends (verify_plan w args errors p)
  unfolding verify_plan
  verify_plan-Ends errors (refused message) = Ends-failed _
  verify_plan-Ends errors key_error = Ends-done 1
  verify_plan-Ends errors (plan ops issues) = verify_details-Ends errors issues ops

  verify_report-Ends : (verified : Fields) → Ends (verify_report w args verified)
  unfolding verify_report
  verify_report-Ends verified =
      let details = report_error_details verified in
      Ends-bind _ _
        (warn_each-Ends
          (warnings w args " during verification" (allowed_inventory_errors args details)))
        (λ _. verify_plan-Ends (blocking_errors args details) (plan_deletions verified))

  verification-Ends : Ends (verification w args)
  unfolding verification
  verification-Ends = Ends-if (is_blank args.project) _ _ (Ends-failed _) (
      Ends-bind (run_inventory w args) (verify_report w args) run_inventory-Ends verify_report-Ends)

  after_execution-Ends : (errors : List String) → Ends (after_execution w args errors)
  unfolding after_execution
  after_execution-Ends [] = Ends-if args.verify _ _ verification-Ends (Ends-done 0)
  after_execution-Ends (e ∷ es) =
      let lines = map (λ error. "ERROR: " <> error) (e ∷ es) in
      Ends-bind (warn_each w args lines) (λ _. pure 3) (warn_each-Ends lines) (λ _. Ends-done 3)

  module _ (clock : Clock w) (fuel : ℕ) (positive : 1 ≤ args.poll_seconds)
      (enough : args.wait_seconds < fuel) where
    carry_out-Ends : (ops : Option (List Operation)) → Ends (carry_out w args fuel ops)
    unfolding carry_out
    carry_out-Ends none = Ends-done 1
    carry_out-Ends (some []) = Ends-bind _ _ (Ends-record _) (λ _. Ends-done 0)
    carry_out-Ends (some (op ∷ ops)) =
        Ends-if args.yes_flag _ _
          (Ends-bind
            (execute_plan w args.openstack_bin fuel args.wait_seconds args.poll_seconds (op ∷ ops))
            (after_execution w args)
            (execute_plan-Ends w args.openstack_bin clock args.poll_seconds positive fuel
              args.wait_seconds enough (op ∷ ops))
            after_execution-Ends)
          (Ends-bind _ _ (Ends-record _) λ _.
            Ends-bind _ _ (say_each-Ends (map (dry_line w args) (op ∷ ops))) (λ _. Ends-done 0))

    attempt-Ends : Ends (attempt w args fuel)
    unfolding attempt
    attempt-Ends = Ends-bind (acquire_report w args) _ acquire_report-Ends (λ report.
        Ends-bind (planned_run w args report) (carry_out w args fuel) (planned_run-Ends report)
          carry_out-Ends)

    caught-code :
        (r : Outcome ℕ) (h : History)
        → r ≢ unfinished
        → (code : ℕ) × ((caught w args r h).0 ≡ done code)
    unfolding caught
    caught-code (done code) h n = (code, refl)
    caught-code (failed e) h n = (2, refl)
    caught-code unfinished h n = absurd (n refl)

    -- On a clock that goes forward, with a poll of at least a millisecond and more rounds of fuel
    -- than the wait has milliseconds, the command ends with an exit code, whatever is answered.
    pub main_ends : (h : History) → (code : ℕ) × ((main w args fuel h).0 ≡ done code)
    unfolding main
    main_ends h =
        caught-code (attempt w args fuel h).0 (attempt w args fuel h).1 (attempt-Ends.at h)
