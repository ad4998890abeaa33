-- ===== src/Deletion/Main/Safety.antt =====
-- The effects of `main` without --yes, and where it refuses.
use Prim.Native.String.{String}
use yggdrasil_home.Base.{
  ℕ, ◌≡◌, refl, ap, ◌∙◌, false, List, [], ◌∷◌, ◌++◌, map, inl, inr, is_blank, Bool-cases, Option,
  none, some, if◌then◌else◌,
}
use yggdrasil_home.Base.Int.{is_zero}
use yggdrasil_home.Base.Json.{Json, object, Fields}
use yggdrasil_home.Deletion.World.{
  World, Event, command, History, run, Completed, Started, completed, not_started, Contents,
  contents, unreadable, as_run, Outcome, done, failed, unfinished, ◌>>=◌, ◌>>◌, warn, raise,
  plan_error,
}
use yggdrasil_home.Deletion.World.Effects.{
  effects_in, Affects, Quiet, Quiet-pure, Quiet-say, Quiet-warn, Affects-bind, >>=_of_done,
  >>=_of_failed,
}
use yggdrasil_home.Deletion.Plan.{Operation, Plan, plan, key_error, refused, plan_deletions}
use yggdrasil_home.Deletion.Main.{
  Args, Detail, main, attempt, acquire_report, planned_run, carry_out, caught, run_inventory,
  load_report, inventory_argv, inventory_result, read_report, report_from, warn_each, say_each,
  check_errors, check_plan, blocking_errors, report_error_details, warnings,
  allowed_inventory_errors, dry_line,
}

report_from-Quiet :
    (invalid not_object : String) (o : Option Json) → Quiet (report_from invalid not_object o)
unfolding report_from
report_from-Quiet invalid not_object none = Quiet-pure _
report_from-Quiet invalid not_object (some (object report)) = Quiet-pure _
report_from-Quiet invalid not_object (some other) = Quiet-pure _

warn_each-Quiet : (w : World) (args : Args) (lines : List String) → Quiet (warn_each w args lines)
warn_each-Quiet w args [] = Quiet-pure _
warn_each-Quiet w args (line ∷ lines) =
    Affects-bind _ _ (Quiet-warn line) (λ _. warn_each-Quiet w args lines)

say_each-Quiet : (w : World) (args : Args) (lines : List String) → Quiet (say_each w args lines)
say_each-Quiet w args [] = Quiet-pure _
say_each-Quiet w args (line ∷ lines) =
    Affects-bind _ _ (Quiet-say line) (λ _. say_each-Quiet w args lines)

module _ (w : World) (args : Args) where
  inventory_result-Quiet : (c : Completed) → Quiet (inventory_result w args c)
  unfolding inventory_result
  inventory_result-Quiet c = elim (Bool-cases (is_zero c.returncode)) [
    | inl e ↦ rw e (report_from-Quiet _ _ _)
    | inr e ↦ rw e (Quiet-pure _)
  ]

  run-Affects : (argv : List String) → Affects (command argv ∷ []) (run w argv)
  run-Affects argv = record { at = λ h. of_reply (w.reply (command argv ∷ h)) h }
    where
      of_reply :
          (s : Started) (h : History)
          → effects_in (as_run s (command argv ∷ h)).1 ≡ command argv ∷ effects_in h
      of_reply (completed c) h = refl
      of_reply (not_started message) h = refl

  -- The inventory is one subprocess, and a report that is read is none.
  abbrev pub inventory_effects : List Event
  inventory_effects = if is_blank args.project then [] else command (inventory_argv args) ∷ []

  read_report-Quiet : (c : Contents) → Quiet (read_report w args c)
  unfolding read_report
  read_report-Quiet (unreadable message) = Quiet-pure _
  read_report-Quiet (contents payload) = report_from-Quiet _ _ _

  acquire_report-Affects : Affects inventory_effects (acquire_report w args)
  unfolding acquire_report run_inventory load_report
  acquire_report-Affects = elim (Bool-cases (is_blank args.project)) [
    | inl e ↦ rw e (read_report-Quiet _)
    | inr e ↦ rw e (Affects-bind _ _ (run-Affects _) inventory_result-Quiet)
  ]

  check_errors-Quiet : (details : List Detail) → Quiet (check_errors w args details)
  unfolding check_errors
  check_errors-Quiet [] = Quiet-pure _
  check_errors-Quiet (e ∷ es) = Quiet-pure _

  check_plan-Quiet : (p : Plan) → Quiet (check_plan w args p)
  unfolding check_plan
  check_plan-Quiet (refused message) = Quiet-pure _
  check_plan-Quiet key_error = Quiet-pure _
  check_plan-Quiet (plan ops []) = Quiet-pure _
  check_plan-Quiet (plan ops (i ∷ is)) = Quiet-pure _

  planned_run-Quiet : (report : Fields) → Quiet (planned_run w args report)
  unfolding planned_run
  planned_run-Quiet report =
      let details = report_error_details report in
      Affects-bind _ _
        (warn_each-Quiet w args (warnings w args "" (allowed_inventory_errors args details)))
        λ _.
          Affects-bind _ _ (check_errors-Quiet (blocking_errors args details))
            (λ _. check_plan-Quiet (plan_deletions report))

  carry_out-Quiet :
      args.yes_flag ≡ false
      → (fuel : ℕ) (ops : Option (List Operation)) → Quiet (carry_out w args fuel ops)
  unfolding carry_out
  carry_out-Quiet dry fuel none = Quiet-pure _
  carry_out-Quiet dry fuel (some []) = Affects-bind _ _ (Quiet-say _) (λ _. Quiet-pure (done 0))
  carry_out-Quiet dry fuel (some (op ∷ ops)) = rw dry (
      Affects-bind _ _ (Quiet-say "Dry run; pass --yes to execute the ordered deletion plan.") λ _.
        Affects-bind _ _ (say_each-Quiet w args (map (dry_line w args) (op ∷ ops)))
          (λ _. Quiet-pure (done 0)))

  caught-Quiet : (r : Outcome ℕ) → Quiet (caught w args r)
  unfolding caught
  caught-Quiet (done code) = Quiet-pure _
  caught-Quiet (failed e) = Affects-bind _ _ (Quiet-warn _) (λ _. Quiet-pure (done 2))
  caught-Quiet unfinished = Quiet-pure _

  -- Without --yes the only effect of a run, however it ends, is the inventory of the project.
  pub main_dry :
      (fuel : ℕ) (h : History)
      → args.yes_flag ≡ false
      → effects_in (main w args fuel h).1 ≡ inventory_effects ++ effects_in h
  unfolding main attempt
  main_dry fuel h dry =
      (caught-Quiet (attempt w args fuel h).0).at (attempt w args fuel h).1
      ∙ (Affects-bind _ _ acquire_report-Affects
            λ report. Affects-bind _ _ (planned_run-Quiet report) (carry_out-Quiet dry fuel)).at
          h

  -- A report from which nothing may be deleted.
  pub data IsUnsafe (report : Fields) : Type 0 where
    has_errors :
        (e : Detail) (es : List Detail)
        → blocking_errors args (report_error_details report) ≡ e ∷ es
        → IsUnsafe report
    has_issues :
        (ops : List Operation) (i : String) (is : List String)
        → plan_deletions report ≡ plan ops (i ∷ is)
        → IsUnsafe report
    has_no_resources :
        (message : String) → plan_deletions report ≡ refused message → IsUnsafe report

  warn_each-eq : (lines : List String) (h : History) → (warn_each w args lines h).0 ≡ done tt
  warn_each-eq [] h = refl
  warn_each-eq (line ∷ lines) h = warn_each-eq lines (warn line ∷ h)

  after_errors :
      (details : List Detail) (p : Plan) (message : String) (h : History)
      → check_plan w args p ≡ raise (plan_error message)
      → (m : String) × (((check_errors w args details >> check_plan w args p) h).0
          ≡ failed (plan_error m))
  unfolding check_errors
  after_errors [] p message h q = (message, ap (λ r. (r h).0) q)
  after_errors (e ∷ es) p message h q = (_, refl)

  errors_fail :
      (details : List Detail) (p : Plan) (h : History) {e : Detail} {es : List Detail}
      → details ≡ e ∷ es
      → (m : String) × (((check_errors w args details >> check_plan w args p) h).0
          ≡ failed (plan_error m))
  unfolding check_errors
  errors_fail [] p h k = cc
  errors_fail (d ∷ ds) p h k = (_, refl)

  checks_fail :
      (report : Fields) (h : History)
      → IsUnsafe report
      → (message : String) × (((check_errors w args
                (blocking_errors args (report_error_details report))
              >> check_plan w args (plan_deletions report))
            h).0
          ≡ failed (plan_error message))
  unfolding check_errors check_plan
  checks_fail report h (has_errors e es k) =
      errors_fail (blocking_errors args (report_error_details report)) _ h k
  checks_fail report h (has_issues ops i is k) =
      after_errors (blocking_errors args (report_error_details report)) (plan_deletions report) _ h
        (ap (check_plan w args) k)
  checks_fail report h (has_no_resources message k) =
      after_errors (blocking_errors args (report_error_details report)) (plan_deletions report) _ h
        (ap (check_plan w args) k)

  -- Such a report fails, after warnings.
  planned_run-failed :
      (report : Fields) (h : History)
      → IsUnsafe report
      → (message : String) × ((planned_run w args report h).0 ≡ failed (plan_error message))
  unfolding planned_run
  planned_run-failed report h u =
      let details = report_error_details report in
      let lines = warnings w args "" (allowed_inventory_errors args details) in
      let rest = λ (_ : Unit {0}).
        check_errors w args (blocking_errors args details)
        >> check_plan w args (plan_deletions report) in
      let (message, e) = checks_fail report (warn_each w args lines h).1 u in
      (
        message,
        ap (λ x. x.0) (>>=_of_done (warn_each w args lines) rest h (warn_each-eq lines h)) ∙ e,
      )

  -- With --yes or without, a run that reads a report with an error that is not allowed, an issue
  -- or no object of resources ends with exit code 2, and its only effect is the inventory.
  pub main_refuses :
      (fuel : ℕ) (h : History) (report : Fields)
      → (acquire_report w args h).0 ≡ done report
      → IsUnsafe report
      → ((main w args fuel h).0 ≡ done 2)
        × (effects_in (main w args fuel h).1 ≡ inventory_effects ++ effects_in h)
  unfolding main attempt caught
  main_refuses fuel h report e u =
      let h1 = (acquire_report w args h).1 in
      let (message, f) = planned_run-failed report h1 u in
      let whole =
        >>=_of_done (acquire_report w args) (λ r. planned_run w args r >>= carry_out w args fuel) h
          e
        ∙ >>=_of_failed (planned_run w args report) (carry_out w args fuel) h1 f in
      (
        ap (λ x. (caught w args x.0 x.1).0) whole,
        (caught-Quiet (attempt w args fuel h).0).at (attempt w args fuel h).1
            ∙ (ap (λ x. effects_in x.1) whole
                ∙ ((planned_run-Quiet report).at h1 ∙ acquire_report-Affects.at h)),
      )
