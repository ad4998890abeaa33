-- ===== src/Deletion/Main/Verified.antt =====
-- The exit code 0 of a run with --yes and --verify.
use yggdrasil_home.Base.{
  ℕ, ◌≡◌, refl, true, Option, none, some, List, [], ◌∷◌, String, is_blank, map, Bool-cases, inl,
  inr, ◌<>◌,
}
use yggdrasil_home.Base.Json.{Fields}
use yggdrasil_home.Deletion.World.{
  World, History, Run, ◌>>=◌, pure, Outcome, done, failed, unfinished,
}
use yggdrasil_home.Deletion.World.Effects.{>>=-eq-done}
use yggdrasil_home.Deletion.Plan.{Operation, Plan, plan, key_error, refused, plan_deletions}
use yggdrasil_home.Deletion.Execute.{execute_plan}
use yggdrasil_home.Deletion.Main.{
  Args, Detail, main, attempt, acquire_report, planned_run, carry_out, caught, run_inventory,
  warn_each, blocking_errors, report_error_details, warnings, allowed_inventory_errors,
  verification, verify_plan, verify_report, verify_details, after_execution,
}

-- Zero is the exit code of a body that returns zero: neither a failure nor a traceback has it.
caught-eq-zero :
    (w : World) (args : Args) (r : Outcome ℕ) (h : History)
    → (caught w args r h).0 ≡ done 0
    → r ≡ done 0
unfolding caught
caught-eq-zero w args (done code) h e = e
caught-eq-zero w args (failed x) h e = cc e
caught-eq-zero w args unfinished h e = cc e

module _ (w : World) (args : Args) where
  -- An inventory after the deletions that found nothing: no error but allowed ones, no resources and
  -- no issue.
  pub record FoundNothing (h : History) : Type 0 where
    pub verified : Fields
    pub inventory : (run_inventory w args h).0 ≡ done verified
    pub no_errors : blocking_errors args (report_error_details verified) ≡ []
    pub no_resources : plan_deletions verified ≡ plan [] []

  verify_details-zero :
      (errors : List Detail) (issues : List String) (ops : List Operation) (h : History)
      → (verify_details w args errors issues ops h).0 ≡ done 0
      → (errors ≡ []) × (issues ≡ []) × (ops ≡ [])
  unfolding verify_details
  verify_details-zero [] [] [] h e = (refl, refl, refl)
  verify_details-zero [] [] (op ∷ ops) h e = cc e
  verify_details-zero [] (i ∷ is) ops h e = cc e
  verify_details-zero (d ∷ ds) issues ops h e = cc e

  verify_plan-zero :
      (errors : List Detail) (p : Plan) (h : History)
      → (verify_plan w args errors p h).0 ≡ done 0
      → (errors ≡ []) × (p ≡ plan [] [])
  unfolding verify_plan
  verify_plan-zero errors (refused message) h e = cc e
  verify_plan-zero errors key_error h e = cc e
  verify_plan-zero errors (plan ops issues) h e =
      let (a, b, c) = verify_details-zero errors issues ops h e in (a, rw (b, c) refl)

  verify_report-zero :
      (verified : Fields) (h : History)
      → (verify_report w args verified h).0 ≡ done 0
      → (blocking_errors args (report_error_details verified) ≡ [])
        × (plan_deletions verified ≡ plan [] [])
  unfolding verify_report
  verify_report-zero verified h e =
      let details = report_error_details verified in
      let lines = warnings w args " during verification" (allowed_inventory_errors args details) in
      let rest = λ (_ : Unit {0}).
        verify_plan w args (blocking_errors args details) (plan_deletions verified) in
      let (a, _, k) = >>=-eq-done (warn_each w args lines) rest h e in verify_plan-zero _ _ _ k

  verification-zero : (h : History) → (verification w args h).0 ≡ done 0 → FoundNothing h
  unfolding verification
  verification-zero h e = elim (Bool-cases (is_blank args.project)) [
    | inl b ↦ cc (rw b at e)
    | inr b ↦
        let (verified, got, k) =
          >>=-eq-done (run_inventory w args) (verify_report w args) h (rw b at e) in
        let (a, c) = verify_report-zero verified (run_inventory w args h).1 k in
        record { verified = verified; inventory = got; no_errors = a; no_resources = c }
  ]

  after_execution-zero :
      (errors : List String) (h : History)
      → args.verify ≡ true
      → (after_execution w args errors h).0 ≡ done 0
      → (errors ≡ []) × FoundNothing h
  unfolding after_execution
  after_execution-zero [] h v e = (refl, verification-zero h (rw v at e))
  after_execution-zero (x ∷ xs) h v e =
      let (a, _, k) =
        >>=-eq-done (warn_each w args (map (λ error. "ERROR: " <> error) (x ∷ xs))) (λ _. pure 3) h
          e in
      cc k

  abbrev executed : ℕ → List Operation → Run (List String)
  executed fuel ops = execute_plan w args.openstack_bin fuel args.wait_seconds args.poll_seconds ops

  -- A plan with no operations, or one whose execution had no error and left nothing to be found.
  pub data Finished (fuel : ℕ) (h : History) : Option (List Operation) → Type 0 where
    nothing_to_do : Finished fuel h (some [])
    all_gone :
        (op : Operation) (ops : List Operation)
        → (executed fuel (op ∷ ops) h).0 ≡ done []
        → FoundNothing (executed fuel (op ∷ ops) h).1
        → Finished fuel h (some (op ∷ ops))

  carry_out-Finished :
      (fuel : ℕ) (ops : Option (List Operation)) (h : History)
      → args.yes_flag ≡ true
      → args.verify ≡ true
      → (carry_out w args fuel ops h).0 ≡ done 0
      → Finished fuel h ops
  unfolding carry_out
  carry_out-Finished fuel none h y v e = cc e
  carry_out-Finished fuel (some []) h y v e = nothing_to_do
  carry_out-Finished fuel (some (op ∷ ops)) h y v e =
      let (errors, a, k) =
        >>=-eq-done (executed fuel (op ∷ ops)) (after_execution w args) h (rw y at e) in
      let (b, c) = after_execution-zero errors (executed fuel (op ∷ ops) h).1 v k in
      all_gone op ops (rw b at a) c

  -- What a run read and planned, and how it finished.
  pub record Success (fuel : ℕ) (h : History) : Type 0 where
    pub report : Fields
    pub ops : Option (List Operation)
    pub acquired : (acquire_report w args h).0 ≡ done report
    pub planned : (planned_run w args report (acquire_report w args h).1).0 ≡ done ops
    pub finished : Finished fuel (planned_run w args report (acquire_report w args h).1).1 ops

  -- A run with --yes and --verify ends with exit code 0 only if its plan was empty, or if the
  -- execution of the plan gave no error and an inventory that was read after it had no error but
  -- allowed ones, no resource to delete and no issue.
  pub main_verified :
      (fuel : ℕ) (h : History)
      → args.yes_flag ≡ true
      → args.verify ≡ true
      → (main w args fuel h).0 ≡ done 0
      → Success fuel h
  unfolding main attempt
  main_verified fuel h y v e =
      let body = caught-eq-zero w args (attempt w args fuel h).0 (attempt w args fuel h).1 e in
      let (report, a, k) =
        >>=-eq-done (acquire_report w args) (λ r. planned_run w args r >>= carry_out w args fuel) h
          body in
      let (ops, b, l) =
        >>=-eq-done (planned_run w args report) (carry_out w args fuel) (acquire_report w args h).1
          k in
      record {
        report = report;
        ops = ops;
        acquired = a;
        planned = b;
        finished = carry_out-Finished fuel ops _ y v l;
      }
