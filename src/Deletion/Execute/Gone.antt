-- ===== src/Deletion/Execute/Gone.antt =====
-- What the wait for a stack has seen when it gives no error.
use yggdrasil_home.Base.{
  ℕ, suc, zero, ◌+◌, ◌≡◌, refl, arith, true, false, Option, none, some, [], ◌∷◌, String, Bool-cases,
  ltb, inl, inr, ◌==◌, eq_iff, strip, lower,
}
use mathlib.Core.Option.{some-injective}
use yggdrasil_home.Base.Int.{is_zero}
use yggdrasil_home.Deletion.World.{
  World, command, read_clock, sleep, History, Completed, Started, completed, not_started, as_run,
  Outcome, done, failed, unfinished, Run, ◌>>=◌, ◌>>◌, pure, record_event, go_on, and_then,
  output_of, missing_output,
}
use yggdrasil_home.Deletion.Execute.{
  stack_argv, stack_verdict, after_show, stack_loop, wait_for_stack_delete, stack_errors,
}

-- The client's answer: it does not know the stack, or its status is that of a deleted stack.
pub data SaysGone (c : Completed) : Type 0 where
  unknown : is_zero c.returncode ≡ false → missing_output (output_of c) ≡ true → SaysGone c
  deleted : is_zero c.returncode ≡ true → lower (strip c.stdout) ≡ "delete_complete" → SaysGone c

module _ (w : World) (openstack_bin : String) where
  -- The history ends with a look at the stack that says so.
  pub data StackGone (id : String) : History → Type 0 where
    seen_gone :
        (c : Completed) (h : History)
        → w.reply (command (openstack_bin ∷ stack_argv w openstack_bin id) ∷ h) ≡ completed c
        → SaysGone c
        → StackGone id (command (openstack_bin ∷ stack_argv w openstack_bin id) ∷ h)

  record Honest (id : String) (m : Run (Option String)) : Type 0 where
    at : (h : History) → (m h).0 ≡ done none → StackGone id (m h).1

  stack_verdict-SaysGone :
      (c : Completed) → stack_verdict w openstack_bin c ≡ some none → SaysGone c
  unfolding stack_verdict
  stack_verdict-SaysGone c e = elim (Bool-cases (is_zero c.returncode)) [
    | inl z ↦ elim (Bool-cases (lower (strip c.stdout) == "delete_complete")) [
      | inl d ↦ deleted z (ground (arith, d, eq_iff (lower (strip c.stdout)) "delete_complete"))
      | inr d ↦ elim (Bool-cases (lower (strip c.stdout) == "delete_failed")) [
        | inl f ↦ cc (some-injective _ _ (rw (z, d, f) at e))
        | inr f ↦ cc (rw (z, d, f) at e)
      ]
    ]
    | inr z ↦ elim (Bool-cases (missing_output (output_of c))) [
      | inl m ↦ unknown z m
      | inr m ↦ cc (some-injective _ _ (rw (z, m) at e))
    ]
  ]

  show-Honest :
      (id : String) (poll : ℕ) (rest : Run (Option String)) (s : Started) (h : History)
      → Honest id rest
      → w.reply (command (openstack_bin ∷ stack_argv w openstack_bin id) ∷ h) ≡ s
      → ((as_run s >>= after_show w openstack_bin poll rest)
          (command (openstack_bin ∷ stack_argv w openstack_bin id) ∷ h)).0
        ≡ done none
      → StackGone id
          ((as_run s >>= after_show w openstack_bin poll rest)
            (command (openstack_bin ∷ stack_argv w openstack_bin id) ∷ h)).1
  unfolding after_show
  show-Honest id poll rest (not_started message) h honest k e = cc e
  show-Honest id poll rest (completed c) h honest k e =
      looked (stack_verdict w openstack_bin c) refl e
    where
      looked :
          (v : Option (Option String))
          → stack_verdict w openstack_bin c ≡ v
          → (go_on v
              (record_event (sleep poll) >> rest)
              (command (openstack_bin ∷ stack_argv w openstack_bin id) ∷ h)).0
            ≡ done none
          → StackGone id
              (go_on v
                (record_event (sleep poll) >> rest)
                (command (openstack_bin ∷ stack_argv w openstack_bin id) ∷ h)).1
      looked none q e = honest.at _ e
      looked (some none) q e = seen_gone c h k (stack_verdict-SaysGone c q)
      looked (some (some error)) q e = cc e

  stack_loop-Honest :
      (fuel : ℕ) (id : String) (deadline timeout poll : ℕ)
      → Honest id (stack_loop w openstack_bin fuel id deadline timeout poll)
  unfolding stack_loop
  stack_loop-Honest zero id deadline timeout poll = record { at = λ h e. cc e }
  stack_loop-Honest (suc fuel) id deadline timeout poll = record {
    at = λ h e. elim (Bool-cases (ltb (w.now (read_clock ∷ h)) deadline)) [
      | inl k ↦ rw k (
          show-Honest id poll (stack_loop w openstack_bin fuel id deadline timeout poll) _
            (read_clock ∷ h) (stack_loop-Honest fuel id deadline timeout poll) refl (rw k at e))
      | inr k ↦ cc (rw k at e)
    ];
  }

  -- A wait that gives no error ends with an answer that the stack is gone.
  pub wait_for_stack_delete-StackGone :
      (fuel : ℕ) (id : String) (timeout poll : ℕ) (h : History)
      → (wait_for_stack_delete w openstack_bin fuel id timeout poll h).0 ≡ done none
      → StackGone id (wait_for_stack_delete w openstack_bin fuel id timeout poll h).1
  unfolding wait_for_stack_delete
  wait_for_stack_delete-StackGone fuel id timeout poll h e =
      (stack_loop-Honest fuel id (w.now (read_clock ∷ h) + timeout) timeout poll).at
        (read_clock ∷ h) e

  pub stack_waited :
      (fuel wait poll : ℕ) (id : String) (r : Outcome (Option String)) (h : History)
      → (and_then r (λ error. pure (stack_errors w openstack_bin fuel wait poll id error)) h).0
        ≡ done []
      → (r ≡ done none)
        × ((and_then r (λ error. pure (stack_errors w openstack_bin fuel wait poll id error)) h).1
            ≡ h)
  stack_waited fuel wait poll id (done none) h e = (refl, refl)
  stack_waited fuel wait poll id (done (some error)) h e = cc e
  stack_waited fuel wait poll id (failed x) h e = cc e
  stack_waited fuel wait poll id unfinished h e = cc e
