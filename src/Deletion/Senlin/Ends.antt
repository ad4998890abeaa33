-- ===== src/Deletion/Senlin/Ends.antt =====
-- The wait for a clustering resource, its clock and its fuel.
use yggdrasil_home.Base.{
  ℕ, suc, zero, ◌+◌, ◌<◌, ◌≤◌, ◌≢◌, none, List, ◌∷◌, String, Bool-cases, arith, ltb, inl, inr,
  is_blank,
}
use yggdrasil_home.Base.Dict.{member}
use yggdrasil_home.Deletion.World.{
  World, senlin, read_clock, sleep, History, Answer, get_resource, delete_resource, get_action,
  call, unfinished, Run, ◌>>=◌, ◌>>◌, pure, record_event, go_on,
}
use yggdrasil_home.Deletion.World.Ends.{
  Ends, Ends-done, Ends-bind, Ends-if, Ends-go_on, go_on_ends, and_then_ends, Clock, call-Ends,
}
use yggdrasil_home.Base.Deadline.{time_is_up, later_round}
use yggdrasil_home.Deletion.Commands.{Resource}
use yggdrasil_home.Deletion.Senlin.{
  senlin_kinds, ended_by, check_action, action_verdict, senlin_loop, delete_senlin_resource, id_of,
  after_lookup, after_action, request_and_wait,
}

module _ (w : World) where
  -- What a round has still to do: each way to go on leaves the clock no earlier.
  check_action_now :
      (clock : Clock w) (r : Resource) (action_id : String) (h : History)
      → w.now h ≤ w.now (check_action w r action_id h).1
  unfolding check_action
  check_action_now clock r action_id h = elim (Bool-cases (is_blank action_id)) [
    | inl e ↦ rw e (omega arith)
    | inr e ↦ rw e (clock.forward _ h)
  ]

  check_action-Ends : (r : Resource) (action_id : String) → Ends (check_action w r action_id)
  unfolding check_action
  check_action-Ends r action_id = elim (Bool-cases (is_blank action_id)) [
    | inl e ↦ rw e (Ends-done none)
    | inr e ↦ rw e (
        Ends-bind (call w (senlin (get_action action_id)))
          (λ answer. pure (action_verdict w r answer)) (call-Ends w (senlin (get_action action_id)))
          (λ answer. Ends-done (action_verdict w r answer)))
  ]

  after_lookup_ends :
      (r : Resource) (action_id : String) (poll : ℕ) (rest : Run (List String)) (answer : Answer)
      (h : History)
      → (rest (sleep poll ∷ (check_action w r action_id h).1)).0 ≢ unfinished
      → (after_lookup w r action_id poll rest answer h).0 ≢ unfinished
  unfolding after_lookup
  after_lookup_ends r action_id poll rest answer h k =
      go_on_ends h (ended_by w r "resource lookup failed" answer)
        (check_action w r action_id >>= after_action w poll rest)
        (and_then_ends (check_action w r action_id h).1 (check_action w r action_id h).0
          (after_action w poll rest) ((check_action-Ends r action_id).at h)
          (λ failure.
            go_on_ends (check_action w r action_id h).1 failure (record_event (sleep poll) >> rest)
              k))

  module _ (clock : Clock w) (poll : ℕ) (positive : 1 ≤ poll) (r : Resource)
      (action_id : String) where
    senlin_loop_ends :
        (fuel : ℕ) (deadline wait : ℕ) (h : History)
        → deadline < w.now h + suc fuel
        → (senlin_loop w (suc fuel) r action_id deadline wait poll h).0 ≢ unfinished
    unfolding senlin_loop
    senlin_loop_ends zero deadline wait h k =
        rw (time_is_up deadline (w.now h) (w.now (read_clock ∷ h)) k (clock.forward read_clock h))
          (λ q. cc q)
    senlin_loop_ends (suc fuel) deadline wait h k =
        let seen = read_clock ∷ h in
        let found = senlin (get_resource r.resource r.identifier) ∷ seen in
        let checked = (check_action w r action_id found).1 in
        elim (Bool-cases (ltb (w.now seen) deadline)) [
          | inl e ↦ rw e (
              after_lookup_ends r action_id poll
                (senlin_loop w (suc fuel) r action_id deadline wait poll) (w.sdk found) found
                (senlin_loop_ends fuel deadline wait (sleep poll ∷ checked) (
                  later_round poll fuel deadline (w.now h) (w.now seen) (w.now checked)
                    (w.now (sleep poll ∷ checked)) positive k (clock.forward read_clock h)
                    (omega (
                      arith,
                      clock.forward (senlin (get_resource r.resource r.identifier)) seen,
                      check_action_now clock r action_id found,
                    ))
                    (clock.slept poll checked))))
          | inr e ↦ rw e (λ q. cc q)
        ]

    loop_ends :
        (fuel : ℕ) (wait : ℕ)
        → wait < fuel
        → (h : History)
        → (senlin_loop w fuel r action_id (w.now h + wait) wait poll h).0 ≢ unfinished
    loop_ends zero wait k h = absurd (omega (arith, k))
    loop_ends (suc fuel) wait k h = senlin_loop_ends fuel (w.now h + wait) wait h (omega (arith, k))

  module _ (clock : Clock w) (poll : ℕ) (positive : 1 ≤ poll) (fuel wait : ℕ)
      (enough : wait < fuel) where
    request_and_wait-Ends : (r : Resource) → Ends (request_and_wait w fuel wait poll r)
    request_and_wait-Ends r = record {
      at = λ h.
          let asked = senlin (delete_resource r.resource r.identifier) ∷ h in
          let id = id_of w (w.sdk asked) in
          go_on_ends asked (ended_by w r "delete request failed" (w.sdk asked))
            (λ g.
              senlin_loop w fuel r id (w.now (read_clock ∷ g) + wait) wait poll (read_clock ∷ g))
            (loop_ends clock poll positive r id fuel wait enough (read_clock ∷ asked));
    }

    found-Ends :
        (r : Resource) (found : Answer)
        → Ends (
            go_on
              (ended_by w r "unable to load Senlin resource" found)
              (request_and_wait w fuel wait poll r))
    found-Ends r found = Ends-go_on _ _ (request_and_wait-Ends r)

    -- The deletion of a clustering resource ends, whatever the calls answer.
    pub delete_senlin_resource-Ends :
        (r : Resource) → Ends (delete_senlin_resource w fuel wait poll r)
    unfolding delete_senlin_resource
    delete_senlin_resource-Ends r =
        Ends-if (member senlin_kinds r.resource) _ _
          (Ends-bind (call w (senlin (get_resource r.resource r.identifier)))
            (λ found.
              go_on (ended_by w r "unable to load Senlin resource" found)
                (request_and_wait w fuel wait poll r))
            (call-Ends w _) (found-Ends r))
          (Ends-done _)
