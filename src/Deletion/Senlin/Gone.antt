-- ===== src/Deletion/Senlin/Gone.antt =====
-- What the deletion of a clustering resource has seen when it gives no error.
use yggdrasil_home.Base.{
  ℕ, suc, zero, ◌+◌, ◌≡◌, ◌≢◌, refl, ap, ◌∙◌, arith, Option, none, some, List, [], ◌∷◌, String,
  Bool-cases, ltb, inl, inr, is_blank, ◌==◌, ◌||◌, eq_iff, upper,
}
use yggdrasil_home.Base.Dict.{member}
use yggdrasil_home.Deletion.World.{
  World, Call, get_resource, delete_resource, get_action, senlin, read_clock, sleep, History,
  Answer, returned, raised, done, Run, ◌>>=◌, go_on,
}
use yggdrasil_home.Deletion.Commands.{Resource}
use yggdrasil_home.Deletion.Senlin.{
  senlin_kinds, is_missing, ended_by, check_action, action_verdict, after_action, after_lookup,
  senlin_loop, id_of, request_and_wait, delete_senlin_resource,
}

-- A call about the resource itself.
pub data About (r : Resource) : Call → Type 0 where
  looked_up : About r (get_resource r.resource r.identifier)
  asked_to_go : About r (delete_resource r.resource r.identifier)

-- The history ends with a call about the resource that raised NotFoundException.
pub data NotFound (w : World) (r : Resource) : History → Type 0 where
  not_found :
      {c : Call} (h : History)
      → About r c
      → w.sdk (senlin c ∷ h) ≡ raised "NotFoundException"
      → NotFound w r (senlin c ∷ h)

module _ (w : World) (r : Resource) where
  -- The run returns no error only where the resource was not found.
  record Honest (m : Run (List String)) : Type 0 where
    at : (h : History) → (m h).0 ≡ done [] → NotFound w r (m h).1

  go_on-Honest :
      {c : Call} (what : String) (answer : Answer) (rest : Run (List String)) (h : History)
      → About r c
      → w.sdk (senlin c ∷ h) ≡ answer
      → Honest rest
      → (go_on (ended_by w r what answer) rest (senlin c ∷ h)).0 ≡ done []
      → NotFound w r (go_on (ended_by w r what answer) rest (senlin c ∷ h)).1
  unfolding ended_by
  go_on-Honest what (returned id status) rest h a k honest e = honest.at _ e
  go_on-Honest what (raised class_name) rest h a k honest e =
      elim (Bool-cases (is_missing class_name)) [
        | inl m ↦ rw m (
            not_found h a
              (k ∙ ap raised (ground (arith, m, eq_iff class_name "NotFoundException"))))
        | inr m ↦ cc (rw m at e)
      ]

  -- An action that failed is an error, and one that did not is followed by another round.
  action_verdict-NotFine : (answer : Answer) → action_verdict w r answer ≢ some []
  unfolding action_verdict
  action_verdict-NotFine (raised class_name) e = elim (Bool-cases (is_missing class_name)) [
    | inl k ↦ cc (rw k at e)
    | inr k ↦ cc (rw k at e)
  ]
  action_verdict-NotFine (returned id status) e =
      elim (Bool-cases ((upper status == "FAILED") || (upper status == "CANCELLED"))) [
        | inl k ↦ cc (rw k at e)
        | inr k ↦ cc (rw k at e)
      ]

  after_action-Honest :
      (poll : ℕ) (rest : Run (List String)) (failure : Option (List String)) (h : History)
      → failure ≢ some []
      → Honest rest
      → (after_action w poll rest failure h).0 ≡ done []
      → NotFound w r (after_action w poll rest failure h).1
  after_action-Honest poll rest none h n honest e = honest.at (sleep poll ∷ h) e
  after_action-Honest poll rest (some []) h n honest e = absurd (n refl)
  after_action-Honest poll rest (some (x ∷ xs)) h n honest e = cc e

  checked-Honest :
      (action_id : String) (poll : ℕ) (rest : Run (List String))
      → Honest rest
      → Honest (check_action w r action_id >>= after_action w poll rest)
  unfolding check_action
  checked-Honest action_id poll rest honest = record {
    at = λ h e. elim (Bool-cases (is_blank action_id)) [
      | inl k ↦ rw k (after_action-Honest poll rest none h (λ q. cc q) honest (rw k at e))
      | inr k ↦
          let asked = senlin (get_action action_id) ∷ h in
          rw k (
            after_action-Honest poll rest (action_verdict w r (w.sdk asked)) asked
              (action_verdict-NotFine (w.sdk asked)) honest (rw k at e))
    ];
  }

  round-Honest :
      (action_id : String) (poll : ℕ) (rest : Run (List String)) (h : History)
      → Honest rest
      → (after_lookup w r action_id poll rest
          (w.sdk (senlin (get_resource r.resource r.identifier) ∷ h))
          (senlin (get_resource r.resource r.identifier) ∷ h)).0
        ≡ done []
      → NotFound w r
          (after_lookup w r action_id poll rest
            (w.sdk (senlin (get_resource r.resource r.identifier) ∷ h))
            (senlin (get_resource r.resource r.identifier) ∷ h)).1
  unfolding after_lookup
  round-Honest action_id poll rest h honest e =
      go_on-Honest "resource lookup failed" _
        (check_action w r action_id >>= after_action w poll rest) h looked_up refl
        (checked-Honest action_id poll rest honest) e

  senlin_loop-Honest :
      (fuel : ℕ) (action_id : String) (deadline wait poll : ℕ)
      → Honest (senlin_loop w fuel r action_id deadline wait poll)
  unfolding senlin_loop
  senlin_loop-Honest zero action_id deadline wait poll = record { at = λ h e. cc e }
  senlin_loop-Honest (suc fuel) action_id deadline wait poll = record {
    at = λ h e. elim (Bool-cases (ltb (w.now (read_clock ∷ h)) deadline)) [
      | inl k ↦ rw k (
          round-Honest action_id poll (senlin_loop w fuel r action_id deadline wait poll)
            (read_clock ∷ h) (senlin_loop-Honest fuel action_id deadline wait poll) (rw k at e))
      | inr k ↦ cc (rw k at e)
    ];
  }

  request_and_wait-Honest : (fuel wait poll : ℕ) → Honest (request_and_wait w fuel wait poll r)
  request_and_wait-Honest fuel wait poll = record {
    at = λ h e.
        let id = id_of w (w.sdk (senlin (delete_resource r.resource r.identifier) ∷ h)) in
        go_on-Honest "delete request failed" _
          (λ g. senlin_loop w fuel r id (w.now (read_clock ∷ g) + wait) wait poll (read_clock ∷ g))
          h asked_to_go refl
          (record {
            at = λ g k.
                (senlin_loop-Honest fuel id (w.now (read_clock ∷ g) + wait) wait poll).at
                  (read_clock ∷ g) k;
          })
          e;
  }

  -- A clustering resource whose deletion gives no error was not found by the last call.
  pub delete_senlin_resource-NotFound :
      (fuel wait poll : ℕ) (h : History)
      → (delete_senlin_resource w fuel wait poll r h).0 ≡ done []
      → NotFound w r (delete_senlin_resource w fuel wait poll r h).1
  unfolding delete_senlin_resource
  delete_senlin_resource-NotFound fuel wait poll h e =
      elim (Bool-cases (member senlin_kinds r.resource)) [
        | inl k ↦ rw k (
            go_on-Honest "unable to load Senlin resource" _ (request_and_wait w fuel wait poll r) h
              looked_up refl (request_and_wait-Honest fuel wait poll) (rw k at e))
        | inr k ↦ cc (rw k at e)
      ]
