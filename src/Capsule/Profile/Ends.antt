-- ===== src/Capsule/Profile/Ends.antt =====
-- The wait of a capsule's deletion, its clock and its fuel.
use Prim.Native.String.{String}
use yggdrasil_home.Base.{
  ℕ, zero, suc, ◌+◌, ◌<◌, ◌≤◌, ◌≡◌, ◌≢◌, refl, Bool, Option, none, some, ◌∷◌, ltb, eqb, inl, inr,
  Bool-cases, is_blank, arith,
}
use yggdrasil_home.Base.Deadline.{time_is_up, later_round}
use yggdrasil_home.Capsule.Session.{
  World, Run, History, Outcome, returned, raised, unfinished, Error, Event, request, read_clock,
  sleep, is_not_found, Response, Reply, responded, failed_with, get_url, delete_url, capsule_url,
  capsule_of, get_capsule, or_raise, ◌>>=◌, pure, connect,
}
use yggdrasil_home.Capsule.Profile.{
  Node, after_look, gone_loop, wait_until_gone, confirm_absent, request_failed, checked,
  after_request, delete_capsule, deleted_or, delete_node, do_delete,
}

module _ (w : World) where
  -- A clock that never goes back, and a sleep that takes at least its time.
  pub record Clock : Type 0 where
    pub forward : (e : Event) (h : History) → w.now h ≤ w.now (e ∷ h)
    pub slept : (t : ℕ) (h : History) → w.now h + t ≤ w.now (sleep t ∷ h)

  look_ends :
      (reply : Reply) (f : Option Response → Run Bool) (h : History)
      → ((o : Option Response) → (f o h).0 ≢ unfinished)
      → ((capsule_of w reply >>= f) h).0 ≢ unfinished
  unfolding capsule_of
  look_ends (failed_with e) f h k = elim (Bool-cases (is_not_found e)) [
    | inl n ↦ rw n (k none)
    | inr n ↦ rw n (λ q. cc q)
  ]
  look_ends (responded r) f h k = elim (Bool-cases (eqb r.status_code 404)) [
    | inl n ↦ rw n (k none)
    | inr n ↦ rw n (judged (w.raise_for_status r))
  ]
    where
      judged : (o : Option Error) → ((or_raise o (pure (some r)) >>= f) h).0 ≢ unfinished
      judged none = k (some r)
      judged (some e) = λ q. cc q

  confirm_ends :
      (e : Error) (h : History) (o : Option Response) → (confirm_absent w e o h).0 ≢ unfinished
  confirm_ends e h none = λ q. cc q
  confirm_ends e h (some r) = λ q. cc q

  after_look_ends :
      (rest : Run Bool) (h : History) (o : Option Response)
      → (rest (sleep 2000 ∷ h)).0 ≢ unfinished
      → (after_look w rest o h).0 ≢ unfinished
  after_look_ends rest h none k = λ q. cc q
  after_look_ends rest h (some r) k = k

  request_failed_ends :
      (url : String) (e : Error) (h : History) → (request_failed w url e h).0 ≢ unfinished
  unfolding request_failed get_capsule
  request_failed_ends url e h = elim (Bool-cases (is_not_found e)) [
    | inl n ↦ rw n (λ q. cc q)
    | inr n ↦
        let asked = request (get_url url) ∷ h in
        rw n (look_ends (w.send asked) (confirm_absent w e) asked (confirm_ends e asked))
  ]

  module _ (clock : Clock) (url id : String) where
    gone_loop_ends :
        (fuel deadline : ℕ) (h : History)
        → deadline < w.now h + suc fuel
        → (gone_loop w (suc fuel) url id deadline h).0 ≢ unfinished
    unfolding gone_loop get_capsule
    gone_loop_ends zero deadline h k =
        rw (time_is_up deadline (w.now h) (w.now (read_clock ∷ h)) k (clock.forward read_clock h))
          (λ q. cc q)
    gone_loop_ends (suc fuel) deadline h k =
        let seen = read_clock ∷ h in
        let asked = request (get_url url) ∷ seen in
        elim (Bool-cases (ltb (w.now seen) deadline)) [
          | inl e ↦ rw e (
              look_ends (w.send asked) (after_look w (gone_loop w (suc fuel) url id deadline)) asked
                (λ o. after_look_ends (gone_loop w (suc fuel) url id deadline) asked o (
                  gone_loop_ends fuel deadline (sleep 2000 ∷ asked) (
                    later_round 2000 fuel deadline (w.now h) (w.now seen) (w.now asked)
                      (w.now (sleep 2000 ∷ asked)) (omega arith) k (clock.forward read_clock h)
                      (clock.forward (request (get_url url)) seen) (clock.slept 2000 asked)))))
          | inr e ↦ rw e (λ q. cc q)
        ]

    waiting_ends :
        (fuel : ℕ) (h : History) → 300000 < fuel → (wait_until_gone w fuel url id h).0 ≢ unfinished
    waiting_ends zero h k = absurd (omega (arith, k))
    waiting_ends (suc fuel) h k =
        gone_loop_ends fuel (w.now (read_clock ∷ h) + 300000) (read_clock ∷ h) (omega (arith, k))

    after_request_ends :
        (fuel : ℕ) (reply : Reply) (h : History)
        → 300000 < fuel
        → (after_request w fuel url id reply h).0 ≢ unfinished
    unfolding after_request
    after_request_ends fuel (failed_with e) h k = request_failed_ends url e h
    after_request_ends fuel (responded r) h k = elim (Bool-cases (eqb r.status_code 404)) [
      | inl n ↦ rw n (λ q. cc q)
      | inr n ↦ rw n (judged (w.raise_for_status r))
    ]
      where
        judged : (o : Option Error) → (checked w fuel url id o h).0 ≢ unfinished
        judged none = waiting_ends fuel h k
        judged (some e) = request_failed_ends url e h

  deleted_or_ends :
      (id : String) (r : Outcome Bool) (h : History)
      → r ≢ unfinished
      → (deleted_or w id r h).0 ≢ unfinished
  deleted_or_ends id (returned b) h n = λ q. cc q
  deleted_or_ends id (raised e) h n = λ q. cc q
  deleted_or_ends id unfinished h n = absurd (n refl)

  -- On a clock that goes forward and with more rounds of fuel than the wait has milliseconds, the
  -- deletion of a node's capsule returns or raises, whatever the service replies.
  pub do_delete_ends :
      (clock : Clock) (fuel : ℕ) (node : Node) (base_url : String) (h : History)
      → 300000 < fuel
      → connect w h ≡ (returned base_url, h)
      → (do_delete w fuel node h).0 ≢ unfinished
  unfolding do_delete delete_node delete_capsule
  do_delete_ends clock fuel node base_url h enough c =
      elim (Bool-cases (is_blank node.physical_id)) [
        | inl n ↦ rw n (λ q. cc q)
        | inr n ↦
            let url = capsule_url w base_url node.physical_id in
            let asked = request (delete_url url) ∷ h in
            let r = after_request w fuel url node.physical_id (w.send asked) asked in
            rw (n, c)
              (deleted_or_ends node.physical_id r.0 r.1
                (after_request_ends clock url node.physical_id fuel (w.send asked) asked enough))
      ]
