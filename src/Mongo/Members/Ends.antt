-- ===== src/Mongo/Members/Ends.antt =====
-- The polling loops of an initialisation, their clock and their fuel.
use Prim.Native.String.{String}
use yggdrasil_home.Base.{
  ◌≢◌, ℕ, zero, suc, ◌+◌, ◌≤◌, ◌<◌, Bool, true, false, Option, none, some, List, ◌∷◌, strip, ltb,
  inl, inr, Bool-cases, Option-cases, is_blank, arith,
}
use yggdrasil_home.Base.Deadline.{time_is_up, later_round}
use yggdrasil_home.Base.Run.{
  Outcome, returned, raised, unfinished, rescue, handled, and_then, pure, >>=-finished,
  rescue-finished, ◌>>=◌, ◌>>◌,
}
use yggdrasil_home.Mongo.Guest.{
  Action, History, World, Event, mongosh, read_clock, sleep, do_event, say,
}
use yggdrasil_home.Mongo.Service.{Cluster, cluster_or_empty, or_blank}
use yggdrasil_home.Mongo.Members.{
  initialize_once, initialize_loop, initialize_replica_set, initiate_script, is_transient, local,
  looks_primary, primary_loop, primary_round, retry, run_mongosh, shows_primary, state_script,
  wait_for_primary,
}

module _ (w : World) where
  -- A clock that never goes back, and a sleep that takes at least its time.
  pub record Clock : Type 0 where
    pub forward : (e : Event) (h : History) → w.now h ≤ w.now (e ∷ h)
    pub slept : (t : ℕ) (h : History) → w.now h + t ≤ w.now (sleep t ∷ h)

  module _ (clock_runs : Clock) where
    -- The action does not turn the clock back.
    Grows : {A : Type 0} → Action A → Type 0
    Grows m = (h : History) → w.now h ≤ w.now (m h).1

    >>=-Grows :
        {A B : Type 0} (m : Action A) (next : A → Action B)
        → Grows m
        → ((a : A) → Grows (next a))
        → Grows (m >>= next)
    unfolding Grows
    >>=-Grows {A = A} {B = B} m next g k h = by_outcome (m h).0
      where
        by_outcome : (r : Outcome String A) → w.now h ≤ w.now (and_then r next (m h).1).1
        by_outcome (returned a) = let x = g h in let y = k a (m h).1 in omega (arith, x, y)
        by_outcome (raised e) = g h
        by_outcome unfinished = g h

    rescue-Grows :
        {A : Type 0} (m : Action A) (handler : String → Action A)
        → Grows m
        → ((e : String) → Grows (handler e))
        → Grows (rescue m handler)
    unfolding Grows
    rescue-Grows {A = A} m handler g k h = by_outcome (m h).0
      where
        by_outcome : (r : Outcome String A) → w.now h ≤ w.now (handled r handler (m h).1).1
        by_outcome (returned a) = g h
        by_outcome (raised e) = let x = g h in let y = k e (m h).1 in omega (arith, x, y)
        by_outcome unfinished = g h

    event_Grows : (e : Event) → Grows (do_event w e)
    unfolding Grows
    event_Grows e h = elim (Option-cases (w.fails (e ∷ h))) [
      | inl k ↦ rw k (clock_runs.forward e h)
      | inr (message, k) ↦ rw k (clock_runs.forward e h)
    ]

    event_ends : (e : Event) (h : History) → (do_event w e h).0 ≢ unfinished
    event_ends e h = elim (Option-cases (w.fails (e ∷ h))) [
      | inl k ↦ rw k (λ q. cc q)
      | inr (message, k) ↦ rw k (λ q. cc q)
    ]

    still : {A : Type 0} (a : A) → Grows (pure a)
    unfolding Grows
    still a h = omega arith

    mongosh_Grows : (script host : String) → Grows (run_mongosh w script host)
    unfolding run_mongosh Grows
    mongosh_Grows script host =
        >>=-Grows (do_event w (mongosh host script)) (λ _. say w >>= λ output. pure (strip output))
          (event_Grows (mongosh host script))
          (λ _.
            >>=-Grows (say w) (λ output. pure (strip output)) (λ h. omega arith)
              (λ output. still (strip output)))

    mongosh_ends :
        (script host : String) (h : History) → (run_mongosh w script host h).0 ≢ unfinished
    unfolding run_mongosh
    mongosh_ends script host h =
        >>=-finished (do_event w (mongosh host script))
          (λ _. say w >>= λ output. pure (strip output)) h (event_ends (mongosh host script) h)
          (λ _ q. cc q)

    look_Grows : Grows (looks_primary w)
    look_Grows =
        rescue-Grows (run_mongosh w state_script local >>= λ output. pure (shows_primary output))
          (λ _. pure false)
          (>>=-Grows (run_mongosh w state_script local) (λ output. pure (shows_primary output))
            (mongosh_Grows state_script local) (λ output. still (shows_primary output)))
          (λ _. still false)

    look_ends : (h : History) → (looks_primary w h).0 ≢ unfinished
    look_ends h =
        rescue-finished (run_mongosh w state_script local >>= λ output. pure (shows_primary output))
          (λ _. pure false) h
          (>>=-finished (run_mongosh w state_script local) (λ output. pure (shows_primary output)) h
            (mongosh_ends state_script local h) (λ output q. cc q))
          (λ message q. cc q)

    round_ends :
        (rest : Action (Unit {0})) (b : Bool) (h : History)
        → (rest (sleep 2000 ∷ h)).0 ≢ unfinished
        → (primary_round w rest b h).0 ≢ unfinished
    round_ends rest true h k = λ q. cc q
    round_ends rest false h k = k

    loop_ends :
        (fuel deadline : ℕ) (h : History)
        → deadline < w.now h + suc fuel
        → (primary_loop w (suc fuel) deadline h).0 ≢ unfinished
    unfolding primary_loop Grows
    loop_ends zero deadline h k =
        rw
          (time_is_up deadline (w.now h) (w.now (read_clock ∷ h)) k
            (clock_runs.forward read_clock h))
          (λ q. cc q)
    loop_ends (suc fuel) deadline h k =
        let seen = read_clock ∷ h in
        let mid = (looks_primary w seen).1 in
        elim (Bool-cases (ltb (w.now seen) deadline)) [
          | inl e ↦ rw e (
              >>=-finished (looks_primary w) (primary_round w (primary_loop w (suc fuel) deadline))
                seen (look_ends seen)
                (λ b. round_ends (primary_loop w (suc fuel) deadline) b mid (
                  loop_ends fuel deadline (sleep 2000 ∷ mid) (
                    later_round 2000 fuel deadline (w.now h) (w.now seen) (w.now mid)
                      (w.now (sleep 2000 ∷ mid)) (omega arith) k (clock_runs.forward read_clock h)
                      (look_Grows seen) (clock_runs.slept 2000 mid)))))
          | inr e ↦ rw e (λ q. cc q)
        ]

    round_Grows :
        (rest : Action (Unit {0})) (b : Bool) → Grows rest → Grows (primary_round w rest b)
    unfolding Grows
    round_Grows rest true g h = omega arith
    round_Grows rest false g h =
        let x = clock_runs.forward (sleep 2000) h in
        let y = g (sleep 2000 ∷ h) in omega (arith, x, y)

    loop_Grows : (fuel deadline : ℕ) → Grows (primary_loop w fuel deadline)
    unfolding primary_loop Grows
    loop_Grows zero deadline h = omega arith
    loop_Grows (suc fuel) deadline h =
        let x = clock_runs.forward read_clock h in
        elim (Bool-cases (ltb (w.now (read_clock ∷ h)) deadline)) [
          | inl e ↦
              let y =
                >>=-Grows (looks_primary w) (primary_round w (primary_loop w fuel deadline))
                  look_Grows
                  (λ b. round_Grows (primary_loop w fuel deadline) b (loop_Grows fuel deadline))
                  (read_clock ∷ h) in
              rw e (omega (arith, x, y))
          | inr e ↦ rw e x
        ]

    wait_ends :
        (fuel : ℕ) (h : History)
        → w.add_members_timeout < fuel
        → (wait_for_primary w fuel h).0 ≢ unfinished
    unfolding wait_for_primary
    wait_ends zero h k = absurd (omega (arith, k))
    wait_ends (suc fuel) h k =
        loop_ends fuel (w.now (read_clock ∷ h) + w.add_members_timeout) (read_clock ∷ h)
          (omega (arith, k))

    wait_Grows : (fuel : ℕ) → Grows (wait_for_primary w fuel)
    unfolding wait_for_primary Grows
    wait_Grows fuel h =
        let x = clock_runs.forward read_clock h in
        let y = loop_Grows fuel (w.now (read_clock ∷ h) + w.add_members_timeout) (read_clock ∷ h) in
        omega (arith, x, y)

    once-Grows : (rounds : ℕ) (script : String) → Grows (initialize_once w rounds script)
    once-Grows rounds script =
        >>=-Grows (run_mongosh w script local) (λ _. wait_for_primary w rounds >> pure true)
          (mongosh_Grows script local)
          (λ _.
            >>=-Grows (wait_for_primary w rounds) (λ _. pure true) (wait_Grows rounds)
              (λ _. still true))

    once_ends :
        (rounds : ℕ) (script : String) (h : History)
        → w.add_members_timeout < rounds
        → (initialize_once w rounds script h).0 ≢ unfinished
    once_ends rounds script h k =
        >>=-finished (run_mongosh w script local) (λ _. wait_for_primary w rounds >> pure true) h
          (mongosh_ends script local h)
          (λ _.
            let mid = (run_mongosh w script local h).1 in
            >>=-finished (wait_for_primary w rounds) (λ _. pure true) mid (wait_ends rounds mid k)
              (λ _ q. cc q))

    retry_ends :
        (rest : Action Bool) (message : String) (h : History)
        → (rest (sleep 2000 ∷ h)).0 ≢ unfinished
        → (retry w rest message h).0 ≢ unfinished
    retry_ends rest message h k = elim (Bool-cases (is_transient message)) [
      | inl t ↦ rw t k
      | inr t ↦ rw t (λ q. cc q)
    ]

    initialize_ends :
        (rounds fuel deadline : ℕ) (script : String) (last_error : Option String) (h : History)
        → w.add_members_timeout < rounds
        → deadline < w.now h + suc fuel
        → (initialize_loop w rounds (suc fuel) deadline script last_error h).0 ≢ unfinished
    unfolding initialize_loop Grows
    initialize_ends rounds zero deadline script last_error h enough k =
        rw
          (time_is_up deadline (w.now h) (w.now (read_clock ∷ h)) k
            (clock_runs.forward read_clock h))
          (λ q. cc q)
    initialize_ends rounds (suc fuel) deadline script last_error h enough k =
        let seen = read_clock ∷ h in
        let mid = (initialize_once w rounds script seen).1 in
        elim (Bool-cases (ltb (w.now seen) deadline)) [
          | inl e ↦ rw e (
              rescue-finished (initialize_once w rounds script)
                (λ message.
                  retry w (initialize_loop w rounds (suc fuel) deadline script (some message))
                    message)
                seen (once_ends rounds script seen enough)
                (λ message.
                  retry_ends (initialize_loop w rounds (suc fuel) deadline script (some message))
                    message mid
                    (initialize_ends rounds fuel deadline script (some message) (sleep 2000 ∷ mid)
                      enough
                      (later_round 2000 fuel deadline (w.now h) (w.now seen) (w.now mid)
                        (w.now (sleep 2000 ∷ mid)) (omega arith) k (clock_runs.forward read_clock h)
                        (once-Grows rounds script seen) (clock_runs.slept 2000 mid)))))
          | inr e ↦ rw e (λ q. cc q)
        ]

    within_fuel :
        (rounds fuel : ℕ) (script : String) (h : History)
        → w.add_members_timeout < rounds
        → w.add_members_timeout < fuel
        → (initialize_loop w rounds fuel (w.now h + w.add_members_timeout) script none h).0
          ≢ unfinished
    within_fuel rounds zero script h enough k = absurd (omega (arith, k))
    within_fuel rounds (suc fuel) script h enough k =
        initialize_ends rounds fuel (w.now h + w.add_members_timeout) script none h enough
          (omega (arith, k))

    -- On a clock that goes forward, and with more rounds of fuel than the wait has milliseconds, the
    -- initialisation of a replica set returns or raises, whatever the servers answer and however
    -- often an initialize_once fails.
    pub initialize_replica_set_ends :
        (fuel : ℕ) (c : Option Cluster) (members : List String) (h : History)
        → w.add_members_timeout < fuel
        → (initialize_replica_set w fuel c members h).0 ≢ unfinished
    unfolding initialize_replica_set
    initialize_replica_set_ends fuel c members h enough =
        elim (Bool-cases (is_blank (or_blank (cluster_or_empty c).replica_set_name))) [
          | inl k ↦ rw k (λ q. cc q)
          | inr k ↦
              rw k
                (within_fuel fuel fuel (initiate_script w c members) (read_clock ∷ h) enough enough)
        ]
