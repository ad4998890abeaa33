-- ===== src/Mongo/Members/Primary.antt =====
-- What a wait for a primary has seen when it returns.
use Prim.Native.String.{String}
use yggdrasil_home.Base.{
  ◌≡◌, subst, ℕ, zero, suc, ◌+◌, Bool, true, false, Option, none, some, List, ◌∷◌, strip, ltb, inl,
  inr, Bool-cases, Option-cases, is_blank,
}
use yggdrasil_home.Base.Run.{returned, pure, returned_inj, rescue-parts, >>=-parts, ◌>>◌}
use yggdrasil_home.Mongo.Guest.{History, World, mongosh, read_clock, sleep}
use yggdrasil_home.Mongo.Service.{Cluster, cluster_or_empty, or_blank}
use yggdrasil_home.Mongo.Members.{
  initialize_once, initialize_loop, initialize_replica_set, initiate_script, is_transient, local,
  looks_primary, primary_loop, primary_round, retry, run_mongosh, shows_primary, state_script,
  wait_for_primary,
}

module _ (w : World) where
  -- The latest event asks the server for its state, and the answer is that of a primary.
  pub data IsPrimary : History → Type 0 where
    seen :
        {h : History}
        → w.fails (mongosh local state_script ∷ h) ≡ none
        → shows_primary (strip (w.says (mongosh local state_script ∷ h))) ≡ true
        → IsPrimary (mongosh local state_script ∷ h)

  look_IsPrimary :
      (h later : History) → looks_primary w h ≡ (returned true, later) → IsPrimary later
  unfolding run_mongosh
  look_IsPrimary h later e = elim (Option-cases (w.fails (mongosh local state_script ∷ h))) [
    | inl k ↦ let (shows, same) = returned_inj (rw k at e) in subst IsPrimary same (seen k shows)
    | inr (message, k) ↦ cc (rw k at e)
  ]

  loop_IsPrimary :
      (fuel deadline : ℕ) (h later : History)
      → primary_loop w fuel deadline h ≡ (returned tt, later)
      → IsPrimary later
  unfolding primary_loop
  loop_IsPrimary zero deadline h later e = cc e
  loop_IsPrimary (suc fuel) deadline h later e =
      let now = w.now (read_clock ∷ h) in
      elim (Bool-cases (ltb now deadline)) [
        | inl k ↦
            let (b, mid, l, m) =
              >>=-parts (looks_primary w) (primary_round w (primary_loop w fuel deadline))
                (read_clock ∷ h) (rw k at e) in
            by_look b mid l m (loop_IsPrimary fuel deadline)
        | inr k ↦ cc (rw k at e)
      ]
    where
      by_look :
          (b : Bool) (mid : History)
          → looks_primary w (read_clock ∷ h) ≡ (returned b, mid)
          → primary_round w (primary_loop w fuel deadline) b mid ≡ (returned tt, later)
          → ((start end : History)
              → primary_loop w fuel deadline start ≡ (returned tt, end)
              → IsPrimary end)
          → IsPrimary later
      by_look true mid l m ih =
          let (_, same) = returned_inj m in
          subst IsPrimary same (look_IsPrimary (read_clock ∷ h) mid l)
      by_look false mid l m ih = ih (sleep 2000 ∷ mid) later m

  wait_IsPrimary :
      (fuel : ℕ) (h later : History)
      → wait_for_primary w fuel h ≡ (returned tt, later)
      → IsPrimary later
  unfolding wait_for_primary
  wait_IsPrimary fuel h later e =
      loop_IsPrimary fuel (w.now (read_clock ∷ h) + w.add_members_timeout) (read_clock ∷ h) later e

  once-IsPrimary :
      (rounds : ℕ) (script : String) (h later : History)
      → initialize_once w rounds script h ≡ (returned true, later)
      → IsPrimary later
  once-IsPrimary rounds script h later e =
      let (output, mid, l, m) =
        >>=-parts (run_mongosh w script local) (λ _. wait_for_primary w rounds >> pure true) h e in
      let (done, last, n, o) = >>=-parts (wait_for_primary w rounds) (λ _. pure true) mid m in
      let (_, same) = returned_inj o in subst IsPrimary same (wait_IsPrimary rounds mid last n)

  initialize_IsPrimary :
      (rounds fuel deadline : ℕ) (script : String) (last_error : Option String) (h later : History)
      → initialize_loop w rounds fuel deadline script last_error h ≡ (returned true, later)
      → IsPrimary later
  unfolding initialize_loop
  initialize_IsPrimary rounds zero deadline script last_error h later e = cc e
  initialize_IsPrimary rounds (suc fuel) deadline script last_error h later e =
      elim (Bool-cases (ltb (w.now (read_clock ∷ h)) deadline)) [
        | inl k ↦
            elim (rescue-parts (initialize_once w rounds script)
              (λ message.
                retry w (initialize_loop w rounds fuel deadline script (some message)) message)
              (read_clock ∷ h) (rw k at e)) [
                | inl l ↦ once-IsPrimary rounds script (read_clock ∷ h) later l
                | inr (message, mid, l, m) ↦
                    by_message message mid m
                      (initialize_IsPrimary rounds fuel deadline script (some message))
              ]
        | inr k ↦ cc (rw k at e)
      ]
    where
      by_message :
          (message : String) (mid : History)
          → retry w (initialize_loop w rounds fuel deadline script (some message)) message mid
            ≡ (returned true, later)
          → ((start end : History)
              → initialize_loop w rounds fuel deadline script (some message) start
                ≡ (returned true, end)
              → IsPrimary end)
          → IsPrimary later
      by_message message mid m ih = elim (Bool-cases (is_transient message)) [
        | inl k ↦ ih (sleep 2000 ∷ mid) later (rw k at m)
        | inr k ↦ cc (rw k at m)
      ]

  -- When a replica set is initialised, the last thing that was asked of the server is its state, and
  -- it answered that it is the primary, whatever was retried before.
  pub initialize_replica_set-IsPrimary :
      (fuel : ℕ) (c : Option Cluster) (members : List String) (h later : History)
      → initialize_replica_set w fuel c members h ≡ (returned true, later)
      → IsPrimary later
  unfolding initialize_replica_set
  initialize_replica_set-IsPrimary fuel c members h later e =
      elim (Bool-cases (is_blank (or_blank (cluster_or_empty c).replica_set_name))) [
        | inl k ↦ cc (rw k at e)
        | inr k ↦
            initialize_IsPrimary fuel fuel (w.now (read_clock ∷ h) + w.add_members_timeout)
              (initiate_script w c members) none (read_clock ∷ h) later (rw k at e)
      ]
