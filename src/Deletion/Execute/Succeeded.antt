-- ===== src/Deletion/Execute/Succeeded.antt =====
-- What a deletion command has seen when it gives no error.
use yggdrasil_home.Base.{
  ◌≡◌, refl, ap, ◌∙◌, Bool, true, false, List, [], ◌∷◌, ◌++◌, String, Bool-cases, ◌⊎◌, inl, inr,
}
use yggdrasil_home.Base.Int.{is_zero}
use yggdrasil_home.Deletion.World.{
  World, command, History, Completed, Started, completed, not_started, as_run, done, Run, ◌>>=◌,
  pure, output_of, missing_output,
}
use yggdrasil_home.Deletion.World.Effects.{follow, done_inj}
use yggdrasil_home.Deletion.Plan.Complete.{append-eq-nil}
use yggdrasil_home.Deletion.Execute.{verdict, run_openstack, error_if}

module _ (w : World) (openstack_bin : String) where
  -- The client's answer is success, or that there is no such thing.
  abbrev pub IsFine : Completed → Type 0
  IsFine c = (is_zero c.returncode ≡ true) ⊎ (missing_output (output_of c) ≡ true)

  -- From one history to the other a command was run, which succeeded or found no such thing.
  pub data Ran (argv : List String) (before : History) : History → Type 0 where
    ran :
        (c : Completed)
        → w.reply (command (openstack_bin ∷ argv) ∷ before) ≡ completed c
        → IsFine c
        → Ran argv before (command (openstack_bin ∷ argv) ∷ before)

  verdict-fine :
      (c : Completed) {detail : String}
      → verdict w openstack_bin true c ≡ (true, detail)
      → (is_zero c.returncode ≡ true) ⊎ (missing_output (output_of c) ≡ true)
  unfolding verdict
  verdict-fine c e = elim (Bool-cases (is_zero c.returncode)) [
    | inl z ↦ inl z
    | inr z ↦ elim (Bool-cases (missing_output (output_of c))) [
      | inl m ↦ inr m
      | inr m ↦ cc (ap (λ x. x.0) (rw (z, m) at e))
    ]
  ]

  pub run_openstack-Ran :
      (argv : List String) (h : History) {detail : String}
      → (run_openstack w openstack_bin argv h).0 ≡ done (true, detail)
      → Ran argv h (run_openstack w openstack_bin argv h).1
  unfolding run_openstack
  run_openstack-Ran argv h e = of_reply (w.reply (command (openstack_bin ∷ argv) ∷ h)) refl e
    where
      of_reply :
          (s : Started)
          → w.reply (command (openstack_bin ∷ argv) ∷ h) ≡ s
          → {detail : String}
          → ((as_run s >>= λ c. pure (verdict w openstack_bin true c))
              (command (openstack_bin ∷ argv) ∷ h)).0
            ≡ done (true, detail)
          → Ran argv h
              ((as_run s >>= λ c. pure (verdict w openstack_bin true c))
                (command (openstack_bin ∷ argv) ∷ h)).1
      of_reply (completed c) k q = ran c k (verdict-fine c (done_inj q))
      of_reply (not_started message) k q = cc q

  no_error :
      (result : Bool × String) (prefix : String)
      → error_if w openstack_bin result prefix ≡ []
      → (detail : String) × (result ≡ (true, detail))
  no_error (true, detail) prefix e = (detail, refl)
  no_error (false, detail) prefix e = cc e

  -- The errors of a first command and those of the rest.
  pub collected :
      (prefix : String) (argv : List String) (rest : Run (List String)) (h : History)
      → ((run_openstack w openstack_bin argv >>= λ result.
            rest >>= λ errors. pure (error_if w openstack_bin result prefix ++ errors))
          h).0
        ≡ done []
      → (h' : History) × Ran argv h h'
        × ((rest h').0 ≡ done [])
        × (((run_openstack w openstack_bin argv >>= λ result.
                rest >>= λ errors. pure (error_if w openstack_bin result prefix ++ errors))
              h).1
            ≡ (rest h').1)
  collected prefix argv rest h e =
      let f =
        follow (run_openstack w openstack_bin argv)
          (λ result. rest >>= λ errors. pure (error_if w openstack_bin result prefix ++ errors)) h
          e in
      let h' = (run_openstack w openstack_bin argv h).1 in
      let g =
        follow rest (λ errors. pure (error_if w openstack_bin f.first prefix ++ errors)) h'
          f.rest_eq in
      let (a, b) =
        append-eq-nil (error_if w openstack_bin f.first prefix) g.first (done_inj g.rest_eq) in
      let (detail, k) = no_error f.first prefix a in
      (
        h',
        run_openstack-Ran argv h (f.first_eq ∙ ap done k),
        g.first_eq ∙ ap done b,
        ap (λ x. x.1) f.same ∙ ap (λ x. x.1) g.same,
      )
