-- ===== src/Deletion/Execute/Confirmed.antt =====
-- What an execution without errors has done of its plan.
use yggdrasil_home.Base.{
  subst, ℕ, ◌≡◌, ◌≢◌, refl, ap, sym, ◌∙◌, arith, Bool, true, false, List, [], ◌∷◌, ◌++◌, String,
  Bool-cases, inl, inr, ◌==◌, ◌&&◌, eq_iff,
}
use yggdrasil_home.Deletion.World.{
  connect, World, say, History, done, ◌>>=◌, pure, Answer, returned, raised,
}
use yggdrasil_home.Deletion.World.Effects.{follow, done_inj}
use yggdrasil_home.Deletion.Plan.{Operation}
use yggdrasil_home.Deletion.Plan.Complete.{append-eq-nil}
use yggdrasil_home.Deletion.Senlin.{delete_senlin_resource}
use yggdrasil_home.Deletion.Senlin.Gone.{NotFound, delete_senlin_resource-NotFound}
use yggdrasil_home.Deletion.Execute.{
  run_openstack, router_ports, delete_router_with, delete_router, announce, wait_for_stack_delete,
  is_stack, after_command, delete_by_command, ensure_clustering, connected_to,
  delete_when_connected, not_clustering, execute_one, execute_from, execute_plan,
}
use yggdrasil_home.Deletion.Execute.Gone.{StackGone, wait_for_stack_delete-StackGone, stack_waited}
use yggdrasil_home.Deletion.Execute.Succeeded.{Ran, run_openstack-Ran}
use yggdrasil_home.Deletion.Execute.Router.{RouterGone, delete_router_with-RouterGone}

module _ (w : World) (openstack_bin : String) (fuel wait poll : ℕ) where
  -- The operation's end. A clustering resource is not found. For any other: a router's ports were
  -- listed and removed before it was deleted; a stack is gone; the command of the rest succeeded, or
  -- found no such thing.
  pub data Confirmed (op : Operation) (h : History) : Type 0 where
    not_found : op.resource.service ≡ "clustering" → NotFound w op.resource h → Confirmed op h
    router_gone :
        (op.resource.service == "clustering") ≡ false
        → op.resource.resource ≡ "router"
        → RouterGone w openstack_bin op.resource.identifier h
        → Confirmed op h
    stack_gone :
        (op.resource.service == "clustering") ≡ false
        → op.resource.resource ≡ "stack"
        → StackGone w openstack_bin op.resource.identifier h
        → Confirmed op h
    command_done :
        (before : History)
        → (op.resource.service == "clustering") ≡ false
        → (op.resource.resource == "router") ≡ false
        → ((op.resource.service == "orchestration") && (op.resource.resource == "stack")) ≡ false
        → Ran w openstack_bin op.argv before h
        → Confirmed op h

  -- The run of each operation starts where the one before it ended.
  pub data Executed : Bool → List Operation → History → History → Type 0 where
    finished : {b : Bool} {h : History} → Executed b [] h h
    executed :
        {b : Bool} {op : Operation} {ops : List Operation} {h final : History} (b' : Bool)
        → (execute_one w openstack_bin fuel wait poll b op h).0 ≡ done (b', [])
        → Confirmed op (execute_one w openstack_bin fuel wait poll b op h).1
        → Executed b' ops (execute_one w openstack_bin fuel wait poll b op h).1 final
        → Executed b (op ∷ ops) h final

  after_command-Confirmed :
      (op : Operation) (result : Bool × String) (before h : History)
      → (op.resource.service == "clustering") ≡ false
      → (op.resource.resource == "router") ≡ false
      → ((detail : String) → result ≡ (true, detail) → Ran w openstack_bin op.argv before h)
      → (after_command w openstack_bin fuel wait poll op.resource result h).0 ≡ done []
      → Confirmed op (after_command w openstack_bin fuel wait poll op.resource result h).1
  unfolding after_command
  after_command-Confirmed op (false, detail) before h c r s e = cc e
  after_command-Confirmed op (true, detail) before h c r s e =
      elim (Bool-cases (is_stack w openstack_bin fuel wait poll op.resource)) [
        | inl k ↦
            let waiting =
              wait_for_stack_delete w openstack_bin fuel op.resource.identifier wait poll in
            let (a, b) =
              stack_waited w openstack_bin fuel wait poll op.resource.identifier (waiting h).0
                (waiting h).1 (rw k at e) in
            rw k (
              stack_gone c (ground (arith, k, eq_iff op.resource.resource "stack")) (
                subst (StackGone w openstack_bin op.resource.identifier) (sym b) (
                  wait_for_stack_delete-StackGone w openstack_bin fuel op.resource.identifier wait
                    poll h a)))
        | inr k ↦ rw k (command_done before c r k (s detail refl))
      ]

  delete_by_command-Confirmed :
      (op : Operation) (h : History)
      → (op.resource.service == "clustering") ≡ false
      → (op.resource.resource == "router") ≡ false
      → (delete_by_command w openstack_bin fuel wait poll op h).0 ≡ done []
      → Confirmed op (delete_by_command w openstack_bin fuel wait poll op h).1
  unfolding delete_by_command
  delete_by_command-Confirmed op h c r e =
      let f =
        follow (run_openstack w openstack_bin op.argv)
          (after_command w openstack_bin fuel wait poll op.resource) h e in
      subst (Confirmed op) (sym (ap (λ x. x.1) f.same)) (
        after_command-Confirmed op f.first h (run_openstack w openstack_bin op.argv h).1 c r
          (λ detail k. run_openstack-Ran w openstack_bin op.argv h (f.first_eq ∙ ap done k))
          f.rest_eq)

  delete_router-Confirmed :
      (op : Operation) (h : History)
      → (op.resource.service == "clustering") ≡ false
      → op.resource.resource ≡ "router"
      → (delete_router w openstack_bin op.resource h).0 ≡ done []
      → Confirmed op (delete_router w openstack_bin op.resource h).1
  unfolding delete_router
  delete_router-Confirmed op h c k e =
      let f =
        follow (router_ports w openstack_bin op.resource.identifier)
          (delete_router_with w openstack_bin op.resource) h e in
      subst (Confirmed op) (sym (ap (λ x. x.1) f.same)) (
        router_gone c k (
          delete_router_with-RouterGone w openstack_bin op.resource f.first h f.first_eq f.rest_eq))

  connected-Confirmed :
      (op : Operation) (found : Bool × List String) (b : Bool) (h : History)
      → op.resource.service ≡ "clustering"
      → (found.0 ≡ false → found.1 ≢ [])
      → (delete_when_connected w openstack_bin fuel wait poll op.resource found h).0 ≡ done (b, [])
      → Confirmed op (delete_when_connected w openstack_bin fuel wait poll op.resource found h).1
  unfolding delete_when_connected
  connected-Confirmed op (false, errors) b h k n e = absurd (n refl (ap (λ x. x.1) (done_inj e)))
  connected-Confirmed op (true, errors) b h k n e =
      let f =
        follow (delete_senlin_resource w fuel wait poll op.resource) (λ more. pure (true, more)) h
          e in
      subst (Confirmed op) (sym (ap (λ x. x.1) f.same)) (
        not_found k (
          delete_senlin_resource-NotFound w op.resource fuel wait poll h
            (f.first_eq ∙ ap done (ap (λ x. x.1) (done_inj f.rest_eq)))))

  unconnected-IsError :
      (b : Bool) (h : History) (found : Bool × List String)
      → (ensure_clustering w openstack_bin fuel wait poll b h).0 ≡ done found
      → found.0 ≡ false
      → found.1 ≢ []
  unfolding ensure_clustering
  unconnected-IsError true h found e k n = cc (ap (λ x. x.0) (done_inj e), k)
  unconnected-IsError false h found e k n = of_answer (w.sdk (connect ∷ h)) (done_inj e)
    where
      of_answer : (a : Answer) → connected_to w openstack_bin fuel wait poll a ≡ found → ⊥
      of_answer (returned id status) q = cc (ap (λ x. x.0) q, k)
      of_answer (raised class_name) q = cc (ap (λ x. x.1) q, n)

  not_clustering-Confirmed :
      (b b' : Bool) (op : Operation) (h : History)
      → (op.resource.service == "clustering") ≡ false
      → (not_clustering w openstack_bin fuel wait poll b op h).0 ≡ done (b', [])
      → Confirmed op (not_clustering w openstack_bin fuel wait poll b op h).1
  not_clustering-Confirmed b b' op h c e = elim (Bool-cases (op.resource.resource == "router")) [
    | inl k ↦
        let f =
          follow (delete_router w openstack_bin op.resource) (λ errors. pure (b, errors)) h
            (rw k at e) in
        rw k (
          subst (Confirmed op) (sym (ap (λ x. x.1) f.same)) (
            delete_router-Confirmed op h c (ground (arith, k, eq_iff op.resource.resource "router"))
              (f.first_eq ∙ ap done (ap (λ x. x.1) (done_inj f.rest_eq)))))
    | inr k ↦
        let f =
          follow (delete_by_command w openstack_bin fuel wait poll op) (λ errors. pure (b, errors))
            h (rw k at e) in
        rw k (
          subst (Confirmed op) (sym (ap (λ x. x.1) f.same)) (
            delete_by_command-Confirmed op h c k
              (f.first_eq ∙ ap done (ap (λ x. x.1) (done_inj f.rest_eq)))))
  ]

  execute_one-Confirmed :
      (b b' : Bool) (op : Operation) (h : History)
      → (execute_one w openstack_bin fuel wait poll b op h).0 ≡ done (b', [])
      → Confirmed op (execute_one w openstack_bin fuel wait poll b op h).1
  unfolding execute_one
  execute_one-Confirmed b b' op h e =
      let said = say (announce w openstack_bin fuel wait poll op) ∷ h in
      elim (Bool-cases (op.resource.service == "clustering")) [
        | inl k ↦
            let f =
              follow (ensure_clustering w openstack_bin fuel wait poll b)
                (delete_when_connected w openstack_bin fuel wait poll op.resource) said
                (rw k at e) in
            rw k (
              subst (Confirmed op) (sym (ap (λ x. x.1) f.same)) (
                connected-Confirmed op f.first b'
                  (ensure_clustering w openstack_bin fuel wait poll b said).1
                  (ground (arith, k, eq_iff op.resource.service "clustering"))
                  (unconnected-IsError b said f.first f.first_eq) f.rest_eq))
        | inr k ↦ rw k (not_clustering-Confirmed b b' op said k (rw k at e))
      ]

  execute_from-Executed :
      (b : Bool) (ops : List Operation) (h : History)
      → (execute_from w openstack_bin fuel wait poll b ops h).0 ≡ done []
      → Executed b ops h (execute_from w openstack_bin fuel wait poll b ops h).1
  unfolding execute_from
  execute_from-Executed b [] h e = finished
  execute_from-Executed b (op ∷ ops) h e =
      let h1 = (execute_one w openstack_bin fuel wait poll b op h).1 in
      let f =
        follow (execute_one w openstack_bin fuel wait poll b op)
          (λ (b', errors).
            execute_from w openstack_bin fuel wait poll b' ops >>= λ more. pure (errors ++ more))
          h e in
      let g =
        follow (execute_from w openstack_bin fuel wait poll f.first.0 ops)
          (λ more. pure (f.first.1 ++ more)) h1 f.rest_eq in
      let (p, q) = append-eq-nil f.first.1 g.first (done_inj g.rest_eq) in
      let here_eq : (execute_one w openstack_bin fuel wait poll b op h).0 ≡ done (f.first.0, []) =
        f.first_eq ∙ ap (λ x. done (f.first.0, x)) p in
      subst (Executed b (op ∷ ops) h) (sym (ap (λ x. x.1) f.same ∙ ap (λ x. x.1) g.same)) (
        executed f.first.0 here_eq (execute_one-Confirmed b f.first.0 op h here_eq)
          (execute_from-Executed f.first.0 ops h1 (g.first_eq ∙ ap done q)))

  -- An execution that gives no error has run every operation of the plan in its order, each from
  -- where the one before it ended. A clustering resource was then not found; a router's ports were
  -- listed and removed one by one, its gateway unset, and the router deleted; a stack was gone; and
  -- the command of any other succeeded or found no such thing.
  pub execute_plan-Executed :
      (ops : List Operation) (h : History)
      → (execute_plan w openstack_bin fuel wait poll ops h).0 ≡ done []
      → Executed false ops h (execute_plan w openstack_bin fuel wait poll ops h).1
  unfolding execute_plan
  execute_plan-Executed ops h e = execute_from-Executed false ops h e
