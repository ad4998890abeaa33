-- ===== src/Deletion/Execute/Ends.antt =====
-- The loops of an execution, the clock that they go by and their fuel.
use yggdrasil_home.Base.{
  ℕ, suc, zero, ◌+◌, ◌<◌, ◌≤◌, ◌≢◌, Bool, true, false, Option, none, some, List, [], ◌∷◌, String,
  Bool-cases, arith, ltb, inl, inr, ◌==◌, ◌++◌, if◌then◌else◌,
}
use yggdrasil_home.Deletion.World.{
  connect, World, command, read_clock, sleep, History, Started, completed, not_started, as_run,
  call, run, unfinished, Run, ◌>>=◌, ◌>>◌, pure, record_event,
}
use yggdrasil_home.Deletion.World.Ends.{
  Ends, Ends-done, Ends-record, Ends-bind, Ends-if, go_on_ends, Clock, run-Ends, call-Ends,
}
use yggdrasil_home.Deletion.Senlin.Ends.{delete_senlin_resource-Ends}
use yggdrasil_home.Base.Deadline.{time_is_up, later_round}
use yggdrasil_home.Deletion.Commands.{Resource}
use yggdrasil_home.Deletion.Plan.{Operation}
use yggdrasil_home.Deletion.Senlin.{delete_senlin_resource}
use yggdrasil_home.Deletion.Execute.{
  verdict, run_openstack, ports_of, router_ports, remove_ports, run_each, router_steps,
  delete_router_with, delete_router, stack_argv, after_show, stack_verdict, stack_loop,
  wait_for_stack_delete, after_command, delete_by_command, is_stack, ensure_clustering,
  delete_when_connected, stack_errors, not_clustering, execute_one, execute_from, execute_plan,
  ports_argv, connected_to,
}

module _ (w : World) (openstack_bin : String) where
  show_ends :
      (s : Started) (h : History) (poll : ℕ) (rest : Run (Option String))
      → (rest (sleep poll ∷ h)).0 ≢ unfinished
      → ((as_run s >>= after_show w openstack_bin poll rest) h).0 ≢ unfinished
  unfolding after_show
  show_ends (not_started message) h poll rest k = λ e. cc e
  show_ends (completed c) h poll rest k =
      go_on_ends h (stack_verdict w openstack_bin c) (record_event (sleep poll) >> rest) k

  module _ (clock : Clock w) (poll : ℕ) (positive : 1 ≤ poll) where
    stack_loop_ends :
        (fuel : ℕ) (id : String) (deadline timeout : ℕ) (h : History)
        → deadline < w.now h + suc fuel
        → (stack_loop w openstack_bin (suc fuel) id deadline timeout poll h).0 ≢ unfinished
    unfolding stack_loop
    stack_loop_ends zero id deadline timeout h k =
        rw (time_is_up deadline (w.now h) (w.now (read_clock ∷ h)) k (clock.forward read_clock h))
          (λ q. cc q)
    stack_loop_ends (suc fuel) id deadline timeout h k =
        let seen = read_clock ∷ h in
        let shown = command (openstack_bin ∷ stack_argv w openstack_bin id) ∷ seen in
        elim (Bool-cases (ltb (w.now seen) deadline)) [
          | inl e ↦ rw e (
              show_ends (w.reply shown) shown poll
                (stack_loop w openstack_bin (suc fuel) id deadline timeout poll)
                (stack_loop_ends fuel id deadline timeout (sleep poll ∷ shown) (
                  later_round poll fuel deadline (w.now h) (w.now seen) (w.now shown)
                    (w.now (sleep poll ∷ shown)) positive k (clock.forward read_clock h)
                    (clock.forward _ seen) (clock.slept poll shown))))
          | inr e ↦ rw e (λ q. cc q)
        ]

    wait_for_stack_delete-Ends :
        (fuel : ℕ) (id : String) (timeout : ℕ)
        → timeout < fuel
        → Ends (wait_for_stack_delete w openstack_bin fuel id timeout poll)
    unfolding wait_for_stack_delete
    wait_for_stack_delete-Ends zero id timeout k = absurd (omega (arith, k))
    wait_for_stack_delete-Ends (suc fuel) id timeout k = record {
      at = λ h.
          stack_loop_ends fuel id (w.now (read_clock ∷ h) + timeout) timeout (read_clock ∷ h)
            (omega (arith, k));
    }

  run_openstack-Ends : (argv : List String) → Ends (run_openstack w openstack_bin argv)
  unfolding run_openstack
  run_openstack-Ends argv =
      Ends-bind (run w (openstack_bin ∷ argv)) (λ c. pure (verdict w openstack_bin true c))
        (run-Ends w (openstack_bin ∷ argv)) (λ c. Ends-done (verdict w openstack_bin true c))

  more_errors-Ends :
      (m : Run (List String)) (errors : List String)
      → Ends m
      → Ends (m >>= λ more. pure (errors ++ more))
  more_errors-Ends m errors k =
      Ends-bind m (λ more. pure (errors ++ more)) k (λ more. Ends-done (errors ++ more))

  remove_ports-Ends :
      (router : String) (ports : List String) → Ends (remove_ports w openstack_bin router ports)
  unfolding remove_ports
  remove_ports-Ends router [] = Ends-done []
  remove_ports-Ends router (port ∷ ports) =
      Ends-bind (run_openstack w openstack_bin ("router" ∷ "remove" ∷ "port" ∷ router ∷ port ∷ []))
        _ (run_openstack-Ends _)
        (λ result.
          more_errors-Ends (remove_ports w openstack_bin router ports) _
            (remove_ports-Ends router ports))

  run_each-Ends :
      (router : String) (argvs : List (List String)) → Ends (run_each w openstack_bin router argvs)
  unfolding run_each
  run_each-Ends router [] = Ends-done []
  run_each-Ends router (argv ∷ rest) =
      Ends-bind (run_openstack w openstack_bin argv) _ (run_openstack-Ends argv) (λ result.
        more_errors-Ends (run_each w openstack_bin router rest) _ (run_each-Ends router rest))

  delete_router_with-Ends :
      (r : Resource) (found : List String × Option String)
      → Ends (delete_router_with w openstack_bin r found)
  unfolding delete_router_with
  delete_router_with-Ends r (ports, some error) = Ends-done _
  delete_router_with-Ends r (ports, none) =
      Ends-bind (remove_ports w openstack_bin r.identifier ports) _
        (remove_ports-Ends r.identifier ports)
        (λ port_errors.
          more_errors-Ends
            (run_each w openstack_bin r.identifier (router_steps w openstack_bin r.identifier))
            port_errors (run_each-Ends r.identifier (router_steps w openstack_bin r.identifier)))

  delete_router-Ends : (r : Resource) → Ends (delete_router w openstack_bin r)
  unfolding delete_router router_ports
  delete_router-Ends r =
      Ends-bind (router_ports w openstack_bin r.identifier) (delete_router_with w openstack_bin r)
        (Ends-bind (run w (openstack_bin ∷ ports_argv w openstack_bin r.identifier))
          (λ c. pure (ports_of w openstack_bin c)) (run-Ends w _)
          (λ c. Ends-done (ports_of w openstack_bin c)))
        (delete_router_with-Ends r)

  module _ (clock : Clock w) (poll : ℕ) (positive : 1 ≤ poll) (fuel wait : ℕ)
      (enough : wait < fuel) where
    after_command-Ends :
        (r : Resource) (result : Bool × String)
        → Ends (after_command w openstack_bin fuel wait poll r result)
    unfolding after_command
    after_command-Ends r (false, detail) = Ends-done _
    after_command-Ends r (true, detail) =
        Ends-if (is_stack w openstack_bin fuel wait poll r) _ _
          (Ends-bind (wait_for_stack_delete w openstack_bin fuel r.identifier wait poll) _
            (wait_for_stack_delete-Ends clock poll positive fuel r.identifier wait enough)
            (λ error. Ends-done (stack_errors w openstack_bin fuel wait poll r.identifier error)))
          (Ends-done [])

    delete_by_command-Ends :
        (op : Operation) → Ends (delete_by_command w openstack_bin fuel wait poll op)
    unfolding delete_by_command
    delete_by_command-Ends op =
        Ends-bind (run_openstack w openstack_bin op.argv)
          (after_command w openstack_bin fuel wait poll op.resource) (run_openstack-Ends op.argv)
          (after_command-Ends op.resource)

    ensure_clustering-Ends : (b : Bool) → Ends (ensure_clustering w openstack_bin fuel wait poll b)
    unfolding ensure_clustering
    ensure_clustering-Ends true = Ends-done _
    ensure_clustering-Ends false =
        Ends-bind (call w connect)
          (λ answer. pure (connected_to w openstack_bin fuel wait poll answer))
          (call-Ends w connect) (λ answer. Ends-done _)

    delete_when_connected-Ends :
        (r : Resource) (found : Bool × List String)
        → Ends (delete_when_connected w openstack_bin fuel wait poll r found)
    unfolding delete_when_connected
    delete_when_connected-Ends r (false, errors) = Ends-done _
    delete_when_connected-Ends r (true, errors) =
        Ends-bind (delete_senlin_resource w fuel wait poll r) (λ more. pure (true, more))
          (delete_senlin_resource-Ends w clock poll positive fuel wait enough r)
          (λ more. Ends-done (true, more))

    not_clustering-Ends :
        (b : Bool) (op : Operation) → Ends (not_clustering w openstack_bin fuel wait poll b op)
    not_clustering-Ends b op =
        Ends-bind
          (if op.resource.resource == "router"
            then delete_router w openstack_bin op.resource
            else delete_by_command w openstack_bin fuel wait poll op)
          (λ errors. pure (b, errors))
          (Ends-if (op.resource.resource == "router") _ _ (delete_router-Ends op.resource)
            (delete_by_command-Ends op))
          (λ errors. Ends-done (b, errors))

    execute_one-Ends :
        (b : Bool) (op : Operation) → Ends (execute_one w openstack_bin fuel wait poll b op)
    unfolding execute_one
    execute_one-Ends b op = Ends-bind _ _ (Ends-record _) λ _.
        Ends-if (op.resource.service == "clustering")
          (ensure_clustering w openstack_bin fuel wait poll b
            >>= delete_when_connected w openstack_bin fuel wait poll op.resource)
          (not_clustering w openstack_bin fuel wait poll b op)
          (Ends-bind _ _ (ensure_clustering-Ends b) (delete_when_connected-Ends op.resource))
          (not_clustering-Ends b op)

    execute_from-Ends :
        (b : Bool) (ops : List Operation) → Ends (execute_from w openstack_bin fuel wait poll b ops)
    unfolding execute_from
    execute_from-Ends b [] = Ends-done []
    execute_from-Ends b (op ∷ ops) =
        Ends-bind (execute_one w openstack_bin fuel wait poll b op) _ (execute_one-Ends b op)
          (λ (b', errors).
            more_errors-Ends (execute_from w openstack_bin fuel wait poll b' ops) errors
              (execute_from-Ends b' ops))

    pub execute_plan-Ends :
        (ops : List Operation) → Ends (execute_plan w openstack_bin fuel wait poll ops)
    unfolding execute_plan
    execute_plan-Ends ops = execute_from-Ends false ops
