-- ===== src/Deletion/Execute.antt =====
-- Running a plan: `_run_openstack`, the router's ports, the wait for a stack, and `execute_plan`.
pub mod Ends
pub mod Gone
pub mod Router
pub mod Succeeded
pub mod Confirmed
use Prim.Native.String.{String}
use yggdrasil_home.Base.{
  ℕ, zero, suc, ◌+◌, Bool, true, false, not, ◌&&◌, ◌||◌, Option, none, some, List, [], ◌∷◌, ◌++◌,
  map, ◌==◌, ◌<>◌, eqb, ltb, leb, Char, code, if◌then◌else◌, is_blank, or_text, keep, join, strip,
  lower,
}
use yggdrasil_home.Base.Int.{is_zero}
use yggdrasil_home.Deletion.World.{
  World, Completed, Run, pure, out_of_fuel, ◌>>=◌, ◌>>◌, run, monotonic, record_event, sleep, say,
  output_of, exit_text, missing_output, whole_seconds, go_on, connect, Answer, returned, raised,
  call,
}
use yggdrasil_home.Deletion.Commands.{Resource}
use yggdrasil_home.Deletion.Plan.{Operation}
use yggdrasil_home.Deletion.Senlin.{delete_senlin_resource}

is_line_break : Char → Bool
is_line_break c =
    let n = code c in
    (leb 10 n && leb n 13) || (leb 28 n && leb n 30) || eqb n 133 || eqb n 8232 || eqb n 8233

abbrev push_char : Char → List String → List String
push_char c [] = String.◌∷◌ c "" ∷ []
push_char c (line ∷ lines) = String.◌∷◌ c line ∷ lines

-- Every line break is white space, and blank lines are dropped, so "\r\n" may count as two.
split_lines : String → List String
unfolding is_line_break
split_lines String.[] = []
split_lines (String.◌∷◌ c s) =
    let lines = split_lines s in if is_line_break c then "" ∷ lines else push_char c lines

-- `[line.strip() for line in text.splitlines() if line.strip()]`
unfoldable pub stripped_lines : String → List String
unfolding split_lines keep strip
stripped_lines s = keep (λ line. not (is_blank line)) (map strip (split_lines s))

module _ (w : World) (openstack_bin : String) where
  -- What `_run_openstack` makes of a completed process.
  unfoldable pub verdict : Bool → Completed → Bool × String
  unfolding is_zero output_of exit_text missing_output
  verdict allow_missing c =
      if is_zero c.returncode
      then (true, output_of c)
      else if allow_missing && missing_output (output_of c)
      then (true, output_of c)
      else (false, or_text (output_of c) (exit_text c))

  unfoldable pub run_openstack : List String → Run (Bool × String)
  unfolding verdict
  run_openstack argv = do completed ← run w (openstack_bin ∷ argv); pure (verdict true completed)

  abbrev pub ports_argv : String → List String
  ports_argv router_id =
      "port" ∷ "list" ∷ "--router" ∷ router_id ∷ "-f" ∷ "value" ∷ "-c" ∷ "ID" ∷ []

  -- The ports, or the error.
  unfoldable pub ports_of : Completed → List String × Option String
  unfolding is_zero output_of exit_text missing_output stripped_lines
  ports_of c =
      if not (is_zero c.returncode) && not (missing_output (output_of c))
      then ([], some (or_text (output_of c) (exit_text c)))
      else (stripped_lines c.stdout, none)

  unfoldable pub router_ports : String → Run (List String × Option String)
  unfolding ports_of
  router_ports router_id = do
    completed ← run w (openstack_bin ∷ ports_argv router_id)
    pure (ports_of completed)

  abbrev error_if : Bool × String → String → List String
  error_if (true, detail) prefix = []
  error_if (false, detail) prefix = (prefix <> (": " <> detail)) ∷ []

  unfoldable pub remove_ports : String → List String → Run (List String)
  unfolding run_openstack
  remove_ports router [] = pure []
  remove_ports router (port ∷ ports) = do
    result ← run_openstack ("router" ∷ "remove" ∷ "port" ∷ router ∷ port ∷ [])
    errors ← remove_ports router ports
    pure (error_if result ("router " <> (router <> (": remove port " <> port))) ++ errors)

  unfoldable pub run_each : String → List (List String) → Run (List String)
  unfolding run_openstack join
  run_each router [] = pure []
  run_each router (argv ∷ rest) = do
    result ← run_openstack argv
    errors ← run_each router rest
    pure (error_if result ("router " <> (router <> (": " <> join " " argv))) ++ errors)

  abbrev pub label : Resource → String
  label r = r.service <> ("/" <> (r.resource <> ("/" <> r.identifier)))

  abbrev router_steps : String → List (List String)
  router_steps router =
      ("router" ∷ "unset" ∷ "--external-gateway" ∷ router ∷ [])
      ∷ ("router" ∷ "delete" ∷ router ∷ [])
      ∷ []

  -- `delete_router` after the ports are listed.
  unfoldable pub delete_router_with : Resource → List String × Option String → Run (List String)
  unfolding remove_ports run_each
  delete_router_with r (ports, some error) = pure ((label r <> (": " <> error)) ∷ [])
  delete_router_with r (ports, none) = do
    port_errors ← remove_ports r.identifier ports
    errors ← run_each r.identifier (router_steps r.identifier)
    pure (port_errors ++ errors)

  unfoldable pub delete_router : Resource → Run (List String)
  unfolding router_ports delete_router_with
  delete_router r = router_ports r.identifier >>= delete_router_with r

  abbrev pub stack_argv : String → List String
  stack_argv stack_id = "stack" ∷ "show" ∷ stack_id ∷ "-f" ∷ "value" ∷ "-c" ∷ "stack_status" ∷ []

  -- One look at the stack: what the loop returns, or that it goes on.
  unfoldable pub stack_verdict : Completed → Option (Option String)
  unfolding is_zero output_of exit_text missing_output lower strip
  stack_verdict c =
      let output = output_of c in
      let status = lower (strip c.stdout) in
      if not (is_zero c.returncode) && missing_output output
      then some none
      else if not (is_zero c.returncode)
      then some (some (or_text output (exit_text c)))
      else if status == "delete_complete"
      then some none
      else if status == "delete_failed"
      then some (some (or_text output "stack deletion failed"))
      else none

  abbrev remained : ℕ → Option String
  remained timeout = some ("stack remained visible after " <> (whole_seconds timeout <> " seconds"))

  -- A round from the look on; `rest` is the next round.
  unfoldable pub after_show : ℕ → Run (Option String) → Completed → Run (Option String)
  unfolding stack_verdict
  after_show poll rest c = go_on (stack_verdict c) (record_event (sleep poll) >> rest)

  -- The `while`, on fuel.
  unfoldable pub stack_loop : ℕ → String → (deadline timeout poll : ℕ) → Run (Option String)
  unfolding after_show whole_seconds
  stack_loop zero stack_id deadline timeout poll = out_of_fuel
  stack_loop (suc fuel) stack_id deadline timeout poll =
      let rest = stack_loop fuel stack_id deadline timeout poll in
      do
        time ← monotonic w
        if ltb time deadline
            then run w (openstack_bin ∷ stack_argv stack_id) >>= after_show poll rest
            else pure (remained timeout)

  unfoldable pub wait_for_stack_delete : ℕ → String → (timeout poll : ℕ) → Run (Option String)
  unfolding stack_loop
  wait_for_stack_delete fuel stack_id timeout poll = do
    start ← monotonic w
    stack_loop fuel stack_id (start + timeout) timeout poll

  module _ (fuel wait_seconds poll_seconds : ℕ) where
    abbrev stack_errors : String → Option String → List String
    stack_errors id none = []
    stack_errors id (some error) = ("stack " <> (id <> (": " <> error))) ∷ []

    abbrev is_stack : Resource → Bool
    is_stack r = (r.service == "orchestration") && (r.resource == "stack")

    -- A resource that one command deletes; a stack is also waited for.
    unfoldable pub after_command : Resource → Bool × String → Run (List String)
    unfolding wait_for_stack_delete
    after_command r (false, detail) = pure ((label r <> (": " <> detail)) ∷ [])
    after_command r (true, detail) =
        if is_stack r
        then (do
          error ← wait_for_stack_delete fuel r.identifier wait_seconds poll_seconds
          pure (stack_errors r.identifier error))
        else pure []

    unfoldable pub delete_by_command : Operation → Run (List String)
    unfolding run_openstack after_command
    delete_by_command op = run_openstack op.argv >>= after_command op.resource

    abbrev announce : Operation → String
    announce op =
        "Deleting "
        <> (op.resource.service
            <> ("/"
                <> (op.resource.resource
                    <> (" " <> (op.resource.identifier <> (": " <> join " " op.argv))))))

    -- Whether the clustering proxy is there, and the errors of one operation.
    abbrev connected_to : Answer → Bool × List String
    connected_to (returned id status) = (true, [])
    connected_to (raised class_name) =
        (false, ("clustering: unable to initialize OpenStack SDK (" <> (class_name <> ")")) ∷ [])

    -- `if clustering is None: …`; the flag says that the proxy was made before.
    unfoldable pub ensure_clustering : Bool → Run (Bool × List String)
    ensure_clustering true = pure (true, [])
    ensure_clustering false = do answer ← call w connect; pure (connected_to answer)

    delete_when_connected : Resource → Bool × List String → Run (Bool × List String)
    unfolding delete_senlin_resource
    delete_when_connected r (false, errors) = pure (false, errors)
    delete_when_connected r (true, errors) = do
      more ← delete_senlin_resource w fuel wait_seconds poll_seconds r
      pure (true, more)

    abbrev not_clustering : Bool → Operation → Run (Bool × List String)
    not_clustering clustering op = do
      errors ←
          if op.resource.resource == "router"
          then delete_router op.resource
          else delete_by_command op
      pure (clustering, errors)

    -- The body of the loop of `execute_plan`.
    unfoldable pub execute_one : Bool → Operation → Run (Bool × List String)
    unfolding ensure_clustering delete_when_connected delete_router delete_by_command join
    execute_one clustering op =
        record_event (say (announce op))
        >> (if op.resource.service == "clustering"
            then ensure_clustering clustering >>= delete_when_connected op.resource
            else (do
              errors ←
                  if op.resource.resource == "router"
                  then delete_router op.resource
                  else delete_by_command op
              pure (clustering, errors)))

    unfoldable pub execute_from : Bool → List Operation → Run (List String)
    unfolding execute_one
    execute_from clustering [] = pure []
    execute_from clustering (op ∷ ops) = do
      (clustering', errors) ← execute_one clustering op
      more ← execute_from clustering' ops
      pure (errors ++ more)

    unfoldable pub execute_plan : List Operation → Run (List String)
    unfolding execute_from
    execute_plan = execute_from false
