-- ===== src/Deletion/Execute/Router.antt =====
-- What the deletion of a router has done when it gives no error.
use yggdrasil_home.Base.{
  subst, ◌≡◌, refl, ap, sym, ◌∙◌, Option, none, some, List, [], ◌∷◌, ◌++◌, String, Bool-cases, inl,
  inr, ◌<>◌, join,
}
use yggdrasil_home.Base.Int.{is_zero}
use yggdrasil_home.Deletion.World.{
  World, command, History, Completed, Started, completed, not_started, as_run, done, ◌>>=◌, pure,
  output_of, missing_output,
}
use yggdrasil_home.Deletion.World.Effects.{follow, done_inj}
use yggdrasil_home.Deletion.Commands.{Resource}
use yggdrasil_home.Deletion.Plan.Complete.{append-eq-nil}
use yggdrasil_home.Deletion.Execute.{
  remove_ports, run_each, router_steps, delete_router_with, ports_argv, ports_of, router_ports,
  stripped_lines,
}
use yggdrasil_home.Deletion.Execute.Succeeded.{Ran, IsFine, collected}

module _ (w : World) (openstack_bin : String) where
  -- Each of the ports in turn was removed from the router.
  pub data PortsRemoved (router : String) : List String → (before after : History) → Type 0 where
    none_left : {h : History} → PortsRemoved router [] h h
    removed :
        {port : String} {ports : List String} {before after : History} (between : History)
        → Ran w openstack_bin ("router" ∷ "remove" ∷ "port" ∷ router ∷ port ∷ []) before between
        → PortsRemoved router ports between after
        → PortsRemoved router (port ∷ ports) before after

  -- The router's ports were listed and then removed one by one, its gateway was unset, and last the
  -- router was deleted.
  pub data RouterGone (router : String) : History → Type 0 where
    router_deleted :
        (c : Completed) (before unlinked unset : History) {after : History}
        → w.reply (
            command (
              openstack_bin ∷ "port" ∷ "list" ∷ "--router" ∷ router ∷ "-f" ∷ "value" ∷ "-c" ∷ "ID"
              ∷ [])
            ∷ before)
          ≡ completed c
        → IsFine w openstack_bin c
        → PortsRemoved router
            (stripped_lines c.stdout)
            (command (
                openstack_bin ∷ "port" ∷ "list" ∷ "--router" ∷ router ∷ "-f" ∷ "value" ∷ "-c" ∷ "ID"
                ∷ [])
              ∷ before)
            unlinked
        → Ran w openstack_bin
            ("router" ∷ "unset" ∷ "--external-gateway" ∷ router ∷ [])
            unlinked
            unset
        → Ran w openstack_bin ("router" ∷ "delete" ∷ router ∷ []) unset after
        → RouterGone router after

  run_each_collected :
      (router : String) (argv : List String) (rest : List (List String)) (h : History)
      → (run_each w openstack_bin router (argv ∷ rest) h).0 ≡ done []
      → (h' : History) × Ran w openstack_bin argv h h'
        × ((run_each w openstack_bin router rest h').0 ≡ done [])
        × ((run_each w openstack_bin router (argv ∷ rest) h).1
            ≡ (run_each w openstack_bin router rest h').1)
  unfolding run_each
  run_each_collected router argv rest h e =
      collected w openstack_bin ("router " <> (router <> (": " <> join " " argv))) argv
        (run_each w openstack_bin router rest) h e

  run_each_two :
      (router : String) (first last : List String) (h : History)
      → (run_each w openstack_bin router (first ∷ last ∷ []) h).0 ≡ done []
      → (between : History) × Ran w openstack_bin first h between
        × Ran w openstack_bin last between (run_each w openstack_bin router (first ∷ last ∷ []) h).1
  unfolding run_each
  run_each_two router first last h e =
      let (h1, r, p, q) = run_each_collected router first (last ∷ []) h e in
      let (h2, s, _, t) = run_each_collected router last [] h1 p in
      (h1, r, subst (Ran w openstack_bin last h1) (sym (q ∙ t)) s)

  remove_ports-PortsRemoved :
      (router : String) (ports : List String) (h : History)
      → (remove_ports w openstack_bin router ports h).0 ≡ done []
      → PortsRemoved router ports h (remove_ports w openstack_bin router ports h).1
  unfolding remove_ports
  remove_ports-PortsRemoved router [] h e = none_left
  remove_ports-PortsRemoved router (port ∷ ports) h e =
      let (between, r, p, q) =
        collected w openstack_bin ("router " <> (router <> (": remove port " <> port)))
          ("router" ∷ "remove" ∷ "port" ∷ router ∷ port ∷ [])
          (remove_ports w openstack_bin router ports) h e in
      subst (PortsRemoved router (port ∷ ports) h) (sym q)
        (removed between r (remove_ports-PortsRemoved router ports between p))

  ports_of-IsFine :
      (c : Completed) (ports : List String)
      → ports_of w openstack_bin c ≡ (ports, none)
      → IsFine w openstack_bin c × (stripped_lines c.stdout ≡ ports)
  unfolding ports_of
  ports_of-IsFine c ports e = elim (Bool-cases (is_zero c.returncode)) [
    | inl z ↦ (inl z, ap (λ x. x.0) (rw z at e))
    | inr z ↦ elim (Bool-cases (missing_output (output_of c))) [
      | inl m ↦ (inr m, ap (λ x. x.0) (rw (z, m) at e))
      | inr m ↦ cc (ap (λ x. x.1) (rw (z, m) at e))
    ]
  ]

  -- The ports that are listed, and how the history then ends.
  router_ports_listed :
      (router : String) (ports : List String) (h : History)
      → (router_ports w openstack_bin router h).0 ≡ done (ports, none)
      → (c : Completed) × (w.reply (command (openstack_bin ∷ ports_argv w openstack_bin router) ∷ h)
          ≡ completed c)
        × IsFine w openstack_bin c
        × (stripped_lines c.stdout ≡ ports)
        × ((router_ports w openstack_bin router h).1
            ≡ command (openstack_bin ∷ ports_argv w openstack_bin router) ∷ h)
  unfolding router_ports
  router_ports_listed router ports h e =
      of_reply (w.reply (command (openstack_bin ∷ ports_argv w openstack_bin router) ∷ h)) refl e
    where
      asked : History
      asked = command (openstack_bin ∷ ports_argv w openstack_bin router) ∷ h

      of_reply :
          (s : Started)
          → w.reply (command (openstack_bin ∷ ports_argv w openstack_bin router) ∷ h) ≡ s
          → ((as_run s >>= λ c. pure (ports_of w openstack_bin c)) asked).0 ≡ done (ports, none)
          → (c : Completed) × (w.reply
                (command (openstack_bin ∷ ports_argv w openstack_bin router) ∷ h)
              ≡ completed c)
            × IsFine w openstack_bin c
            × (stripped_lines c.stdout ≡ ports)
            × (((as_run s >>= λ c. pure (ports_of w openstack_bin c)) asked).1
                ≡ command (openstack_bin ∷ ports_argv w openstack_bin router) ∷ h)
      of_reply (completed c) k q =
          let (fine, same) = ports_of-IsFine c ports (done_inj q) in (c, k, fine, same, refl)
      of_reply (not_started message) k q = cc q

  pub delete_router_with-RouterGone :
      (r : Resource) (found : List String × Option String) (h : History)
      → (router_ports w openstack_bin r.identifier h).0 ≡ done found
      → (delete_router_with w openstack_bin r found
          (router_ports w openstack_bin r.identifier h).1).0
        ≡ done []
      → RouterGone r.identifier
          (delete_router_with w openstack_bin r found
            (router_ports w openstack_bin r.identifier h).1).1
  unfolding delete_router_with
  delete_router_with-RouterGone r (ports, some error) h l e = cc e
  delete_router_with-RouterGone r (ports, none) h l e =
      let (c, answer, fine, same, listed) = router_ports_listed r.identifier ports h l in
      let asked = (router_ports w openstack_bin r.identifier h).1 in
      let steps =
        run_each w openstack_bin r.identifier (router_steps w openstack_bin r.identifier) in
      let f =
        follow (remove_ports w openstack_bin r.identifier ports)
          (λ port_errors. steps >>= λ errors. pure (port_errors ++ errors)) asked e in
      let h1 = (remove_ports w openstack_bin r.identifier ports asked).1 in
      let g = follow steps (λ errors. pure (f.first ++ errors)) h1 f.rest_eq in
      let (a, b) = append-eq-nil f.first g.first (done_inj g.rest_eq) in
      let removed_all =
        remove_ports-PortsRemoved r.identifier ports asked (f.first_eq ∙ ap done a) in
      let (unset, first, last) = run_each_two r.identifier _ _ h1 (g.first_eq ∙ ap done b) in
      subst (RouterGone r.identifier) (sym (ap (λ x. x.1) f.same ∙ ap (λ x. x.1) g.same)) (
        router_deleted c h h1 unset answer fine
          (subst (λ x. PortsRemoved r.identifier (stripped_lines c.stdout) x h1) listed
            (subst (λ x. PortsRemoved r.identifier x asked h1) (sym same) removed_all))
          first last)
