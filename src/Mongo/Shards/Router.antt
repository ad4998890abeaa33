-- ===== src/Mongo/Shards/Router.antt =====
-- What is done to a query router that gains config servers.
use Prim.Native.String.{String}
use yggdrasil_home.Base.{
  ◌≡◌, refl, sym, ap, subst, ◌∙◌, Bool, true, false, Option, some, List, ◌∷◌, ◌==◌, inl, inr,
  Bool-cases, Option-cases, is_empty, is_blank,
}
use yggdrasil_home.Base.Run.{
  returned, pure, rescue, returned_inj, rescue-parts, >>=-parts, ◌>>=◌, ◌>>◌,
}
use yggdrasil_home.Mongo.Guest.{
  Action, History, World, Event, Start, do_event, ensure_directory, write_file, start_container,
  stop_container, remove_container, wait_for_healthy, restrict_file,
}
use yggdrasil_home.Mongo.Service.{
  Cluster, await_healthy, command_of, cluster_or_empty, container_command, data_dir_of,
  instance_type, is_router, cluster_key, replace_container, start_checked, start_db, start_of,
  with_key,
}
use yggdrasil_home.Mongo.Shards.{
  add_config_servers, guarded, reconfigured, with_config_servers, write_cluster_config,
}

module _ (w : World) where
  -- The latest event waits for the health of a container that was just started with a command.
  pub data IsRunning (c : Option Cluster) : History → Type 0 where
    healthy :
        {h : History} (update_db : Bool)
        → w.becomes_healthy
            (wait_for_healthy update_db ∷ start_container (start_of w c (command_of w c)) ∷ h)
          ≡ true
        → IsRunning c
            (wait_for_healthy update_db ∷ start_container (start_of w c (command_of w c)) ∷ h)

  event_history :
      (event : Event) (h later : History)
      → do_event w event h ≡ (returned tt, later)
      → later ≡ event ∷ h
  event_history event h later e = elim (Option-cases (w.fails (event ∷ h))) [
    | inl k ↦ let (_, same) = returned_inj (rw k at e) in sym same
    | inr (message, k) ↦ cc (rw k at e)
  ]

  key_returned :
      (key : String) (command arguments : List String) (h later : History)
      → with_key w key command h ≡ (returned arguments, later)
      → arguments ≡ command
  key_returned key command arguments h later e = elim (Bool-cases (is_blank key)) [
    | inl k ↦ let (same, _) = returned_inj (rw k at e) in sym same
    | inr k ↦
        let (_, mid, l, m) =
          >>=-parts (do_event w (write_file "/etc/trove/mongodb-keyfile" key))
            (λ _. do_event w (restrict_file "/etc/trove/mongodb-keyfile") >> pure command) h
            (rw k at e) in
        let (_, last, n, o) =
          >>=-parts (do_event w (restrict_file "/etc/trove/mongodb-keyfile")) (λ _. pure command)
            mid m in
        let (same, _) = returned_inj o in sym same
  ]

  -- The latest event is the start of a container.
  start_history :
      (command : Action (List String)) (start : List String → Start) (arguments : List String)
      (h later : History)
      → ((given : List String) (mid : History)
          → command h ≡ (returned given, mid)
          → given ≡ arguments)
      → start_checked w command start h ≡ (returned tt, later)
      → (mid : History) × (later ≡ start_container (start arguments) ∷ mid)
  start_history command start arguments h later k e =
      elim (rescue-parts (command >>= λ given. do_event w (start_container (start given))) _ h e) [
        | inl l ↦
            let (given, mid, m, n) =
              >>=-parts command (λ given. do_event w (start_container (start given))) h l in
            (
              mid,
              event_history (start_container (start given)) mid later n
                  ∙ ap (λ x. start_container (start x) ∷ mid) (k given mid m),
            )
        | inr (message, mid, l, m) ↦ cc m
      ]

  await_history :
      (update_db : Bool) (message : String) (h later : History)
      → await_healthy w update_db message h ≡ (returned tt, later)
      → (w.becomes_healthy (wait_for_healthy update_db ∷ h) ≡ true)
        × (later ≡ wait_for_healthy update_db ∷ h)
  await_history update_db message h later e =
      elim (Bool-cases (w.becomes_healthy (wait_for_healthy update_db ∷ h))) [
        | inl k ↦ let (_, same) = returned_inj (rw k at e) in (k, sym same)
        | inr k ↦ cc (rw k at e)
      ]

  started_IsRunning :
      (c : Option Cluster) (update_db : Bool) (message : String) (h mid later : History)
      (before : History)
      → mid ≡ start_container (start_of w c (command_of w c)) ∷ before
      → await_healthy w update_db message mid ≡ (returned tt, later)
      → IsRunning c later
  started_IsRunning c update_db message h mid later before s e =
      let (k, l) =
        await_history update_db message (start_container (start_of w c (command_of w c)) ∷ before)
          later (rw s at e) in
      subst (IsRunning c) (sym l) (healthy update_db k)

  start_IsRunning :
      (c : Option Cluster) (update_db : Bool) (h later : History)
      → start_db w c update_db h ≡ (returned tt, later)
      → IsRunning c later
  unfolding start_db
  start_IsRunning c update_db h later e =
      let (_, first, _, m) =
        >>=-parts (do_event w (ensure_directory (data_dir_of w)))
          (λ _.
            start_checked w (container_command w c) (start_of w c)
            >> await_healthy w update_db "MongoDB container did not become healthy")
          h e in
      let (_, mid, n, o) =
        >>=-parts (start_checked w (container_command w c) (start_of w c))
          (λ _. await_healthy w update_db "MongoDB container did not become healthy") first m in
      let (before, s) =
        start_history (container_command w c) (start_of w c) (command_of w c) first mid
          (λ given last l. key_returned (cluster_key c) (command_of w c) given first last l) n in
      started_IsRunning c update_db "MongoDB container did not become healthy" h mid later before s
        o

  replace_IsRunning :
      (c : Option Cluster) (h later : History)
      → replace_container w c h ≡ (returned tt, later)
      → IsRunning c later
  unfolding replace_container
  replace_IsRunning c h later e =
      let (_, first, _, m) =
        >>=-parts (rescue (do_event w stop_container) (λ _. pure tt))
          (λ _. rescue (do_event w remove_container) (λ _. pure tt) >> start_db w c false) h e in
      let (_, second, _, n) =
        >>=-parts (rescue (do_event w remove_container) (λ _. pure tt)) (λ _. start_db w c false)
          first m in
      start_IsRunning c false second later n

  -- What a router is once it is given its config servers.
  pub record IsRouting (c : Option Cluster) (hosts : List String) (configured : Option Cluster)
      (later : History) : Type 0 where
    pub was_router : (instance_type c == "query_router") ≡ true
    pub has_hosts : (cluster_or_empty configured).config_servers ≡ hosts
    pub runs_mongos : is_router configured ≡ true
    pub is_running : IsRunning configured later

  module _ (config_text : Cluster → String) where
    configured_IsRouting :
        (c : Option Cluster) (hosts : List String) (configured : Option Cluster) (h later : History)
        → (instance_type c == "query_router") ≡ true
        → is_empty hosts ≡ false
        → reconfigured w config_text
            (with_config_servers w config_text (cluster_or_empty c) hosts)
            h
          ≡ (returned configured, later)
        → IsRouting c hosts configured later
    configured_IsRouting c hosts configured h later r k e =
        let next = with_config_servers w config_text (cluster_or_empty c) hosts in
        let (_, first, _, m) =
          >>=-parts (write_cluster_config w config_text next)
            (λ _. replace_container w (some next) >> pure (some next)) h e in
        let (_, mid, n, o) =
          >>=-parts (replace_container w (some next)) (λ _. pure (some next)) first m in
        let (same, last) = returned_inj o in
        subst (λ x. IsRouting c hosts x later) same
          (subst (IsRouting c hosts (some next)) last (record {
            was_router = r;
            has_hosts = refl;
            runs_mongos = rw (r, k) refl;
            is_running = replace_IsRunning (some next) first mid n;
          }))

    guarded-returned :
        (c : Option Cluster) (hosts : List String) (rest : Action (Option Cluster))
        (configured : Option Cluster) (h later : History)
        → guarded w config_text c hosts rest h ≡ (returned configured, later)
        → ((instance_type c == "query_router") ≡ true)
          × (is_empty hosts ≡ false)
          × (rest h ≡ (returned configured, later))
    guarded-returned c hosts rest configured h later e =
        elim (Bool-cases (instance_type c == "query_router")) [
          | inl r ↦ elim (Bool-cases (is_empty hosts)) [
            | inl k ↦ cc (rw (r, k) at e)
            | inr k ↦ (r, k, rw (r, k) at e)
          ]
          | inr r ↦ cc (rw r at e)
        ]

    -- Config servers are given only to a query router, and at least one; when the call returns, the
    -- metadata names these servers, and the container that was started last, and is healthy, is that
    -- of a router with this metadata, which runs mongos.
    pub add_config_servers-IsRouting :
        (c : Option Cluster) (hosts : List String) (configured : Option Cluster) (h later : History)
        → add_config_servers w config_text c hosts h ≡ (returned configured, later)
        → IsRouting c hosts configured later
    unfolding add_config_servers
    add_config_servers-IsRouting c hosts configured h later e =
        let next = with_config_servers w config_text (cluster_or_empty c) hosts in
        let (r, k, m) =
          guarded-returned c hosts (reconfigured w config_text next) configured h later e in
        configured_IsRouting c hosts configured h later r k m
