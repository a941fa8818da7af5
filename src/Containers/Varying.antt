-- ===== src/Containers/Varying.antt =====
-- The operations whose arguments vary with the request.
use node_nexus_api.Prelude.{
  ℕ, Bool, true, false, Option, none, some, List, [], ◌∷◌, ◌++◌, Text, codes, if◌then◌else◌, refl,
}
use node_nexus_api.Shell.{is_safe, quote}
use node_nexus_api.Shell.Lines.{join, Reads, AllRead, join_words, Reads-quote}
use node_nexus_api.Validation.{validate_container_id, validate_restart_policy}
use node_nexus_api.Docker.{build_docker_command}
use node_nexus_api.Docker.Runs.{
  Output, Effect, Outcome, returns, raises, World, ◌>>◌, pure, execute, log, log_required, call,
  call_required,
}
use node_nexus_api.Docker.Commands.{
  Call, Within, Within-bind, Within-checked, Within-log_required, Within-target, Within-execute,
  Within-call, Within-call_required, docker-words,
}
use node_nexus_api.Docker.Returns.{Within-then}
use node_nexus_api.Containers.{
  Python, done, items, text, result, json_format, caught, attempt, flag, list_containers,
  lifecycle_action, remove_container, exec_reply, exec_command, announced,
}
use node_nexus_api.Containers.Create.{
  checked_if_some, update_parts, update_container, port_argument, get_port,
}
use node_nexus_api.Containers.Requests.{
  list, remove, exec, update, port, option, json_words, call_of, port_word,
}
use node_nexus_api.Containers.Reading.{
  Reads-literal, Reads-json, AllRead-append, id-Reads, read-flag,
}
use node_nexus_api.Containers.Checked.{policy-same, flag-if_some, Within-if_some}
use node_nexus_api.Containers.Commands.{Within-announced, by-call, by-call_required, Within-logged}

module _ {Item : Type 0} (py : Python Item) (w : World) where
  pub commands-list : (all : Bool) → Within (call_of py (list all)) w (list_containers py all w)
  unfolding call_of list_containers is_safe
  commands-list all =
      Within-bind (call_of py (list all)) w (call (join (parts all)) 30) _
        (Within-call w (join (parts all)) 30 (words all)
          (join_words (parts all) (words all) (parts-read all)))
        (λ out.
          Within-logged (call_of py (list all)) w "docker.containers.list"
            (items (py.parse_json_lines out.stdout)))
    where
      parts : Bool → List Text
      parts all = codes "ps" ∷ ((if all then codes "-a" ∷ [] else []) ++ json_format)

      words : Bool → List Text
      words all = codes "ps" ∷ ((if all then codes "-a" ∷ [] else []) ++ json_words)

      parts-read : (all : Bool) → AllRead (parts all) (words all)
      parts-read true = (
        Reads-literal (codes "ps") refl refl,
        (
          Reads-literal (codes "-a") refl refl,
          (Reads-literal (codes "--format") refl refl, (Reads-json, tt)),
        ),
      )
      parts-read false = (
        Reads-literal (codes "ps") refl refl,
        (Reads-literal (codes "--format") refl refl, (Reads-json, tt)),
      )

  pub commands-remove :
      (id : Text) (force : Bool)
      → Within (call_of py (remove id force)) w (remove_container py id force w)
  unfolding call_of remove_container lifecycle_action is_safe
  commands-remove id force =
      by-call_required w id (λ t. (codes "rm" ∷ (if force then codes "-f" ∷ [] else [])) ++ t ∷ [])
        (codes "rm" ∷ ((if force then codes "-f" ∷ [] else []) ++ id ∷ [])) 30
        (λ out. announced "docker.container.remove") (parts-read force)
        "docker.container.remove.requested"
        (λ out. Within-announced py (call_of py (remove id force)) w "docker.container.remove")
    where
      parts-read :
          (force : Bool) (t : Text)
          → Reads t id
          → AllRead
              ((codes "rm" ∷ (if force then codes "-f" ∷ [] else [])) ++ t ∷ [])
              (codes "rm" ∷ ((if force then codes "-f" ∷ [] else []) ++ id ∷ []))
      parts-read true t r =
          (Reads-literal (codes "rm") refl refl, (Reads-literal (codes "-f") refl refl, (r, tt)))
      parts-read false t r = (Reads-literal (codes "rm") refl refl, (r, tt))

  pub commands-port :
      (id : Text) (private_port : Option Text)
      → Within (call_of py (port id private_port)) w (get_port py id private_port w)
  unfolding call_of get_port is_safe
  commands-port id private_port =
      by-call w id (λ t. codes "port" ∷ t ∷ port_argument py private_port)
        (codes "port" ∷ id ∷ port_word py private_port) 30
        (λ out. log "docker.container.port" >> pure (text (py.strip out.stdout)))
        (λ t r. (Reads-literal (codes "port") refl refl, (r, argument private_port)))
        (λ out.
          Within-logged (call_of py (port id private_port)) w "docker.container.port"
            (text (py.strip out.stdout)))
    where
      argument : (o : Option Text) → AllRead (port_argument py o) (port_word py o)
      argument none = tt
      argument (some []) = tt
      argument (some (c ∷ s)) = (Reads-quote (c ∷ s), tt)

  pub commands-update :
      (id : Text) (memory cpus restart_policy : Option Text)
      → Within
          (call_of py (update id memory cpus restart_policy))
          w
          (update_container py id memory cpus restart_policy w)
  unfolding call_of update_container is_safe
  commands-update id memory cpus restart_policy =
      let c = call_of py (update id memory cpus restart_policy) in
      Within-checked c w (validate_container_id id) _ λ t valid.
        Within-then
          (λ v. AllRead (flag (codes "--restart") v) (option (codes "--restart") restart_policy)) w
          _ c (checked_if_some validate_restart_policy restart_policy)
          (Within-if_some validate_restart_policy c w restart_policy)
          (flag-if_some (codes "--restart") refl refl validate_restart_policy policy-same w
            restart_policy)
          (λ policy reads.
            updated t (id-Reads id t valid)
              (flag (codes "--memory") memory
                ++ (flag (codes "--cpus") cpus ++ flag (codes "--restart") policy))
              (AllRead-append (flag (codes "--memory") memory) (option (codes "--memory") memory) _
                _ (read-flag (codes "--memory") memory refl refl)
                (AllRead-append (flag (codes "--cpus") cpus) (option (codes "--cpus") cpus) _ _
                  (read-flag (codes "--cpus") cpus refl refl) reads)))
    where
      given : List Text
      given =
          option (codes "--memory") memory
          ++ (option (codes "--cpus") cpus ++ option (codes "--restart") restart_policy)

      updated :
          (t : Text)
          → Reads t id
          → (parts : List Text) → AllRead parts given
          → Within (call_of py (update id memory cpus restart_policy)) w (update_parts py t parts w)
      updated t r [] reads = tt
      updated t r (p ∷ parts) reads =
          Within-bind (call_of py (update id memory cpus restart_policy)) w
            (call_required "docker.container.update.requested"
              (join (codes "update" ∷ ((p ∷ parts) ++ t ∷ []))) 30)
            _
            (Within-call_required w (join (codes "update" ∷ ((p ∷ parts) ++ t ∷ []))) 30
              (codes "update" ∷ (given ++ id ∷ []))
              (join_words (codes "update" ∷ ((p ∷ parts) ++ t ∷ []))
                (codes "update" ∷ (given ++ id ∷ []))
                (
                  Reads-literal (codes "update") refl refl,
                  AllRead-append (p ∷ parts) given (t ∷ []) (id ∷ []) reads (r, tt),
                ))
              "docker.container.update.requested")
            (λ out.
              Within-logged (call_of py (update id memory cpus restart_policy)) w
                "docker.container.update" done)

  Within-caught :
      (c : Call) (r : List Effect × Outcome Output) → Within c w r → Within c w (caught r)
  Within-caught c (es, returns out) h = h
  Within-caught c (es, raises e) h = h

  Within-exec_reply : (c : Call) (o : Option Output) → Within c w (exec_reply py o w)
  Within-exec_reply c none = tt
  Within-exec_reply c (some out) = Within-logged c w "docker.container.exec" (result out)

  pub commands-exec :
      (id command : Text) (timeout : ℕ)
      → Within (call_of py (exec id command timeout)) w (exec_command py id command timeout w)
  unfolding call_of exec_command attempt is_safe
  commands-exec id command timeout =
      let c = call_of py (exec id command timeout) in
      Within-checked c w (validate_container_id id) _ λ t valid. Within-target c w _ λ node e d.
        Within-bind c w (log_required "docker.container.exec.requested") _
          (Within-log_required c w "docker.container.exec.requested")
          λ _.
            let args = join (codes "exec" ∷ t ∷ codes "sh" ∷ codes "-c" ∷ quote command ∷ []) in
            Within-bind c w (attempt (build_docker_command node.docker_host args) timeout) _
              (Within-caught c (execute (build_docker_command node.docker_host args) timeout w) (
                Within-execute c w node (build_docker_command node.docker_host args) timeout e d (
                  docker-words node.docker_host args
                    (codes "exec" ∷ id ∷ codes "sh" ∷ codes "-c" ∷ command ∷ [])
                    (join_words (codes "exec" ∷ t ∷ codes "sh" ∷ codes "-c" ∷ quote command ∷ [])
                      (codes "exec" ∷ id ∷ codes "sh" ∷ codes "-c" ∷ command ∷ [])
                      (
                        Reads-literal (codes "exec") refl refl,
                        (
                          id-Reads id t valid,
                          (
                            Reads-literal (codes "sh") refl refl,
                            (Reads-literal (codes "-c") refl refl, (Reads-quote command, tt)),
                          ),
                        ),
                      )))))
              (λ o. Within-exec_reply c o)
