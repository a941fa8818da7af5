-- ===== src/Containers/Audited.antt =====
-- The order of the audit event and the command, in the operations that write one first.
use node_nexus_api.Prelude.{
  ℕ, String, Bool, true, Option, none, some, List, [], ◌∷◌, ◌++◌, Text, codes, if◌then◌else◌, ◌≡◌,
  refl, map,
}
use node_nexus_api.Shell.Lines.{join, decimal}
use node_nexus_api.Validation.{
  validate_image_name, validate_container_id, validate_container_name, validate_network_name,
  validate_restart_policy, validate_env_vars, validate_labels, validate_volume_mounts,
}
use node_nexus_api.Validation.Ports.{validate_port_mappings}
use node_nexus_api.Docker.Runs.{World, pure, checked, get_target, log_required, call_required}
use node_nexus_api.Docker.Order.{
  Led, LedBy, Led-bind, Led-after, checked-quiet, target-quiet, quiet-bound, quiet-checked,
  Led-log_required, Led-call_required,
}
use node_nexus_api.Containers.{
  Python, lifecycle_action, start_container, stop_container, restart_container, remove_container,
  exec_command,
}
use node_nexus_api.Containers.Create.{
  CreateRequest, dict_of, volume_dict, as_spec, as_value, checked_if_some, checked_if_nonempty,
  normalize, tokens_of, tokens_of_command, create_container, kill_container, update_parts,
  update_container,
}
use node_nexus_api.Containers.Requests.{
  Request, create, list, inspect, start, stats, pause, unpause, top, stop, restart, remove, logs,
  exec, rename, kill, update, read, write, port, wait, serve,
}

-- The event that must be committed before a request is carried out.
unfoldable pub audit_action : Request → Option String
audit_action (create r) = some "docker.container.create.requested"
audit_action (start id) = some "docker.container.start.requested"
audit_action (stop id timeout) = some "docker.container.stop.requested"
audit_action (restart id timeout) = some "docker.container.restart.requested"
audit_action (remove id force) = some "docker.container.remove.requested"
audit_action (exec id command timeout) = some "docker.container.exec.requested"
audit_action (kill id signal) = some "docker.container.kill.requested"
audit_action (update id memory cpus restart_policy) = some "docker.container.update.requested"
audit_action _ = none

if_some-quiet :
    (validate : Text → Option Text) (w : World) (o : Option Text)
    → (checked_if_some validate o w).0 ≡ []
if_some-quiet validate w none = refl
if_some-quiet validate w (some s) = quiet-checked w (λ v. pure (some v)) (validate s) (λ v. refl)

if_nonempty-quiet :
    (validate : Text → Option Text) (w : World) (o : Option Text)
    → (checked_if_nonempty validate o w).0 ≡ []
if_nonempty-quiet validate w none = refl
if_nonempty-quiet validate w (some []) = refl
if_nonempty-quiet validate w (some (c ∷ s)) = if_some-quiet validate w (some (c ∷ s))

normalize-quiet :
    (is_digit : ℕ → Bool) (r : CreateRequest) (w : World) → (normalize is_digit r w).0 ≡ []
unfolding normalize
normalize-quiet is_digit r w = quiet-checked w _ (validate_image_name r.image) λ image.
    quiet-bound w _ (checked_if_some validate_container_name r.name w)
      (if_some-quiet validate_container_name w r.name)
      λ name. quiet-checked w _ (validate_port_mappings is_digit (dict_of r.ports)) λ ports.
        quiet-checked w _ (validate_volume_mounts (map as_spec (volume_dict r.volumes))) λ volumes.
          quiet-checked w _ (validate_env_vars r.env) λ env.
            quiet-checked w _ (validate_labels (map as_value (dict_of r.labels))) λ labels.
              quiet-bound w _ (checked_if_nonempty validate_network_name r.network w)
                (if_nonempty-quiet validate_network_name w r.network)
                λ network.
                  quiet-bound w _ (checked_if_nonempty validate_restart_policy r.restart_policy w)
                    (if_nonempty-quiet validate_restart_policy w r.restart_policy)
                    λ restart_policy. refl

module _ {Item : Type 0} (py : Python Item) (w : World) (audit : w.has_audit ≡ true) where
  Led-lifecycle :
      (id : Text) (requested event : String) (args : List Text)
      → Led requested (lifecycle_action py id requested event args w)
  unfolding lifecycle_action
  Led-lifecycle id requested event args =
      Led-after requested w _ (checked (validate_container_id id))
        (checked-quiet (validate_container_id id) w)
        λ t.
          Led-bind requested w _ (call_required requested (join (args ++ t ∷ [])) 30)
            (Led-call_required w audit requested (join (args ++ t ∷ [])) 30)

  Led-update_parts :
      (id : Text) (parts : List Text)
      → Led "docker.container.update.requested" (update_parts py id parts w)
  Led-update_parts id [] = tt
  Led-update_parts id (p ∷ parts) =
      Led-bind "docker.container.update.requested" w _
        (call_required "docker.container.update.requested"
          (join (codes "update" ∷ ((p ∷ parts) ++ id ∷ []))) 30)
        (Led-call_required w audit "docker.container.update.requested"
          (join (codes "update" ∷ ((p ∷ parts) ++ id ∷ []))) 30)

  tokens-quiet : (o : Option Text) → (tokens_of_command py o w).0 ≡ []
  tokens-quiet none = refl
  tokens-quiet (some []) = refl
  tokens-quiet (some (c ∷ s)) = tokens (py.split (c ∷ s))
    where
      tokens : (o : Option (List Text)) → (tokens_of o w).0 ≡ []
      tokens none = refl
      tokens (some ts) = refl

  Led-create :
      (r : CreateRequest) → Led "docker.container.create.requested" (create_container py r w)
  unfolding create_container
  Led-create r =
      let action : String = "docker.container.create.requested" in
      Led-after action w _ (normalize py.is_digit r) (normalize-quiet py.is_digit r w) λ r'.
        Led-after action w _ get_target (target-quiet w) λ node.
          Led-after action w _ (tokens_of_command py r'.command) (tokens-quiet r'.command)
            λ tokens. Led-bind action w _ (log_required action) (Led-log_required w audit action)

  Led-exec :
      (id command : Text) (timeout : ℕ)
      → Led "docker.container.exec.requested" (exec_command py id command timeout w)
  unfolding exec_command
  Led-exec id command timeout =
      let action : String = "docker.container.exec.requested" in
      Led-after action w _ (checked (validate_container_id id))
        (checked-quiet (validate_container_id id) w)
        λ t.
          Led-after action w _ get_target (target-quiet w)
            λ node. Led-bind action w _ (log_required action) (Led-log_required w audit action)

  Led-kill :
      (id signal : Text) → Led "docker.container.kill.requested" (kill_container py id signal w)
  unfolding kill_container
  Led-kill id signal =
      let action : String = "docker.container.kill.requested" in
      Led-after action w _ (checked (validate_container_id id))
        (checked-quiet (validate_container_id id) w)
        λ t. Led-bind action w _ (call_required action _ 30) (Led-call_required w audit action _ 30)

  Led-update :
      (id : Text) (memory cpus restart_policy : Option Text)
      → Led "docker.container.update.requested"
          (update_container py id memory cpus restart_policy w)
  unfolding update_container
  Led-update id memory cpus restart_policy =
      let action : String = "docker.container.update.requested" in
      Led-after action w _ (checked (validate_container_id id))
        (checked-quiet (validate_container_id id) w)
        λ t.
          Led-after action w _ (checked_if_some validate_restart_policy restart_policy)
            (if_some-quiet validate_restart_policy w restart_policy) λ policy. Led-update_parts t _

  -- With an audit, a request that creates, starts, stops, restarts, removes, updates or kills a container or runs a command in it either raises an error with no effect at all, or has its committed audit event as its first effect: nothing is run before the event or without it.
  pub audited_first : (r : Request) → LedBy (audit_action r) (serve py r w)
  unfolding serve audit_action start_container stop_container restart_container remove_container
  audited_first (create r) = Led-create r
  audited_first (start id) =
      Led-lifecycle id "docker.container.start.requested" "docker.container.start"
        (codes "start" ∷ [])
  audited_first (stop id timeout) =
      Led-lifecycle id "docker.container.stop.requested" "docker.container.stop"
        (codes "stop" ∷ codes "-t" ∷ decimal timeout ∷ [])
  audited_first (restart id timeout) =
      Led-lifecycle id "docker.container.restart.requested" "docker.container.restart"
        (codes "restart" ∷ codes "-t" ∷ decimal timeout ∷ [])
  audited_first (remove id force) =
      Led-lifecycle id "docker.container.remove.requested" "docker.container.remove"
        (codes "rm" ∷ (if force then codes "-f" ∷ [] else []))
  audited_first (exec id command timeout) = Led-exec id command timeout
  audited_first (kill id signal) = Led-kill id signal
  audited_first (update id memory cpus restart_policy) = Led-update id memory cpus restart_policy
  audited_first (list all) = tt
  audited_first (inspect id) = tt
  audited_first (stats id) = tt
  audited_first (pause id) = tt
  audited_first (unpause id) = tt
  audited_first (top id) = tt
  audited_first (logs id tail since) = tt
  audited_first (rename id new_name) = tt
  audited_first (read id path) = tt
  audited_first (write id path contents) = tt
  audited_first (port id private_port) = tt
  audited_first (wait id timeout) = tt
