-- ===== src/Containers/Commands.antt =====
-- Every command that a container operation runs is the call that the request is for.
use node_nexus_api.Prelude.{ℕ, String, Option, List, [], ◌∷◌, ◌++◌, Text, codes, refl}
use node_nexus_api.Shell.{is_safe, quote}
use node_nexus_api.Shell.Lines.{
  join, Reads, AllRead, join_words, Reads-quote, Reads-decimal, decimal,
}
use node_nexus_api.Validation.{validate_container_id}
use node_nexus_api.Containers.Reading.{Reads-literal, Reads-json, id-Reads, glued}
use node_nexus_api.Docker.Runs.{
  Output, publish, World, Op, ◌>>=◌, ◌>>◌, pure, checked, log, call, call_required, call_piped,
}
use node_nexus_api.Docker.Commands.{
  Call, of_words, with_stdin, Within, Within-bind, Within-checked, Within-log, Within-publish,
  Within-call, Within-call_required, Within-call_piped,
}
use node_nexus_api.Containers.Requests.{
  inspect, start, stats, pause, unpause, top, stop, restart, rename, kill, read, write, wait,
  json_words, call_of,
}
use node_nexus_api.Containers.Create.{
  pause_container, unpause_container, rename_container, top_container, top_reply, kill_container,
  get_archive, put_archive, wait_container, or_sixty, or_zero,
}
use node_nexus_api.Containers.{
  Python, Reply, done, item, announced, first_or_missing, text, code, json_format, start_container,
  stop_container, restart_container, lifecycle_action, get_container, get_stats,
}

module _ {Item : Type 0} (py : Python Item) (c : Call) (w : World) where
  pub Within-announced : (event : String) → Within c w (announced {Item = Item} event w)
  Within-announced event =
      Within-bind c w (log event >> publish event) (λ _. pure done)
        (Within-bind c w (log event) (λ _. publish event) (Within-log c w event)
          (λ _. Within-publish c w event))
        (λ _. tt)

  Within-first : (event : String) (is : List Item) → Within c w (first_or_missing py event is w)
  Within-first event [] = tt
  Within-first event (i ∷ is) =
      Within-bind c w (log event) (λ _. pure (item i)) (Within-log c w event) (λ _. tt)

-- An operation on one container whose parts are read as `words`, by its way to call the Docker CLI.
module _ {Item : Type 0} (w : World) (id : Text) (parts : Text → List Text) (words : List Text)
    (timeout : ℕ) (f : Output → Op (Reply Item))
    (read : (t : Text) → Reads t id → AllRead (parts t) words) where
  pub by-call :
      ((out : Output) → Within (of_words words) w (f out w))
      → Within
          (of_words words)
          w
          ((checked (validate_container_id id) >>= λ t. call (join (parts t)) timeout >>= f) w)
  by-call after =
      Within-checked (of_words words) w (validate_container_id id)
        (λ t. call (join (parts t)) timeout >>= f)
        λ t valid.
          Within-bind (of_words words) w (call (join (parts t)) timeout) f
            (Within-call w (join (parts t)) timeout words
              (join_words (parts t) words (read t (id-Reads id t valid))))
            after

  pub by-call_required :
      (action : String)
      → ((out : Output) → Within (of_words words) w (f out w))
      → Within (of_words words) w (
          (checked (validate_container_id id) >>= λ t.
          call_required action (join (parts t)) timeout >>= f)
            w)
  by-call_required action after =
      Within-checked (of_words words) w (validate_container_id id)
        (λ t. call_required action (join (parts t)) timeout >>= f)
        λ t valid.
          Within-bind (of_words words) w (call_required action (join (parts t)) timeout) f
            (Within-call_required w (join (parts t)) timeout words
              (join_words (parts t) words (read t (id-Reads id t valid))) action)
            after

  pub by-call_piped :
      (stdin : Text)
      → ((out : Output) → Within (with_stdin stdin words) w (f out w))
      → Within (with_stdin stdin words) w (
          (checked (validate_container_id id) >>= λ t.
          call_piped stdin (join (parts t)) timeout >>= f)
            w)
  by-call_piped stdin after =
      Within-checked (with_stdin stdin words) w (validate_container_id id)
        (λ t. call_piped stdin (join (parts t)) timeout >>= f)
        λ t valid.
          Within-bind (with_stdin stdin words) w (call_piped stdin (join (parts t)) timeout) f
            (Within-call_piped w (join (parts t)) timeout words
              (join_words (parts t) words (read t (id-Reads id t valid))) stdin)
            after

pub Within-logged :
    {Item : Type 0} (c : Call) (w : World) (event : String) (a : Reply Item)
    → Within c w ((log event >> pure a) w)
Within-logged c w event a =
    Within-bind c w (log event) (λ _. pure a) (Within-log c w event) (λ _. tt)

module _ {Item : Type 0} (py : Python Item) (w : World) where
  Within-top : (c : Call) (rows : List (List Text)) → Within c w (top_reply py rows w)
  Within-top c [] = tt
  Within-top c (titles ∷ []) = tt
  Within-top c (titles ∷ process ∷ processes) = tt

  pub commands-inspect : (id : Text) → Within (call_of py (inspect id)) w (get_container py id w)
  unfolding call_of is_safe get_container
  commands-inspect id =
      by-call w id (λ t. codes "inspect" ∷ t ∷ []) (codes "inspect" ∷ id ∷ []) 30
        (λ out. first_or_missing py "docker.container.inspect" (py.parse_json_array out.stdout))
        (λ t r. (Reads-literal (codes "inspect") refl refl, (r, tt)))
        (λ out.
          Within-first py (call_of py (inspect id)) w "docker.container.inspect"
            (py.parse_json_array out.stdout))

  pub commands-stats : (id : Text) → Within (call_of py (stats id)) w (get_stats py id w)
  unfolding call_of is_safe get_stats
  commands-stats id =
      by-call w id (λ t. codes "stats" ∷ codes "--no-stream" ∷ (json_format ++ t ∷ []))
        (codes "stats" ∷ codes "--no-stream" ∷ (json_words ++ id ∷ [])) 30
        (λ out. first_or_missing py "docker.container.stats" (py.parse_json_lines out.stdout))
        (λ t r. (
          Reads-literal (codes "stats") refl refl,
          (
            Reads-literal (codes "--no-stream") refl refl,
            (Reads-literal (codes "--format") refl refl, (Reads-json, (r, tt))),
          ),
        ))
        (λ out.
          Within-first py (call_of py (stats id)) w "docker.container.stats"
            (py.parse_json_lines out.stdout))

  pub commands-pause : (id : Text) → Within (call_of py (pause id)) w (pause_container py id w)
  unfolding call_of is_safe pause_container
  commands-pause id =
      by-call w id (λ t. codes "pause" ∷ t ∷ []) (codes "pause" ∷ id ∷ []) 30
        (λ out. announced "docker.container.pause")
        (λ t r. (Reads-literal (codes "pause") refl refl, (r, tt)))
        (λ out. Within-announced py (call_of py (pause id)) w "docker.container.pause")

  pub commands-unpause :
      (id : Text) → Within (call_of py (unpause id)) w (unpause_container py id w)
  unfolding call_of is_safe unpause_container
  commands-unpause id =
      by-call w id (λ t. codes "unpause" ∷ t ∷ []) (codes "unpause" ∷ id ∷ []) 30
        (λ out. announced "docker.container.unpause")
        (λ t r. (Reads-literal (codes "unpause") refl refl, (r, tt)))
        (λ out. Within-announced py (call_of py (unpause id)) w "docker.container.unpause")

  pub commands-rename :
      (id : Text) (new_name : Text)
      → Within (call_of py (rename id new_name)) w (rename_container py id new_name w)
  unfolding call_of is_safe rename_container
  commands-rename id new_name =
      by-call w id (λ t. codes "rename" ∷ t ∷ quote new_name ∷ [])
        (codes "rename" ∷ id ∷ new_name ∷ []) 30 (λ out. announced "docker.container.rename")
        (λ t r. (Reads-literal (codes "rename") refl refl, (r, (Reads-quote new_name, tt))))
        (λ out. Within-announced py (call_of py (rename id new_name)) w "docker.container.rename")

  pub commands-top : (id : Text) → Within (call_of py (top id)) w (top_container py id w)
  unfolding call_of is_safe top_container
  commands-top id =
      by-call w id (λ t. codes "top" ∷ t ∷ []) (codes "top" ∷ id ∷ []) 30
        (λ out. top_reply py (py.rows out.stdout))
        (λ t r. (Reads-literal (codes "top") refl refl, (r, tt)))
        (λ out. Within-top (call_of py (top id)) (py.rows out.stdout))

  pub commands-start : (id : Text) → Within (call_of py (start id)) w (start_container py id w)
  unfolding call_of is_safe start_container lifecycle_action
  commands-start id =
      by-call_required w id (λ t. codes "start" ∷ t ∷ []) (codes "start" ∷ id ∷ []) 30
        (λ out. announced "docker.container.start")
        (λ t r. (Reads-literal (codes "start") refl refl, (r, tt)))
        "docker.container.start.requested"
        (λ out. Within-announced py (call_of py (start id)) w "docker.container.start")

  pub commands-stop :
      (id : Text) (timeout : ℕ)
      → Within (call_of py (stop id timeout)) w (stop_container py id timeout w)
  unfolding call_of is_safe stop_container lifecycle_action
  commands-stop id timeout =
      by-call_required w id (λ t. codes "stop" ∷ codes "-t" ∷ decimal timeout ∷ t ∷ [])
        (codes "stop" ∷ codes "-t" ∷ decimal timeout ∷ id ∷ []) 30
        (λ out. announced "docker.container.stop")
        (λ t r. (
          Reads-literal (codes "stop") refl refl,
          (Reads-literal (codes "-t") refl refl, (Reads-decimal timeout, (r, tt))),
        ))
        "docker.container.stop.requested"
        (λ out. Within-announced py (call_of py (stop id timeout)) w "docker.container.stop")

  pub commands-restart :
      (id : Text) (timeout : ℕ)
      → Within (call_of py (restart id timeout)) w (restart_container py id timeout w)
  unfolding call_of is_safe restart_container lifecycle_action
  commands-restart id timeout =
      by-call_required w id (λ t. codes "restart" ∷ codes "-t" ∷ decimal timeout ∷ t ∷ [])
        (codes "restart" ∷ codes "-t" ∷ decimal timeout ∷ id ∷ []) 30
        (λ out. announced "docker.container.restart")
        (λ t r. (
          Reads-literal (codes "restart") refl refl,
          (Reads-literal (codes "-t") refl refl, (Reads-decimal timeout, (r, tt))),
        ))
        "docker.container.restart.requested"
        (λ out. Within-announced py (call_of py (restart id timeout)) w "docker.container.restart")

  pub commands-kill :
      (id : Text) (signal : Text)
      → Within (call_of py (kill id signal)) w (kill_container py id signal w)
  unfolding call_of is_safe kill_container
  commands-kill id signal =
      by-call_required w id (λ t. codes "kill" ∷ codes "--signal" ∷ quote signal ∷ t ∷ [])
        (codes "kill" ∷ codes "--signal" ∷ signal ∷ id ∷ []) 30
        (λ out. announced "docker.container.kill")
        (λ t r. (
          Reads-literal (codes "kill") refl refl,
          (Reads-literal (codes "--signal") refl refl, (Reads-quote signal, (r, tt))),
        ))
        "docker.container.kill.requested"
        (λ out. Within-announced py (call_of py (kill id signal)) w "docker.container.kill")

  pub commands-read :
      (id : Text) (path : Text) → Within (call_of py (read id path)) w (get_archive py id path w)
  unfolding call_of is_safe get_archive
  commands-read id path =
      by-call w id (λ t. codes "cp" ∷ (t ++ (codes ":" ++ quote path)) ∷ codes "-" ∷ [])
        (codes "cp" ∷ (id ++ (codes ":" ++ path)) ∷ codes "-" ∷ []) 30
        (λ out. log "docker.container.archive.get" >> pure (text out.stdout))
        (λ t r. (
          Reads-literal (codes "cp") refl refl,
          (glued t id path r, (Reads-literal (codes "-") refl refl, tt)),
        ))
        (λ out.
          Within-logged (call_of py (read id path)) w "docker.container.archive.get"
            (text out.stdout))

  pub commands-write :
      (id : Text) (path : Text) (contents : Text)
      → Within (call_of py (write id path contents)) w (put_archive py id path contents w)
  unfolding call_of is_safe put_archive
  commands-write id path contents =
      by-call_piped w id (λ t. codes "cp" ∷ codes "-" ∷ (t ++ (codes ":" ++ quote path)) ∷ [])
        (codes "cp" ∷ codes "-" ∷ (id ++ (codes ":" ++ path)) ∷ []) 30
        (λ out. log "docker.container.archive.put" >> pure done)
        (λ t r. (
          Reads-literal (codes "cp") refl refl,
          (Reads-literal (codes "-") refl refl, (glued t id path r, tt)),
        ))
        contents
        (λ out.
          Within-logged (call_of py (write id path contents)) w "docker.container.archive.put"
            (done))

  pub commands-wait :
      (id : Text) (timeout : Option ℕ)
      → Within (call_of py (wait id timeout)) w (wait_container py id timeout w)
  unfolding call_of is_safe wait_container
  commands-wait id timeout =
      by-call w id (λ t. codes "wait" ∷ t ∷ []) (codes "wait" ∷ id ∷ []) (or_sixty py timeout)
        (λ out.
          log "docker.container.wait"
          >> pure (code (or_zero py (py.to_int (py.last_line out.stdout)))))
        (λ t r. (Reads-literal (codes "wait") refl refl, (r, tt)))
        (λ out.
          Within-logged (call_of py (wait id timeout)) w "docker.container.wait"
            (code (or_zero py (py.to_int (py.last_line out.stdout)))))
