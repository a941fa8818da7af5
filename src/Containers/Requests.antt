-- ===== src/Containers/Requests.antt =====
-- The requests to the container service, the operation that serves each, and the call of the Docker CLI
-- that each is to make: the words of its arguments, with no quotation and no spaces to think of.
use node_nexus_api.Prelude.{
  ℕ, Bool, Option, none, some, List, [], ◌∷◌, ◌++◌, map, Text, codes, if◌then◌else◌,
}
use node_nexus_api.Shell.Lines.{decimal}
use node_nexus_api.Docker.Runs.{Op}
use node_nexus_api.Docker.Commands.{Call, of_words, with_stdin}
use node_nexus_api.Containers.{
  Python, Reply, parse_since, list_containers, get_container, start_container, stop_container,
  restart_container, remove_container, get_logs, exec_command, get_stats,
}
use node_nexus_api.Containers.Create.{
  CreateRequest, dict_of, flat, volume_dict, create_container, pause_container, unpause_container,
  rename_container, top_container, kill_container, update_container, get_archive, put_archive,
  get_port, wait_container,
}

pub data Request : Type 0 where
  create : CreateRequest → Request
  list : (all : Bool) → Request
  inspect start stats pause unpause top : (id : Text) → Request
  stop restart : (id : Text) → (timeout : ℕ) → Request
  remove : (id : Text) → (force : Bool) → Request
  logs : (id : Text) → (tail : ℕ) → (since : Option Text) → Request
  exec : (id command : Text) → (timeout : ℕ) → Request
  rename : (id new_name : Text) → Request
  kill : (id signal : Text) → Request
  update : (id : Text) → (memory cpus restart_policy : Option Text) → Request
  read : (id path : Text) → Request
  write : (id path contents : Text) → Request
  port : (id : Text) → (private_port : Option Text) → Request
  wait : (id : Text) → (timeout : Option ℕ) → Request

-- An option with its value.
abbrev pub option : Text → Option Text → List Text
option name none = []
option name (some v) = name ∷ v ∷ []

-- The same, where an empty value stands for none.
abbrev pub option_if_nonempty : Text → Option Text → List Text
option_if_nonempty name none = []
option_if_nonempty name (some []) = []
option_if_nonempty name (some (c ∷ s)) = name ∷ (c ∷ s) ∷ []

abbrev pub json_words : List Text
json_words = codes "--format" ∷ codes "{{json .}}" ∷ []

abbrev pub port_flag : Text × Text → List Text
port_flag p = codes "-p" ∷ (p.1 ++ (codes ":" ++ p.0)) ∷ []

abbrev pub volume_flag : Text × Text × Text → List Text
volume_flag v = codes "-v" ∷ (v.0 ++ (codes ":" ++ (v.1 ++ (codes ":" ++ v.2)))) ∷ []

abbrev pub env_words : Text → List Text
env_words e = codes "-e" ∷ e ∷ []

abbrev pub label_flag : Text × Text → List Text
label_flag l = codes "--label" ∷ (l.0 ++ (codes "=" ++ l.1)) ∷ []

module _ {Item : Type 0} (py : Python Item) where
  unfoldable pub serve : Request → Op (Reply Item)
  serve (create r) = create_container py r
  serve (list all) = list_containers py all
  serve (inspect id) = get_container py id
  serve (start id) = start_container py id
  serve (stats id) = get_stats py id
  serve (pause id) = pause_container py id
  serve (unpause id) = unpause_container py id
  serve (top id) = top_container py id
  serve (stop id timeout) = stop_container py id timeout
  serve (restart id timeout) = restart_container py id timeout
  serve (remove id force) = remove_container py id force
  serve (logs id tail since) = get_logs py id tail since
  serve (exec id command timeout) = exec_command py id command timeout
  serve (rename id new_name) = rename_container py id new_name
  serve (kill id signal) = kill_container py id signal
  serve (update id memory cpus restart_policy) = update_container py id memory cpus restart_policy
  serve (read id path) = get_archive py id path
  serve (write id path contents) = put_archive py id path contents
  serve (port id private_port) = get_port py id private_port
  serve (wait id timeout) = wait_container py id timeout

  abbrev pub command_tokens : Option Text → List Text
  command_tokens none = []
  command_tokens (some []) = []
  command_tokens (some (c ∷ s)) = elim (py.split (c ∷ s)) [ none ↦ [] | some tokens ↦ tokens ]

  abbrev pub create_words : CreateRequest → List Text
  create_words r =
      codes "create"
      ∷ (option (codes "--name") r.name
          ++ (option_if_nonempty (codes "--restart") r.restart_policy
              ++ (flat (map port_flag (dict_of r.ports))
                  ++ (flat (map volume_flag (volume_dict r.volumes))
                      ++ (flat (map env_words r.env)
                          ++ (flat (map label_flag (dict_of r.labels))
                              ++ (option_if_nonempty (codes "--network") r.network
                                  ++ (r.image ∷ command_tokens r.command))))))))

  abbrev pub since_words : Option Text → List Text
  since_words none = []
  since_words (some []) = []
  since_words (some (c ∷ s)) = elim (parse_since py (c ∷ s)) [
    | none ↦ []
    | some v ↦ codes "--since" ∷ v ∷ []
  ]

  abbrev pub port_word : Option Text → List Text
  port_word none = []
  port_word (some []) = []
  port_word (some (c ∷ s)) = (c ∷ s) ∷ []

  unfoldable pub call_of : Request → Call
  call_of (create r) = of_words (create_words r)
  call_of (list all) = of_words (codes "ps" ∷ ((if all then codes "-a" ∷ [] else []) ++ json_words))
  call_of (inspect id) = of_words (codes "inspect" ∷ id ∷ [])
  call_of (start id) = of_words (codes "start" ∷ id ∷ [])
  call_of (stats id) = of_words (codes "stats" ∷ codes "--no-stream" ∷ (json_words ++ id ∷ []))
  call_of (pause id) = of_words (codes "pause" ∷ id ∷ [])
  call_of (unpause id) = of_words (codes "unpause" ∷ id ∷ [])
  call_of (top id) = of_words (codes "top" ∷ id ∷ [])
  call_of (stop id timeout) = of_words (codes "stop" ∷ codes "-t" ∷ decimal timeout ∷ id ∷ [])
  call_of (restart id timeout) = of_words (codes "restart" ∷ codes "-t" ∷ decimal timeout ∷ id ∷ [])
  call_of (remove id force) =
      of_words (codes "rm" ∷ ((if force then codes "-f" ∷ [] else []) ++ id ∷ []))
  call_of (logs id tail since) =
      of_words (codes "logs" ∷ codes "--tail" ∷ decimal tail ∷ (since_words since ++ id ∷ []))
  call_of (exec id command timeout) =
      of_words (codes "exec" ∷ id ∷ codes "sh" ∷ codes "-c" ∷ command ∷ [])
  call_of (rename id new_name) = of_words (codes "rename" ∷ id ∷ new_name ∷ [])
  call_of (kill id signal) = of_words (codes "kill" ∷ codes "--signal" ∷ signal ∷ id ∷ [])
  call_of (update id memory cpus restart_policy) = of_words (
      codes "update"
      ∷ ((option (codes "--memory") memory
            ++ (option (codes "--cpus") cpus ++ option (codes "--restart") restart_policy))
          ++ id ∷ []))
  call_of (read id path) = of_words (codes "cp" ∷ (id ++ (codes ":" ++ path)) ∷ codes "-" ∷ [])
  call_of (write id path contents) =
      with_stdin contents (codes "cp" ∷ codes "-" ∷ (id ++ (codes ":" ++ path)) ∷ [])
  call_of (port id private_port) = of_words (codes "port" ∷ id ∷ port_word private_port)
  call_of (wait id timeout) = of_words (codes "wait" ∷ id ∷ [])
