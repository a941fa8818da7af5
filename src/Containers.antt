-- ===== src/Containers.antt =====
-- app/application/services/docker/container_service.py: the operations on containers, as traces of what
-- they do. Of an answer in JSON the whole item is returned; the service picks its fields. What the
-- service takes from Python's library is a parameter.
pub mod Create
pub mod Requests
pub mod Reading
pub mod Checked
pub mod Commands
pub mod Varying
pub mod Creating
pub mod Since
pub mod Audited
pub mod Serve
pub mod Tests
use node_nexus_api.Prelude.{
  ℕ, String, Bool, true, false, not, Option, none, some, List, [], ◌∷◌, ◌++◌, ◌&&◌, ◌||◌, Text,
  codes, ltb, length, all_of, if◌then◌else◌, ◌==◌,
}
use node_nexus_api.Shell.{quote}
use node_nexus_api.Shell.Lines.{join, decimal, is_nonempty}
use node_nexus_api.Validation.{validate_container_id, validate_restart_policy}
use node_nexus_api.Docker.Runs.{
  Node, Output, Fault, missing, invalid, value_error, Effect, ran, Outcome, returns, raises, World,
  Op, ◌>>=◌, ◌>>◌, pure, raise, checked, get_target, execute, log, log_required, publish, call,
  call_required, call_piped,
}
use node_nexus_api.Docker.{build_docker_command}

-- `json.loads` behind the parsers, `str.isdigit`, the seconds of `datetime.fromisoformat`, `str.strip`, the
-- last line of a text, its lines as words, `int`, `shlex.split`, `str.split`, the lines of a text from
-- the last one on.
pub record Python (Item : Type 0) : Type 0 where
  pub parse_json_lines : Text → List Item
  pub parse_json_array : Text → List Item
  pub is_digit : ℕ → Bool
  pub iso_seconds : Text → Option (Bool × ℕ)
  pub strip : Text → Text
  pub last_line : Text → Text
  pub rows : Text → List (List Text)
  pub to_int : Text → Option ℕ
  pub split : Text → Option (List Text)
  pub fields : Text → List Text
  pub lines_from_last : Text → List Text
  pub lines : Text → List Text

pub data Reply (Item : Type 0) : Type 0 where
  done : Reply Item
  text : Text → Reply Item
  items : List Item → Reply Item
  item : Item → Reply Item
  table : List (List Text) → Reply Item
  result : Output → Reply Item
  timed_out : Reply Item
  code : ℕ → Reply Item
  created : Text → Reply Item

-- `--format '{{json .}}'`
abbrev pub json_format : List Text
json_format = codes "--format" ∷ codes "'{{json .}}'" ∷ []

abbrev pub announced : {Item : Type 0} → String → Op (Reply Item)
announced event = log event >> publish event >> pure done

-- The number of seconds, if there is one; `true` stands for one before 1970.
abbrev pub or_decimal : Option (Bool × ℕ) → Option Text
or_decimal none = none
or_decimal (some (before, n)) = some ((if before then codes "-" else []) ++ decimal n)

abbrev pub last_separator : Text → Text → Text
last_separator stdout [] = []
last_separator [] (c ∷ stderr) = if c == 10 then [] else 10 ∷ []
last_separator (d ∷ []) (c ∷ stderr) = if d == 10 || c == 10 then [] else 10 ∷ []
last_separator (d ∷ e ∷ stdout) stderr = last_separator (e ∷ stdout) stderr

-- What `docker logs` wrote on its two streams, with a newline between them.
unfoldable pub merged_logs : Text → Text → Text
merged_logs [] stderr = stderr
merged_logs (d ∷ stdout) [] = d ∷ stdout
merged_logs (d ∷ stdout) (c ∷ stderr) =
    (d ∷ stdout) ++ (last_separator (d ∷ stdout) (c ∷ stderr) ++ c ∷ stderr)

abbrev pub caught : List Effect × Outcome Output → List Effect × Outcome (Option Output)
caught (es, returns out) = (es, returns (some out))
caught (es, raises e) = (es, returns none)

-- `execute` under `except Exception`
unfoldable pub attempt : Text → ℕ → Op (Option Output)
attempt command timeout w = caught (execute command timeout w)

abbrev pub flag : Text → Option Text → List Text
flag name none = []
flag name (some v) = name ∷ quote v ∷ []

module _ {Item : Type 0} (py : Python Item) where
  -- `parse_since`
  unfoldable pub parse_since : Text → Option Text
  parse_since since =
      if is_nonempty since && all_of py.is_digit since
      then some since
      else or_decimal (py.iso_seconds since)

  abbrev pub first_or_missing : String → List Item → Op (Reply Item)
  first_or_missing event [] = raise missing
  first_or_missing event (i ∷ rest) = log event >> pure (item i)

  unfoldable pub list_containers : Bool → Op (Reply Item)
  list_containers all = do
    out ← call (join (codes "ps" ∷ ((if all then codes "-a" ∷ [] else []) ++ json_format))) 30
    log "docker.containers.list"
    pure (items (py.parse_json_lines out.stdout))

  unfoldable pub get_container : Text → Op (Reply Item)
  get_container container_id = do
    id ← checked (validate_container_id container_id)
    out ← call (join (codes "inspect" ∷ id ∷ [])) 30
    first_or_missing "docker.container.inspect" (py.parse_json_array out.stdout)

  -- `_lifecycle_action`, with the names of its two events
  unfoldable pub lifecycle_action : Text → String → String → List Text → Op (Reply Item)
  lifecycle_action container_id requested event args = do
    id ← checked (validate_container_id container_id)
    call_required requested (join (args ++ id ∷ [])) 30
    announced event

  unfoldable pub start_container : Text → Op (Reply Item)
  unfolding lifecycle_action
  start_container id =
      lifecycle_action id "docker.container.start.requested" "docker.container.start"
        (codes "start" ∷ [])

  unfoldable pub stop_container : Text → ℕ → Op (Reply Item)
  stop_container id timeout =
      lifecycle_action id "docker.container.stop.requested" "docker.container.stop"
        (codes "stop" ∷ codes "-t" ∷ decimal timeout ∷ [])

  unfoldable pub restart_container : Text → ℕ → Op (Reply Item)
  restart_container id timeout =
      lifecycle_action id "docker.container.restart.requested" "docker.container.restart"
        (codes "restart" ∷ codes "-t" ∷ decimal timeout ∷ [])

  unfoldable pub remove_container : Text → Bool → Op (Reply Item)
  remove_container id force =
      lifecycle_action id "docker.container.remove.requested" "docker.container.remove"
        (codes "rm" ∷ (if force then codes "-f" ∷ [] else []))

  abbrev pub since_flag : Option Text → List Text
  since_flag none = []
  since_flag (some since) = codes "--since" ∷ since ∷ []

  -- `parse_since(since) if since else None`
  abbrev pub checked_since : Option Text → Op (Option Text)
  checked_since none = pure none
  checked_since (some []) = pure none
  checked_since (some (c ∷ since)) = checked (parse_since (c ∷ since)) >>= λ v. pure (some v)

  unfoldable pub get_logs : Text → ℕ → Option Text → Op (Reply Item)
  get_logs container_id tail since = do
    id ← checked (validate_container_id container_id)
    normalized ← checked_since since
    out ←
        call
          (join (codes "logs" ∷ codes "--tail" ∷ decimal tail ∷ (since_flag normalized ++ id ∷ [])))
          30
    log "docker.container.logs"
    pure (text (merged_logs out.stdout out.stderr))

  abbrev pub exec_reply : Option Output → Op (Reply Item)
  exec_reply none = pure timed_out
  exec_reply (some out) = log "docker.container.exec" >> pure (result out)

  unfoldable pub exec_command : Text → Text → ℕ → Op (Reply Item)
  exec_command container_id command timeout = do
    id ← checked (validate_container_id container_id)
    node ← get_target
    log_required "docker.container.exec.requested"
    out ←
        attempt
          (build_docker_command node.docker_host
            (join (codes "exec" ∷ id ∷ codes "sh" ∷ codes "-c" ∷ quote command ∷ [])))
          timeout
    exec_reply out

  unfoldable pub get_stats : Text → Op (Reply Item)
  get_stats container_id = do
    id ← checked (validate_container_id container_id)
    out ← call (join (codes "stats" ∷ codes "--no-stream" ∷ (json_format ++ id ∷ []))) 30
    first_or_missing "docker.container.stats" (py.parse_json_lines out.stdout)
