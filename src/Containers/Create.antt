-- ===== src/Containers/Create.antt =====
-- `docker create`, and the operations that follow the lifecycle.
use node_nexus_api.Prelude.{
  ℕ, Bool, Option, none, some, List, [], ◌∷◌, ◌++◌, map, Text, codes, text_eq, if◌then◌else◌,
}
use node_nexus_api.Shell.{quote}
use node_nexus_api.Shell.Lines.{join}
use node_nexus_api.Validation.{
  Value, VolumeSpec, validate_image_name, validate_container_id, validate_container_name,
  validate_network_name, validate_restart_policy, validate_env_vars, validate_labels,
  validate_volume_mounts,
}
use node_nexus_api.Validation.Ports.{validate_port_mappings}
use node_nexus_api.Docker.Runs.{
  invalid, missing, value_error, Op, ◌>>=◌, ◌>>◌, pure, raise, checked, get_target, execute, log,
  log_required, call, call_required, call_piped, finished,
}
use node_nexus_api.Docker.{build_docker_command}
use node_nexus_api.Containers.{Python, Reply, done, text, table, code, created, announced, flag}

-- ContainerCreateRequestDTO
pub record CreateRequest : Type 0 where
  pub image : Text
  pub name : Option Text
  pub command : Option Text
  pub ports : List (Text × Text)
  pub volumes : List (Text × Text × Text)
  pub env : List Text
  pub labels : List (Text × Text)
  pub network : Option Text
  pub restart_policy : Option Text

-- `d[k] = v`, and `dict(pairs)`
unfoldable pub put_text {ℓ} : {V : Type ℓ} → List (Text × V) → Text → V → List (Text × V)
put_text [] k v = (k, v) ∷ []
put_text ((j, w) ∷ d) k v =
    let rest = put_text d k v in if text_eq j k then (j, v) ∷ d else (j, w) ∷ rest

unfoldable pub put_all {ℓ} : {V : Type ℓ} → List (Text × V) → List (Text × V) → List (Text × V)
put_all d [] = d
put_all d ((k, v) ∷ pairs) = put_all (put_text d k v) pairs

abbrev pub dict_of {ℓ} : {V : Type ℓ} → List (Text × V) → List (Text × V)
dict_of pairs = put_all [] pairs

abbrev pub flat : List (List Text) → List Text
flat [] = []
flat (xs ∷ xss) = xs ++ flat xss

abbrev pub published_port : Text × Text → List Text
published_port (container_spec, host_port) =
    codes "-p" ∷ (quote host_port ++ (codes ":" ++ quote container_spec)) ∷ []

abbrev pub mounted_volume : Text × Text × Text → List Text
mounted_volume (host, bind, mode) =
    codes "-v" ∷ (quote host ++ (codes ":" ++ (quote bind ++ (codes ":" ++ quote mode)))) ∷ []

abbrev pub labelled : Text × Text → List Text
labelled (key, value) = codes "--label" ∷ quote (key ++ (codes "=" ++ value)) ∷ []

abbrev pub env_flag : Text → List Text
env_flag entry = codes "-e" ∷ quote entry ∷ []

-- `_build_create_args`, with the tokens of the command
unfoldable pub build_create_args : CreateRequest → List Text → Text
build_create_args r tokens = join (
    codes "create"
    ∷ (flag (codes "--name") r.name
        ++ (flag (codes "--restart") r.restart_policy
            ++ (flat (map published_port r.ports)
                ++ (flat (map mounted_volume r.volumes)
                    ++ (flat (map env_flag r.env)
                        ++ (flat (map labelled r.labels)
                            ++ (flag (codes "--network") r.network
                                ++ (quote r.image ∷ map quote tokens)))))))))

abbrev pub checked_if_some : (Text → Option Text) → Option Text → Op (Option Text)
checked_if_some validate none = pure none
checked_if_some validate (some s) = checked (validate s) >>= λ v. pure (some v)

-- `validate(s) if s else None`
abbrev pub checked_if_nonempty : (Text → Option Text) → Option Text → Op (Option Text)
checked_if_nonempty validate none = pure none
checked_if_nonempty validate (some []) = pure none
checked_if_nonempty validate (some (c ∷ s)) = checked (validate (c ∷ s)) >>= λ v. pure (some v)

abbrev pub tokens_of : Option (List Text) → Op (List Text)
tokens_of none = raise value_error
tokens_of (some tokens) = pure tokens

abbrev pub as_spec : Text × Text × Text → Text × Option VolumeSpec
as_spec (host, bind, mode) =
    (host, some (record { bind = some (Value.text bind); mode = some (Value.text mode) }))

abbrev pub as_value : Text × Text → Text × Value
as_value (key, value) = (key, Value.text value)

abbrev pub to_entry : Text × Text × Text → Text × (Text × Text)
to_entry (host, bind, mode) = (host, (bind, mode))

abbrev pub of_entry : Text × (Text × Text) → Text × Text × Text
of_entry (host, (bind, mode)) = (host, bind, mode)

-- `{hp: {"bind": b, "mode": m} for hp, b, m in volumes}`
abbrev pub volume_dict : List (Text × Text × Text) → List (Text × Text × Text)
volume_dict volumes = map of_entry (dict_of (map to_entry volumes))

abbrev pub text_of : Value → Text
text_of (Value.text s) = s
text_of Value.other = []

abbrev pub label_text : Text × Value → Text × Text
label_text (key, value) = (key, text_of value)

-- The checks of `create_container` in their order, and the request that they make.
unfoldable pub normalize : (ℕ → Bool) → CreateRequest → Op CreateRequest
normalize is_digit r = do
  image ← checked (validate_image_name r.image)
  name ← checked_if_some validate_container_name r.name
  ports ← checked (validate_port_mappings is_digit (dict_of r.ports))
  volumes ← checked (validate_volume_mounts (map as_spec (volume_dict r.volumes)))
  env ← checked (validate_env_vars r.env)
  labels ← checked (validate_labels (map as_value (dict_of r.labels)))
  network ← checked_if_nonempty validate_network_name r.network
  restart_policy ← checked_if_nonempty validate_restart_policy r.restart_policy
  pure (record {
    image = image;
    name = name;
    command = r.command;
    ports = ports;
    volumes = volumes;
    env = env;
    labels = map label_text labels;
    network = network;
    restart_policy = restart_policy;
  })

-- `create_container`
module _ {Item : Type 0} (py : Python Item) where
  abbrev pub tokens_of_command : Option Text → Op (List Text)
  tokens_of_command none = pure []
  tokens_of_command (some []) = pure []
  tokens_of_command (some (c ∷ s)) = tokens_of (py.split (c ∷ s))

  abbrev pub created_reply : Text → Op (Reply Item)
  created_reply [] = raise invalid
  created_reply (c ∷ id) = log "docker.container.create" >> pure (created (c ∷ id))

  unfoldable pub create_container : CreateRequest → Op (Reply Item)
  create_container request = do
    r ← normalize py.is_digit request
    node ← get_target
    tokens ← tokens_of_command r.command
    log_required "docker.container.create.requested"
    out ← execute (build_docker_command node.docker_host (build_create_args r tokens)) 120
    finished out
    created_reply (py.last_line out.stdout)

  -- The operations that follow.
  unfoldable pub pause_container : Text → Op (Reply Item)
  pause_container container_id = do
    id ← checked (validate_container_id container_id)
    call (join (codes "pause" ∷ id ∷ [])) 30
    announced "docker.container.pause"

  unfoldable pub unpause_container : Text → Op (Reply Item)
  unpause_container container_id = do
    id ← checked (validate_container_id container_id)
    call (join (codes "unpause" ∷ id ∷ [])) 30
    announced "docker.container.unpause"

  unfoldable pub rename_container : Text → Text → Op (Reply Item)
  rename_container container_id new_name = do
    id ← checked (validate_container_id container_id)
    call (join (codes "rename" ∷ id ∷ quote new_name ∷ [])) 30
    announced "docker.container.rename"

  abbrev pub top_reply : List (List Text) → Op (Reply Item)
  top_reply [] = raise missing
  top_reply (titles ∷ []) = raise missing
  top_reply (titles ∷ process ∷ processes) = pure (table (titles ∷ process ∷ processes))

  unfoldable pub top_container : Text → Op (Reply Item)
  top_container container_id = do
    id ← checked (validate_container_id container_id)
    out ← call (join (codes "top" ∷ id ∷ [])) 30
    top_reply (py.rows out.stdout)

  unfoldable pub kill_container : Text → Text → Op (Reply Item)
  kill_container container_id signal = do
    id ← checked (validate_container_id container_id)
    call_required "docker.container.kill.requested"
        (join (codes "kill" ∷ codes "--signal" ∷ quote signal ∷ id ∷ [])) 30
    announced "docker.container.kill"

  abbrev pub update_parts : Text → List Text → Op (Reply Item)
  update_parts id [] = raise invalid
  update_parts id (p ∷ parts) = do
    call_required "docker.container.update.requested"
        (join (codes "update" ∷ ((p ∷ parts) ++ id ∷ []))) 30
    log "docker.container.update"
    pure done

  unfoldable pub update_container : Text → Option Text → Option Text → Option Text → Op (Reply Item)
  update_container container_id memory cpus restart_policy = do
    id ← checked (validate_container_id container_id)
    policy ← checked_if_some validate_restart_policy restart_policy
    update_parts id (
        flag (codes "--memory") memory
        ++ (flag (codes "--cpus") cpus ++ flag (codes "--restart") policy))

  unfoldable pub get_archive : Text → Text → Op (Reply Item)
  get_archive container_id path = do
    id ← checked (validate_container_id container_id)
    out ← call (join (codes "cp" ∷ (id ++ (codes ":" ++ quote path)) ∷ codes "-" ∷ [])) 30
    log "docker.container.archive.get"
    pure (text out.stdout)

  unfoldable pub put_archive : Text → Text → Text → Op (Reply Item)
  put_archive container_id path contents = do
    id ← checked (validate_container_id container_id)
    call_piped contents (join (codes "cp" ∷ codes "-" ∷ (id ++ (codes ":" ++ quote path)) ∷ [])) 30
    log "docker.container.archive.put"
    pure done

  abbrev pub port_argument : Option Text → List Text
  port_argument none = []
  port_argument (some []) = []
  port_argument (some (c ∷ s)) = quote (c ∷ s) ∷ []

  unfoldable pub get_port : Text → Option Text → Op (Reply Item)
  get_port container_id private_port = do
    id ← checked (validate_container_id container_id)
    out ← call (join (codes "port" ∷ id ∷ port_argument private_port)) 30
    log "docker.container.port"
    pure (text (py.strip out.stdout))

  abbrev pub or_zero : Option ℕ → ℕ
  or_zero none = 0
  or_zero (some n) = n

  abbrev pub or_sixty : Option ℕ → ℕ
  or_sixty none = 60
  or_sixty (some n) = n

  unfoldable pub wait_container : Text → Option ℕ → Op (Reply Item)
  wait_container container_id timeout = do
    id ← checked (validate_container_id container_id)
    out ← call (join (codes "wait" ∷ id ∷ [])) (or_sixty timeout)
    log "docker.container.wait"
    pure (code (or_zero (py.to_int (py.last_line out.stdout))))
