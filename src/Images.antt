-- ===== src/Images.antt =====
-- app/application/services/docker/image_service.py, on the traces of Docker/Runs.
pub mod Requests
pub mod Reading
pub mod Commands
pub mod Audited
mod Tests
use node_nexus_api.Prelude.{
  ℕ, String, Bool, true, false, Option, none, some, List, [], ◌∷◌, ◌++◌, map, Text, codes, length,
  drop, contains_text, starts_with, if◌then◌else◌, ◌==◌,
}
use node_nexus_api.Shell.{quote}
use node_nexus_api.Shell.Lines.{join}
use node_nexus_api.Validation.{validate_image_name, validate_image_tag, validate_build_arg_key}
use node_nexus_api.Docker.{build_docker_command}
use node_nexus_api.Docker.Runs.{
  Output, Fault, connection_failed, Effect, Outcome, returns, raises, execute, invalid, Op, ◌>>=◌,
  ◌>>◌, pure, raise, checked, get_target, raise_for, log, log_required, call, call_required,
  call_piped_required,
}
use node_nexus_api.Containers.{Python, json_format}
use node_nexus_api.Containers.Create.{flat}

-- DockerPullResultDTO, DockerImageTagResultDTO and DockerImageBuildResultDTO among the replies. What a
-- pull that did not reach the node has to say is left out.
pub data Reply (Item : Type 0) : Type 0 where
  images : List Item → Reply Item
  pulled : Text → (output : Text) → (success : Bool) → Reply Item
  unreachable : Text → Reply Item
  inspected : Item → Reply Item
  removed : Reply Item
  tagged : (source target : Text) → Reply Item
  built : (image_id tag output : Text) → Reply Item

-- DockerImageBuildRequestDTO
pub record BuildRequest : Type 0 where
  pub dockerfile : Text
  pub tag : Text
  pub build_args : List (Text × Text)
  pub no_cache : Bool

abbrev pub build_arg : Text × Text → List Text
build_arg (key, value) = codes "--build-arg" ∷ quote (key ++ (codes "=" ++ value)) ∷ []

-- `_build_build_command_args`
unfoldable pub build_command_args : BuildRequest → Text
build_command_args r = join (
    codes "build"
    ∷ codes "--tag"
    ∷ quote r.tag
    ∷ (flat (map build_arg r.build_args)
        ++ ((if r.no_cache then codes "--no-cache" ∷ [] else []) ++ codes "-" ∷ [])))

-- The keys that are accepted, with their values.
unfoldable pub validate_build_args : List (Text × Text) → Option (List (Text × Text))
validate_build_args [] = some []
validate_build_args ((key, value) ∷ args) =
    let rest = validate_build_args args in
    elim (validate_build_arg_key key) [
      | none ↦ none
      | some k ↦ elim rest [ none ↦ none | some validated ↦ some ((k, value) ∷ validated) ]
    ]

abbrev pub is_connection_failed : Fault → Bool
is_connection_failed connection_failed = true
is_connection_failed _ = false

abbrev pub caught_connection : List Effect × Outcome Output → List Effect × Outcome (Option Output)
caught_connection (es, returns out) = (es, returns (some out))
caught_connection (es, raises e) =
    if is_connection_failed e then (es, returns none) else (es, raises e)

-- `execute` under `except ConnectionFailedError`
unfoldable pub attempt_connection : Text → ℕ → Op (Option Output)
attempt_connection command timeout w = caught_connection (execute command timeout w)

module _ {Item : Type 0} (py : Python Item) where
  abbrev pub last_of : List Text → Text
  last_of [] = []
  last_of (w ∷ []) = w
  last_of (w ∷ v ∷ ws) = last_of (v ∷ ws)

  -- What the lines say of the image that was built, from the last one on.
  unfoldable pub built_id : List Text → Text
  built_id [] = []
  built_id (line ∷ lines) =
      let stripped = py.strip line in
      let token = last_of (py.fields stripped) in
      let rest = built_id lines in
      if starts_with (codes "Successfully built ") stripped
      then py.strip (drop 19 stripped)
      else if contains_text (codes "sha256:") stripped
      then (if starts_with (codes "sha256:") token then token else rest)
      else rest

  unfoldable pub list_images : Op (Reply Item)
  list_images = do
    out ← call (join (codes "images" ∷ json_format)) 30
    log "docker.images.list"
    pure (images (py.parse_json_lines out.stdout))

  -- The output of a pull or a push whose command has ended.
  abbrev pub outcome_of : Text → Output → Reply Item
  outcome_of image out =
      pulled image (if out.exit_code == 0 then out.stdout else out.stderr) (out.exit_code == 0)

  abbrev pub pull_reply : Text → Option Output → Op (Reply Item)
  pull_reply image none = log "docker.image.pull" >> pure (unreachable image)
  pull_reply image (some out) =
      raise_for out.stderr out.exit_code >> log "docker.image.pull" >> pure (outcome_of image out)

  unfoldable pub pull_image : Text → ℕ → Op (Reply Item)
  pull_image image timeout = do
    validated ← checked (validate_image_name image)
    node ← get_target
    log_required "docker.image.pull.requested"
    out ←
        attempt_connection
          (build_docker_command node.docker_host (join (codes "pull" ∷ validated ∷ []))) timeout
    pull_reply validated out

  abbrev pub first_image : List Item → Op (Reply Item)
  first_image [] = raise invalid
  first_image (i ∷ rest) = log "docker.image.inspect" >> pure (inspected i)

  unfoldable pub inspect_image : Text → Op (Reply Item)
  inspect_image image_id = do
    id ← checked (validate_image_tag image_id)
    out ← call (join (codes "inspect" ∷ codes "--type=image" ∷ quote id ∷ json_format)) 30
    first_image (py.parse_json_array out.stdout)

  unfoldable pub remove_image : Text → Op (Reply Item)
  remove_image image_id = do
    id ← checked (validate_image_tag image_id)
    call_required "docker.image.remove.requested" (join (codes "rmi" ∷ quote id ∷ [])) 30
    log "docker.image.remove"
    pure removed

  unfoldable pub tag_image : Text → Text → Text → Op (Reply Item)
  tag_image image_id repo tag = do
    source ← checked (validate_image_tag image_id)
    target ← checked (validate_image_tag (repo ++ (codes ":" ++ tag)))
    call_required "docker.image.tag.requested"
        (join (codes "tag" ∷ quote source ∷ quote target ∷ [])) 30
    log "docker.image.tag"
    pure (tagged source target)

  unfoldable pub build_image : BuildRequest → Op (Reply Item)
  build_image r = do
    tag ← checked (validate_image_tag r.tag)
    build_args ← checked (validate_build_args r.build_args)
    out ←
        call_piped_required "docker.image.build.requested" r.dockerfile
          (build_command_args (record {
            dockerfile = r.dockerfile;
            tag = tag;
            build_args = build_args;
            no_cache = r.no_cache;
          }))
          600
    log "docker.image.build"
    pure (built (built_id (py.lines_from_last (py.strip out.stdout))) tag (py.strip out.stdout))

  unfoldable pub push_image : Text → ℕ → Op (Reply Item)
  push_image image timeout = do
    validated ← checked (validate_image_name image)
    out ←
        call_required "docker.image.push.requested" (join (codes "push" ∷ quote validated ∷ []))
          timeout
    log "docker.image.push"
    pure (outcome_of validated out)

  unfoldable pub image_history : Text → Op (Reply Item)
  image_history image_id = do
    id ← checked (validate_image_tag image_id)
    out ← call (join (codes "history" ∷ (json_format ++ quote id ∷ []))) 30
    log "docker.image.history"
    pure (images (py.parse_json_lines out.stdout))
