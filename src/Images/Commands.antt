-- ===== src/Images/Commands.antt =====
-- Every command that an image operation runs is the call that the request is for.
use mathlib.Core.Path.{subst}
use node_nexus_api.Prelude.{
  Bool-cases, inl, inr, ℕ, String, true, Option, none, some, List, [], ◌∷◌, ◌++◌, Text, codes, ◌≡◌,
  refl, sym, ap, ◌∙◌,
}
use node_nexus_api.Shell.{is_safe, quote}
use node_nexus_api.Shell.Lines.{join, Reads, join_words, Reads-plain}
use node_nexus_api.Validation.{is_image, validate_image_name, validate_image_tag}
use node_nexus_api.Validation.References.{image_text_safe}
use node_nexus_api.Docker.{build_docker_command}
use node_nexus_api.Docker.Runs.{
  Effect, Outcome, returns, raises, Output, World, ◌>>◌, pure, raise_for, execute, log,
  log_required, call, call_required, call_piped_required,
}
use node_nexus_api.Docker.Commands.{
  Call, Within, Within-bind, Within-checked, Within-log, Within-log_required, Within-target,
  Within-execute, Within-raise_for, Within-call, Within-call_required, Within-call_piped_required,
  docker-words,
}
use node_nexus_api.Containers.{Python, json_format}
use node_nexus_api.Containers.Requests.{json_words}
use node_nexus_api.Containers.Checked.{image-same}
use node_nexus_api.Containers.Reading.{Reads-literal, AllRead-append}
use node_nexus_api.Images.{
  Reply, unreachable, removed, tagged, outcome_of, pull_reply, first_image, validate_build_args,
  BuildRequest, is_connection_failed, caught_connection, attempt_connection, list_images,
  pull_image, inspect_image, remove_image, tag_image, build_image, push_image, image_history,
}
use node_nexus_api.Images.Requests.{
  ImageRequest, list_all, pull, push, inspect, remove, history, tag, build, serve_image, image_call,
  build_words, plain_pull,
}
use node_nexus_api.Images.Reading.{tag-same, build_args-same, kept-Reads, json-Reads, build-Reads}

module _ {Item : Type 0} (py : Python Item) (w : World) where
  Within-logged :
      (c : Call) (event : String) (a : Reply Item) → Within c w ((log event >> pure a) w)
  Within-logged c event a =
      Within-bind c w (log event) (λ _. pure a) (Within-log c w event) (λ _. tt)

  commands-list : Within (image_call list_all) w (list_images py w)
  unfolding image_call list_images is_safe
  commands-list =
      Within-bind (image_call list_all) w (call _ 30) _
        (Within-call w _ 30 (codes "images" ∷ json_words) (
          join_words (codes "images" ∷ json_format) (codes "images" ∷ json_words)
            (Reads-literal (codes "images") refl refl, json-Reads)))
        (λ out. Within-logged (image_call list_all) "docker.images.list" _)

  Within-first_image : (c : Call) (is : List Item) → Within c w (first_image py is w)
  Within-first_image c [] = tt
  Within-first_image c (i ∷ is) = Within-logged c "docker.image.inspect" _

  commands-inspect :
      (image_id : Text) → Within (image_call (inspect image_id)) w (inspect_image py image_id w)
  unfolding image_call inspect_image is_safe
  commands-inspect image_id =
      let c = image_call (inspect image_id) in
      Within-checked c w (validate_image_tag image_id) _ λ id valid.
        Within-bind c w (call _ 30) _
          (Within-call w _ 30 c.words (
            join_words (codes "inspect" ∷ codes "--type=image" ∷ quote id ∷ json_format) c.words (
              Reads-literal (codes "inspect") refl refl,
              (
                Reads-literal (codes "--type=image") refl refl,
                (kept-Reads validate_image_tag tag-same image_id id valid, json-Reads),
              ),
            )))
          (λ out. Within-first_image c (py.parse_json_array out.stdout))

  commands-history :
      (image_id : Text) → Within (image_call (history image_id)) w (image_history py image_id w)
  unfolding image_call image_history is_safe
  commands-history image_id =
      let c = image_call (history image_id) in
      Within-checked c w (validate_image_tag image_id) _ λ id valid.
        Within-bind c w (call _ 30) _
          (Within-call w _ 30 c.words (
            join_words (codes "history" ∷ (json_format ++ quote id ∷ [])) c.words (
              Reads-literal (codes "history") refl refl,
              AllRead-append json_format json_words (quote id ∷ []) (image_id ∷ []) json-Reads
                  (kept-Reads validate_image_tag tag-same image_id id valid, tt),
            )))
          (λ out. Within-logged c "docker.image.history" _)

  commands-remove :
      (image_id : Text) → Within (image_call (remove image_id)) w (remove_image py image_id w)
  unfolding image_call remove_image is_safe
  commands-remove image_id =
      let c = image_call (remove image_id) in
      Within-checked c w (validate_image_tag image_id) _ λ id valid.
        Within-bind c w (call_required "docker.image.remove.requested" _ 30) _
          (Within-call_required w _ 30 c.words
            (join_words (codes "rmi" ∷ quote id ∷ []) c.words (
              Reads-literal (codes "rmi") refl refl,
              (kept-Reads validate_image_tag tag-same image_id id valid, tt),
            ))
            "docker.image.remove.requested")
          (λ out. Within-logged c "docker.image.remove" removed)

  commands-tag :
      (image_id repo t : Text)
      → Within (image_call (tag image_id repo t)) w (tag_image py image_id repo t w)
  unfolding image_call tag_image is_safe
  commands-tag image_id repo t =
      let c = image_call (tag image_id repo t) in
      Within-checked c w (validate_image_tag image_id) _ λ source valid.
        Within-checked c w (validate_image_tag (repo ++ (codes ":" ++ t))) _ λ target valid'.
          Within-bind c w (call_required "docker.image.tag.requested" _ 30) _
            (Within-call_required w _ 30 c.words
              (join_words (codes "tag" ∷ quote source ∷ quote target ∷ []) c.words (
                Reads-literal (codes "tag") refl refl,
                (
                  kept-Reads validate_image_tag tag-same image_id source valid,
                  (
                    kept-Reads validate_image_tag tag-same (repo ++ (codes ":" ++ t)) target valid',
                    tt,
                  ),
                ),
              ))
              "docker.image.tag.requested")
            (λ out. Within-logged c "docker.image.tag" (tagged source target))

  commands-push :
      (image : Text) (timeout : ℕ)
      → Within (image_call (push image timeout)) w (push_image py image timeout w)
  unfolding image_call push_image is_safe
  commands-push image timeout =
      let c = image_call (push image timeout) in
      Within-checked c w (validate_image_name image) _ λ v valid.
        Within-bind c w (call_required "docker.image.push.requested" _ timeout) _
          (Within-call_required w _ timeout c.words
            (join_words (codes "push" ∷ quote v ∷ []) c.words (
              Reads-literal (codes "push") refl refl,
              (kept-Reads validate_image_name image-same image v valid, tt),
            ))
            "docker.image.push.requested")
          (λ out. Within-logged c "docker.image.push" _)

  commands-build : (r : BuildRequest) → Within (image_call (build r)) w (build_image py r w)
  unfolding image_call build_image is_safe
  commands-build r =
      let c = image_call (build r) in
      Within-checked c w (validate_image_tag r.tag) _ λ t valid.
        Within-checked c w (validate_build_args r.build_args) _ λ args valid'.
          Within-bind c w (call_piped_required "docker.image.build.requested" r.dockerfile _ 600) _
            (Within-call_piped_required w _ 600 c.words
              (build-Reads (record {
                dockerfile = r.dockerfile;
                tag = t;
                build_args = args;
                no_cache = r.no_cache;
              })
                ∙ ap
                    (λ (p : Text × List (Text × Text)). some (
                      build_words (record {
                        dockerfile = r.dockerfile;
                        tag = p.0;
                        build_args = p.1;
                        no_cache = r.no_cache;
                      })))
                    (same t args valid valid'))
              "docker.image.build.requested" r.dockerfile)
            (λ out. Within-logged c "docker.image.build" _)
    where
      same :
          (t : Text) (args : List (Text × Text))
          → validate_image_tag r.tag ≡ some t
          → validate_build_args r.build_args ≡ some args
          → ◌≡◌ {A = Text × List (Text × Text)} (t, args) (r.tag, r.build_args)
      same t args valid valid' =
          rw (tag-same r.tag t valid, build_args-same r.build_args args valid') refl

  Within-pull_reply :
      (c : Call) (image : Text) (o : Option Output) → Within c w (pull_reply py image o w)
  Within-pull_reply c image none = Within-logged c "docker.image.pull" (unreachable image)
  Within-pull_reply c image (some out) =
      Within-bind c w (raise_for out.stderr out.exit_code >> log "docker.image.pull")
        (λ _. pure (outcome_of py image out))
        (Within-bind c w (raise_for out.stderr out.exit_code) (λ _. log "docker.image.pull")
          (Within-raise_for c w out.stderr out.exit_code) (λ _. Within-log c w "docker.image.pull"))
        (λ _. tt)

  Within-caught_connection :
      (c : Call) (r : List Effect × Outcome Output)
      → Within c w r
      → Within c w (caught_connection r)
  Within-caught_connection c (es, returns out) h = h
  Within-caught_connection c (es, raises e) h = elim (Bool-cases (is_connection_failed e)) [
    | inl lost ↦ rw lost h
    | inr other ↦ rw other h
  ]

  commands-pull :
      (image : Text) (timeout : ℕ)
      → is_image image ≡ true
      → Within (image_call (pull image timeout)) w (pull_image py image timeout w)
  unfolding image_call pull_image attempt_connection is_safe
  commands-pull image timeout plain =
      let c = image_call (pull image timeout) in
      Within-checked c w (validate_image_name image) _ λ v valid. Within-target c w _ λ node e d.
        Within-bind c w (log_required "docker.image.pull.requested") _
          (Within-log_required c w "docker.image.pull.requested")
          λ _.
            Within-bind c w
              (attempt_connection
                (build_docker_command node.docker_host (join (codes "pull" ∷ v ∷ []))) timeout)
              _
              (Within-caught_connection c
                (execute (build_docker_command node.docker_host (join (codes "pull" ∷ v ∷ [])))
                  timeout w)
                (Within-execute c w node
                  (build_docker_command node.docker_host (join (codes "pull" ∷ v ∷ []))) timeout e d
                  (docker-words node.docker_host (join (codes "pull" ∷ v ∷ [])) c.words (
                    join_words (codes "pull" ∷ v ∷ []) c.words
                      (Reads-literal (codes "pull") refl refl, (name v valid, tt))))))
              (λ o. Within-pull_reply c v o)
    where
      name : (v : Text) → validate_image_name image ≡ some v → Reads v image
      name v valid =
          let (nonempty, safe) = image_text_safe image plain in
          subst (λ t. Reads t image) (sym (image-same image v valid))
            (Reads-plain image nonempty safe)

  -- Every command in the trace of an image operation is, as a shell reads it, the one call of the Docker CLI that the request stands for, on a node that has Docker. The name of a pull, which is not quoted, has no newline behind it.
  pub serve_image_commands :
      (r : ImageRequest) → plain_pull r ≡ true → Within (image_call r) w (serve_image py r w)
  unfolding serve_image
  serve_image_commands list_all h = commands-list
  serve_image_commands (pull image timeout) h = commands-pull image timeout h
  serve_image_commands (push image timeout) h = commands-push image timeout
  serve_image_commands (inspect image_id) h = commands-inspect image_id
  serve_image_commands (remove image_id) h = commands-remove image_id
  serve_image_commands (history image_id) h = commands-history image_id
  serve_image_commands (tag image_id repo t) h = commands-tag image_id repo t
  serve_image_commands (build r) h = commands-build r
