-- ===== src/Containers/Creating.antt =====
-- The one command of `docker create`.
use mathlib.Core.Path.{subst}
use node_nexus_api.Prelude.{
  Option, none, some, List, [], ◌∷◌, map, Text, codes, ◌≡◌, refl, sym, ap, ◌∙◌,
}
use node_nexus_api.Shell.{is_safe, gap, shell_words, quote}
use node_nexus_api.Shell.Lines.{Reads, AllRead, join_words, Reads-quote}
use node_nexus_api.Docker.{build_docker_command}
use node_nexus_api.Docker.Runs.{World, execute, log_required, finished}
use node_nexus_api.Docker.Commands.{
  Call, Within, Within-bind, Within-log_required, Within-target, Within-execute, Within-finished,
  docker-words,
}
use node_nexus_api.Docker.Returns.{Within-then}
use node_nexus_api.Containers.{Python, created}
use node_nexus_api.Containers.Create.{
  CreateRequest, build_create_args, flat, published_port, mounted_volume, labelled, env_flag,
  dict_of, volume_dict, normalize, tokens_of, tokens_of_command, created_reply, create_container,
}
use node_nexus_api.Containers.Requests.{
  create, option, call_of, create_words, port_flag, volume_flag, env_words, label_flag,
  option_if_nonempty, command_tokens,
}
use node_nexus_api.Containers.Reading.{
  Reads-literal, AllRead-append, read-flat, port-Reads, volume-Reads, label-Reads, env-Reads,
  all-quoted,
}
use node_nexus_api.Containers.Checked.{Ready, normalize-Ready, Within-normalize, tokens-same}
use node_nexus_api.Containers.Commands.{Within-logged}

module _ {Item : Type 0} (py : Python Item) (w : World) where
  Within-tokens : (c : Call) (o : Option Text) → Within c w (tokens_of_command py o w)
  Within-tokens c none = tt
  Within-tokens c (some []) = tt
  Within-tokens c (some (d ∷ s)) = tokens (py.split (d ∷ s))
    where
      tokens : (o : Option (List Text)) → Within c w (tokens_of o w)
      tokens none = tt
      tokens (some ts) = tt

  Within-created_reply : (c : Call) (id : Text) → Within c w (created_reply py id w)
  Within-created_reply c [] = tt
  Within-created_reply c (d ∷ id) = Within-logged c w "docker.container.create" (created (d ∷ id))

  create-Reads :
      (r r' : CreateRequest)
      → Ready r r'
      → (tokens : List Text) → tokens ≡ command_tokens py r'.command
      → shell_words gap [] (build_create_args r' tokens) ≡ some (create_words py r)
  unfolding build_create_args is_safe
  create-Reads r r' ready tokens same = join_words _ (create_words py r) (
    Reads-literal (codes "create") refl refl,
    AllRead-append _ (option (codes "--name") r.name) _ _ ready.name (
        AllRead-append _ (option_if_nonempty (codes "--restart") r.restart_policy) _ _
          ready.restart_policy
          (AllRead-append _ _ _ _
            (subst
              (λ ps.
                AllRead (flat (map published_port ps)) (flat (map port_flag (dict_of r.ports))))
              (sym ready.ports) (read-flat published_port port_flag port-Reads (dict_of r.ports)))
            (AllRead-append _ _ _ _
              (subst
                (λ vs.
                  AllRead (flat (map mounted_volume vs))
                    (flat (map volume_flag (volume_dict r.volumes))))
                (sym ready.volumes)
                (read-flat mounted_volume volume_flag volume-Reads (volume_dict r.volumes)))
              (AllRead-append _ _ _ _
                (subst (λ es. AllRead (flat (map env_flag es)) (flat (map env_words r.env)))
                  (sym ready.env) (read-flat env_flag env_words env-Reads r.env))
                (AllRead-append _ _ _ _
                  (subst
                    (λ ls.
                      AllRead (flat (map labelled ls)) (flat (map label_flag (dict_of r.labels))))
                    (sym ready.labels)
                    (read-flat labelled label_flag label-Reads (dict_of r.labels)))
                  (AllRead-append _ (option_if_nonempty (codes "--network") r.network) _ _
                    ready.network
                    (
                      subst (λ i. Reads (quote r'.image) i) ready.image (Reads-quote r'.image),
                      subst (AllRead (map quote tokens))
                          (same ∙ ap (command_tokens py) ready.command) (all-quoted tokens),
                    ))))))),
  )

  pub commands-create :
      (r : CreateRequest) → Within (call_of py (create r)) w (create_container py r w)
  unfolding call_of create_container
  commands-create r =
      let c = call_of py (create r) in
      Within-then (Ready r) w _ c (normalize py.is_digit r) (Within-normalize py.is_digit r c w)
        (normalize-Ready py.is_digit r w)
        λ r' ready. Within-target c w _ λ node e d.
          Within-then (λ tokens. tokens ≡ command_tokens py r'.command) w _ c
            (tokens_of_command py r'.command) (Within-tokens c r'.command)
            (tokens-same py r'.command w)
            λ tokens same.
              Within-bind c w (log_required "docker.container.create.requested") _
                (Within-log_required c w "docker.container.create.requested")
                λ _.
                  Within-bind c w
                    (execute (build_docker_command node.docker_host (build_create_args r' tokens))
                      120)
                    _
                    (Within-execute c w node
                      (build_docker_command node.docker_host (build_create_args r' tokens)) 120 e d
                      (docker-words node.docker_host (build_create_args r' tokens)
                        (create_words py r) (create-Reads r r' ready tokens same)))
                    λ out.
                      Within-bind c w (finished out) _ (Within-finished c w out)
                        λ _. Within-created_reply c (py.last_line out.stdout)
