-- ===== src/System/Commands.antt =====
-- Every command that a system operation runs is the call that the request is for.
use node_nexus_api.Prelude.{
  Bool, true, false, Option, none, some, List, [], ◌∷◌, Text, codes, keep_if, if◌then◌else◌, refl,
}
use node_nexus_api.Shell.{is_safe}
use node_nexus_api.Shell.Lines.{join, AllRead, join_words, is_nonempty}
use node_nexus_api.Docker.Runs.{Output, World, Op, index_error, ◌>>=◌, raise, raise_for, log, call}
use node_nexus_api.Docker.Commands.{
  Call, of_words, Within, Within-bind, Within-log, Within-raise_for, Within-call,
}
use node_nexus_api.Containers.{Python, json_format}
use node_nexus_api.Containers.Requests.{json_words}
use node_nexus_api.Containers.Reading.{Reads-literal, Reads-json}
use node_nexus_api.System.{
  Loaded, Reply, first_or, info, usage, usage_reply, disk_usage, prune_containers, prune_images,
  version, found_or, system_prune,
}

pub data SystemRequest : Type 0 where
  about versions space fewer_containers fewer_images : SystemRequest
  fewer : (volumes : Bool) → SystemRequest

unfoldable pub serve_system :
    {Item : Type 0} → Python Item → (Text → Loaded Item) → SystemRequest → Op (Reply Item)
serve_system py load about = info py
serve_system py load versions = version py
serve_system py load space = disk_usage py load
serve_system py load fewer_containers = prune_containers py
serve_system py load fewer_images = prune_images py
serve_system py load (fewer volumes) = system_prune py volumes

unfoldable pub system_call : SystemRequest → Call
system_call about = of_words (codes "info" ∷ json_words)
system_call versions = of_words (codes "version" ∷ json_words)
system_call space = of_words (codes "system" ∷ codes "df" ∷ json_words)
system_call fewer_containers = of_words (codes "container" ∷ codes "prune" ∷ codes "-f" ∷ [])
system_call fewer_images = of_words (codes "image" ∷ codes "prune" ∷ codes "-f" ∷ [])
system_call (fewer volumes) =
    of_words (
      codes "system"
      ∷ codes "prune"
      ∷ codes "-f"
      ∷ (if volumes then codes "--volumes" ∷ [] else []))

json-Reads : AllRead json_format json_words
unfolding is_safe
json-Reads = (Reads-literal (codes "--format") refl refl, (Reads-json, tt))

volumes-Reads :
    (b : Bool)
    → AllRead (if b then codes "--volumes" ∷ [] else []) (if b then codes "--volumes" ∷ [] else [])
unfolding is_safe
volumes-Reads true = (Reads-literal (codes "--volumes") refl refl, tt)
volumes-Reads false = tt

module _ {Item : Type 0} (py : Python Item) (load : Text → Loaded Item) (w : World) where
  Within-one_call :
      (parts ws : List Text)
      → AllRead parts ws
      → (f : Output → Op (Reply Item)) → ((out : Output) → Within (of_words ws) w (f out w))
      → Within (of_words ws) w ((call (join parts) 30 >>= f) w)
  Within-one_call parts ws reads f after =
      Within-bind (of_words ws) w (call (join parts) 30) f
        (Within-call w (join parts) 30 ws (join_words parts ws reads)) after

  Within-first_or :
      (c : Call) (message : Text) (is : List Item) → Within c w (first_or py message is w)
  Within-first_or c message [] =
      Within-bind c w (raise_for message 1) (λ _. raise index_error)
        (Within-raise_for c w message 1) (λ _. tt)
  Within-first_or c message (i ∷ is) = tt

  Within-usage_reply : (c : Call) (o : Option (List Item)) → Within c w (usage_reply py o w)
  Within-usage_reply c none = tt
  Within-usage_reply c (some found) = tt

  -- Every command in the trace of a system operation is, as a shell reads it, the one call of the Docker CLI that the request stands for, on a node that has Docker.
  pub serve_system_commands :
      (r : SystemRequest) → Within (system_call r) w (serve_system py load r w)
  unfolding serve_system system_call is_safe info version disk_usage prune_containers prune_images
      system_prune
  serve_system_commands about =
      Within-one_call (codes "info" ∷ json_format) (codes "info" ∷ json_words)
        (Reads-literal (codes "info") refl refl, json-Reads) _
        (λ out.
          Within-first_or (system_call about) (codes "docker info returned empty output")
            (py.parse_json_array out.stdout))
  serve_system_commands versions =
      Within-one_call (codes "version" ∷ json_format) (codes "version" ∷ json_words)
        (Reads-literal (codes "version") refl refl, json-Reads) _
        (λ out.
          Within-first_or (system_call versions) (codes "docker version returned empty output")
            (found_or py (py.parse_json_array out.stdout) (py.parse_json_lines out.stdout)))
  serve_system_commands space =
      Within-one_call (codes "system" ∷ codes "df" ∷ json_format)
        (codes "system" ∷ codes "df" ∷ json_words)
        (
          Reads-literal (codes "system") refl refl,
          (Reads-literal (codes "df") refl refl, json-Reads),
        )
        _
        (λ out. Within-usage_reply (system_call space) (
          usage py load
            (keep_if (λ line. is_nonempty (py.strip line)) (py.lines (py.strip out.stdout)))))
  serve_system_commands fewer_containers =
      Within-one_call (codes "container" ∷ codes "prune" ∷ codes "-f" ∷ [])
        (codes "container" ∷ codes "prune" ∷ codes "-f" ∷ [])
        (
          Reads-literal (codes "container") refl refl,
          (Reads-literal (codes "prune") refl refl, (Reads-literal (codes "-f") refl refl, tt)),
        )
        _
        (λ out.
          Within-bind (system_call fewer_containers) w (log "docker.containers.prune") _
            (Within-log (system_call fewer_containers) w "docker.containers.prune") (λ _. tt))
  serve_system_commands fewer_images =
      Within-one_call (codes "image" ∷ codes "prune" ∷ codes "-f" ∷ [])
        (codes "image" ∷ codes "prune" ∷ codes "-f" ∷ [])
        (
          Reads-literal (codes "image") refl refl,
          (Reads-literal (codes "prune") refl refl, (Reads-literal (codes "-f") refl refl, tt)),
        )
        _
        (λ out.
          Within-bind (system_call fewer_images) w (log "docker.images.prune") _
            (Within-log (system_call fewer_images) w "docker.images.prune") (λ _. tt))
  serve_system_commands (fewer volumes) =
      Within-one_call
        (codes "system"
          ∷ codes "prune"
          ∷ codes "-f"
          ∷ (if volumes then codes "--volumes" ∷ [] else []))
        (codes "system"
          ∷ codes "prune"
          ∷ codes "-f"
          ∷ (if volumes then codes "--volumes" ∷ [] else []))
        (
          Reads-literal (codes "system") refl refl,
          (
            Reads-literal (codes "prune") refl refl,
            (Reads-literal (codes "-f") refl refl, volumes-Reads volumes),
          ),
        )
        _
        (λ out.
          Within-bind (system_call (fewer volumes)) w (log "docker.system.prune") _
            (Within-log (system_call (fewer volumes)) w "docker.system.prune") (λ _. tt))
