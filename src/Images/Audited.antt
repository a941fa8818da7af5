-- ===== src/Images/Audited.antt =====
-- The audit event of an image request comes first.
use node_nexus_api.Prelude.{true, [], ◌∷◌, ◌++◌, codes, ◌≡◌}
use node_nexus_api.Shell.{quote}
use node_nexus_api.Shell.Lines.{join}
use node_nexus_api.Validation.{validate_image_name, validate_image_tag}
use node_nexus_api.Docker.Runs.{
  World, checked, get_target, log_required, call_required, call_piped_required,
}
use node_nexus_api.Docker.Order.{
  LedBy, Led-bind, Led-after, checked-quiet, target-quiet, Led-log_required, Led-call_required,
  Led-call_piped_required,
}
use node_nexus_api.Containers.{Python}
use node_nexus_api.Images.{
  validate_build_args, pull_image, remove_image, tag_image, build_image, push_image,
}
use node_nexus_api.Images.Requests.{
  ImageRequest, list_all, pull, push, inspect, remove, history, tag, build, serve_image,
  image_audit,
}

module _ {Item : Type 0} (py : Python Item) (w : World) where
  -- With an audit, a request to pull, push, remove, tag or build an image either raises an error with no effect at all, or has its committed audit event as its first effect.
  pub image_audited_first :
      w.has_audit ≡ true → (r : ImageRequest) → LedBy (image_audit r) (serve_image py r w)
  unfolding serve_image image_audit pull_image push_image remove_image tag_image build_image
  image_audited_first a list_all = tt
  image_audited_first a (pull image timeout) =
      Led-after "docker.image.pull.requested" w _ (checked (validate_image_name image))
        (checked-quiet (validate_image_name image) w)
        λ v. Led-after "docker.image.pull.requested" w _ get_target (target-quiet w) λ node.
          Led-bind "docker.image.pull.requested" w _ (log_required "docker.image.pull.requested")
            (Led-log_required w a "docker.image.pull.requested")
  image_audited_first a (push image timeout) =
      Led-after "docker.image.push.requested" w _ (checked (validate_image_name image))
        (checked-quiet (validate_image_name image) w)
        λ v.
          Led-bind "docker.image.push.requested" w _
            (call_required "docker.image.push.requested" (join (codes "push" ∷ quote v ∷ []))
              timeout)
            (Led-call_required w a "docker.image.push.requested"
              (join (codes "push" ∷ quote v ∷ [])) timeout)
  image_audited_first a (inspect image_id) = tt
  image_audited_first a (remove image_id) =
      Led-after "docker.image.remove.requested" w _ (checked (validate_image_tag image_id))
        (checked-quiet (validate_image_tag image_id) w)
        λ v.
          Led-bind "docker.image.remove.requested" w _
            (call_required "docker.image.remove.requested" (join (codes "rmi" ∷ quote v ∷ [])) 30)
            (Led-call_required w a "docker.image.remove.requested"
              (join (codes "rmi" ∷ quote v ∷ [])) 30)
  image_audited_first a (history image_id) = tt
  image_audited_first a (tag image_id repo t) =
      Led-after "docker.image.tag.requested" w _ (checked (validate_image_tag image_id))
        (checked-quiet (validate_image_tag image_id) w)
        λ source.
          Led-after "docker.image.tag.requested" w _
            (checked (validate_image_tag (repo ++ (codes ":" ++ t))))
            (checked-quiet (validate_image_tag (repo ++ (codes ":" ++ t))) w)
            λ target.
              Led-bind "docker.image.tag.requested" w _
                (call_required "docker.image.tag.requested"
                  (join (codes "tag" ∷ quote source ∷ quote target ∷ [])) 30)
                (Led-call_required w a "docker.image.tag.requested"
                  (join (codes "tag" ∷ quote source ∷ quote target ∷ [])) 30)
  image_audited_first a (build r) =
      Led-after "docker.image.build.requested" w _ (checked (validate_image_tag r.tag))
        (checked-quiet (validate_image_tag r.tag) w)
        λ t.
          Led-after "docker.image.build.requested" w _ (checked (validate_build_args r.build_args))
            (checked-quiet (validate_build_args r.build_args) w)
            λ args.
              Led-bind "docker.image.build.requested" w _
                (call_piped_required "docker.image.build.requested" r.dockerfile _ 600)
                (Led-call_piped_required w a "docker.image.build.requested" r.dockerfile _ 600)
