-- ===== src/Images/Requests.antt =====
-- The requests to the image service, the operation that serves each, the call of the Docker CLI that each
-- is to make, and the audit event that must come first.
use node_nexus_api.Prelude.{
  ℕ, String, Bool, true, Option, none, some, List, [], ◌∷◌, ◌++◌, map, Text, codes, if◌then◌else◌,
}
use node_nexus_api.Docker.Runs.{Op}
use node_nexus_api.Docker.Commands.{Call, of_words, with_stdin}
use node_nexus_api.Containers.{Python}
use node_nexus_api.Containers.Create.{flat}
use node_nexus_api.Containers.Requests.{json_words}
use node_nexus_api.Validation.{is_image}
use node_nexus_api.Images.{
  Reply, BuildRequest, list_images, pull_image, inspect_image, remove_image, tag_image, build_image,
  push_image, image_history,
}

pub data ImageRequest : Type 0 where
  list_all : ImageRequest
  pull push : (image : Text) → (timeout : ℕ) → ImageRequest
  inspect remove history : (image_id : Text) → ImageRequest
  tag : (image_id repo tag : Text) → ImageRequest
  build : BuildRequest → ImageRequest

unfoldable pub serve_image : {Item : Type 0} → Python Item → ImageRequest → Op (Reply Item)
serve_image py list_all = list_images py
serve_image py (pull image timeout) = pull_image py image timeout
serve_image py (push image timeout) = push_image py image timeout
serve_image py (inspect image_id) = inspect_image py image_id
serve_image py (remove image_id) = remove_image py image_id
serve_image py (history image_id) = image_history py image_id
serve_image py (tag image_id repo t) = tag_image py image_id repo t
serve_image py (build r) = build_image py r

abbrev pub build_arg_words : Text × Text → List Text
build_arg_words a = codes "--build-arg" ∷ (a.0 ++ (codes "=" ++ a.1)) ∷ []

abbrev pub build_words : BuildRequest → List Text
build_words r =
    codes "build"
    ∷ codes "--tag"
    ∷ r.tag
    ∷ (flat (map build_arg_words r.build_args)
        ++ ((if r.no_cache then codes "--no-cache" ∷ [] else []) ++ codes "-" ∷ []))

unfoldable pub image_call : ImageRequest → Call
image_call list_all = of_words (codes "images" ∷ json_words)
image_call (pull image timeout) = of_words (codes "pull" ∷ image ∷ [])
image_call (push image timeout) = of_words (codes "push" ∷ image ∷ [])
image_call (inspect image_id) =
    of_words (codes "inspect" ∷ codes "--type=image" ∷ image_id ∷ json_words)
image_call (remove image_id) = of_words (codes "rmi" ∷ image_id ∷ [])
image_call (history image_id) = of_words (codes "history" ∷ (json_words ++ image_id ∷ []))
image_call (tag image_id repo t) =
    of_words (codes "tag" ∷ image_id ∷ (repo ++ (codes ":" ++ t)) ∷ [])
image_call (build r) = with_stdin r.dockerfile (build_words r)

unfoldable pub image_audit : ImageRequest → Option String
image_audit (pull image timeout) = some "docker.image.pull.requested"
image_audit (push image timeout) = some "docker.image.push.requested"
image_audit (remove image_id) = some "docker.image.remove.requested"
image_audit (tag image_id repo t) = some "docker.image.tag.requested"
image_audit (build r) = some "docker.image.build.requested"
image_audit _ = none

-- The name of a pull, which is not quoted, has no newline behind it.
abbrev pub plain_pull : ImageRequest → Bool
plain_pull (pull image timeout) = is_image image
plain_pull _ = true
