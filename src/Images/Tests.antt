-- ===== src/Images/Tests.antt =====
-- The image service at concrete requests.
use node_nexus_api.Prelude.{◌≡◌, refl, codes, true, [], ◌∷◌}
use node_nexus_api.Docker.Commands.{Within}
use node_nexus_api.Docker.Order.{LedBy}
use node_nexus_api.Containers.Tests.{python, world}
use node_nexus_api.Validation.{is_image, in_class, is_alphanumeric, is_letter}
use node_nexus_api.Images.{BuildRequest, built_id}
use node_nexus_api.Images.Requests.{ImageRequest, pull, build, serve_image, image_call, image_audit}
use node_nexus_api.Images.Commands.{serve_image_commands}
use node_nexus_api.Images.Audited.{image_audited_first}

abbrev alpine : ImageRequest
alpine = pull (codes "alpine:3") 300

plain_alpine : is_image (codes "alpine:3") ≡ true
unfolding is_image in_class is_alphanumeric is_letter
plain_alpine = refl

serve_image_commands_example : Within (image_call alpine) world (serve_image python alpine world)
serve_image_commands_example = serve_image_commands python world alpine plain_alpine

abbrev web : BuildRequest
web = record {
  dockerfile = codes "FROM alpine";
  tag = codes "web:1";
  build_args = (codes "VERSION", codes "1 2") ∷ [];
  no_cache = true;
}

image_audited_first_example : LedBy (image_audit (build web)) (serve_image python (build web) world)
image_audited_first_example = image_audited_first python world refl (build web)

-- The id that a builder prints last.
built_example :
    built_id python (codes "Successfully built 0a1b" ∷ codes "Step 1/1" ∷ []) ≡ codes "0a1b"
unfolding built_id
built_example = refl
