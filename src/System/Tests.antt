-- ===== src/System/Tests.antt =====
-- A prune of containers.
use node_nexus_api.Prelude.{true, [], ◌∷◌, Text, codes, ◌≡◌, refl}
use node_nexus_api.Docker.Commands.{Within}
use node_nexus_api.Containers.Tests.{python, world}
use node_nexus_api.Validation.{split_at}
use node_nexus_api.System.{Loaded, no_json, parts_of, deleted_ids, report}
use node_nexus_api.System.Commands.{fewer, serve_system, system_call, serve_system_commands}

abbrev load : Text → Loaded Unit
load line = no_json

serve_system_commands_example :
    Within (system_call (fewer true)) world (serve_system python load (fewer true) world)
serve_system_commands_example = serve_system_commands python load world (fewer true)

-- Ids on the line of the header are reported, ids below it are not.
one_line :
    (report python (λ s. s) (λ s. s) (codes "Deleted:a1,b2" ∷ []) ([], [])).0
    ≡ codes "a1" ∷ codes "b2" ∷ []
unfolding report deleted_ids parts_of split_at
one_line = refl

below :
    (report python (λ s. s) (λ s. s) (codes "Deleted Containers:" ∷ codes "a1" ∷ []) ([], [])).0
    ≡ []
unfolding report deleted_ids parts_of split_at
below = refl
