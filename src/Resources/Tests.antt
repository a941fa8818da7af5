-- ===== src/Resources/Tests.antt =====
-- Networks and volumes at concrete requests.
use node_nexus_api.Prelude.{◌≡◌, refl, some, none, codes}
use node_nexus_api.Docker.Commands.{Within}
use node_nexus_api.Containers.Tests.{python, world}
use node_nexus_api.Validation.Addresses.{is_ip_address, validate_ip_address}
use node_nexus_api.Resources.Requests.{ResourceRequest, connect, serve_resource, resource_call}
use node_nexus_api.Resources.Commands.{serve_resource_commands}

abbrev joined : ResourceRequest
joined = connect (record {
  network_id = codes "lan";
  container_id = codes "web";
  ip_address = some (codes "10.0.0.7");
})

serve_resource_commands_example :
    Within (resource_call joined) world (serve_resource python joined world)
serve_resource_commands_example = serve_resource_commands python world joined

ip_example : validate_ip_address python.is_digit (codes "10.0.0.7/24") ≡ some (codes "10.0.0.7/24")
unfolding validate_ip_address is_ip_address
ip_example = refl

no_ip_example : validate_ip_address python.is_digit (codes "10.0.0") ≡ none
unfolding validate_ip_address is_ip_address
no_ip_example = refl
