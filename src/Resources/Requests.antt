-- ===== src/Resources/Requests.antt =====
-- The requests on networks and volumes, the operation that serves each, and the call of the Docker CLI that
-- each is to make.
use node_nexus_api.Prelude.{Option, none, some, List, [], ◌∷◌, ◌++◌, Text, codes, if◌then◌else◌}
use node_nexus_api.Docker.Runs.{Op}
use node_nexus_api.Docker.Commands.{Call, of_words}
use node_nexus_api.Containers.{Python}
use node_nexus_api.Containers.Requests.{json_words, option_if_nonempty}
use node_nexus_api.Resources.{
  Reply, NetworkCreateRequest, NetworkConnectRequest, NetworkDisconnectRequest, VolumeCreateRequest,
  has_own_driver, list_networks, list_volumes, create_network, inspect_network, remove_network,
  connect_to_network, disconnect_from_network, create_volume, inspect_volume, remove_volume,
  prune_volumes, prune_networks,
}

pub data ResourceRequest : Type 0 where
  networks volumes : ResourceRequest
  new_network : NetworkCreateRequest → ResourceRequest
  network no_network : (network_id : Text) → ResourceRequest
  connect : NetworkConnectRequest → ResourceRequest
  disconnect : NetworkDisconnectRequest → ResourceRequest
  new_volume : VolumeCreateRequest → ResourceRequest
  volume no_volume : (volume_name : Text) → ResourceRequest
  fewer_volumes fewer_networks : ResourceRequest

unfoldable pub serve_resource : {Item : Type 0} → Python Item → ResourceRequest → Op (Reply Item)
serve_resource py networks = list_networks py
serve_resource py volumes = list_volumes py
serve_resource py (new_network r) = create_network py r
serve_resource py (network network_id) = inspect_network py network_id
serve_resource py (no_network network_id) = remove_network py network_id
serve_resource py (connect r) = connect_to_network py r
serve_resource py (disconnect r) = disconnect_from_network py r
serve_resource py (new_volume r) = create_volume py r
serve_resource py (volume volume_name) = inspect_volume py volume_name
serve_resource py (no_volume volume_name) = remove_volume py volume_name
serve_resource py fewer_volumes = prune_volumes py
serve_resource py fewer_networks = prune_networks py

abbrev pub given_name : Option Text → List Text
given_name none = []
given_name (some []) = []
given_name (some (c ∷ s)) = (c ∷ s) ∷ []

abbrev pub given_driver : Text → List Text
given_driver driver = if has_own_driver driver then codes "--driver" ∷ driver ∷ [] else []

unfoldable pub resource_call : ResourceRequest → Call
resource_call networks = of_words (codes "network" ∷ codes "ls" ∷ json_words)
resource_call volumes = of_words (codes "volume" ∷ codes "ls" ∷ json_words)
resource_call (new_network r) = of_words (
    codes "network"
    ∷ codes "create"
    ∷ codes "--driver"
    ∷ r.driver
    ∷ (option_if_nonempty (codes "--subnet") r.subnet
        ++ (option_if_nonempty (codes "--gateway") r.gateway ++ r.name ∷ [])))
resource_call (network network_id) = of_words (codes "network" ∷ codes "inspect" ∷ network_id ∷ [])
resource_call (no_network network_id) = of_words (codes "network" ∷ codes "rm" ∷ network_id ∷ [])
resource_call (connect r) = of_words (
    codes "network"
    ∷ codes "connect"
    ∷ (option_if_nonempty (codes "--ip") r.ip_address ++ r.network_id ∷ r.container_id ∷ []))
resource_call (disconnect r) = of_words (
    codes "network"
    ∷ codes "disconnect"
    ∷ ((if r.force then codes "--force" ∷ [] else []) ++ r.network_id ∷ r.container_id ∷ []))
resource_call (new_volume r) =
    of_words (codes "volume" ∷ codes "create" ∷ (given_driver r.driver ++ given_name r.name))
resource_call (volume volume_name) = of_words (codes "volume" ∷ codes "inspect" ∷ volume_name ∷ [])
resource_call (no_volume volume_name) = of_words (codes "volume" ∷ codes "rm" ∷ volume_name ∷ [])
resource_call fewer_volumes = of_words (codes "volume" ∷ codes "prune" ∷ codes "-f" ∷ [])
resource_call fewer_networks = of_words (codes "network" ∷ codes "prune" ∷ codes "-f" ∷ [])
