-- ===== src/Resources.antt =====
-- app/application/services/docker/resource_service.py: networks and volumes, on the traces of Docker/Runs.
pub mod Requests
pub mod Reading
pub mod Commands
mod Tests
use node_nexus_api.Prelude.{
  ℕ, String, Bool, true, false, not, Option, none, some, List, [], ◌∷◌, ◌++◌, Text, codes, text_eq,
  if◌then◌else◌,
}
use node_nexus_api.Shell.{quote}
use node_nexus_api.Shell.Lines.{join}
use node_nexus_api.Validation.{validate_container_id, validate_network_driver, validate_volume_name}
use node_nexus_api.Validation.Addresses.{validate_ip_address}
use node_nexus_api.Docker.Runs.{
  Output, index_error, Op, ◌>>=◌, ◌>>◌, pure, raise, checked, raise_for, log, call,
}
use node_nexus_api.Containers.{Python, json_format}

pub data Reply (Item : Type 0) : Type 0 where
  items : List Item → Reply Item
  item : Item → Reply Item
  text : Text → Reply Item
  done : Reply Item

-- NetworkCreateRequestDTO, NetworkConnectRequestDTO, NetworkDisconnectRequestDTO, VolumeCreateRequestDTO
pub record NetworkCreateRequest : Type 0 where
  pub name : Text
  pub driver : Text
  pub subnet : Option Text
  pub gateway : Option Text

pub record NetworkConnectRequest : Type 0 where
  pub network_id : Text
  pub container_id : Text
  pub ip_address : Option Text

pub record NetworkDisconnectRequest : Type 0 where
  pub network_id : Text
  pub container_id : Text
  pub force : Bool

pub record VolumeCreateRequest : Type 0 where
  pub name : Option Text
  pub driver : Text

-- An option for a text that is given and not empty.
abbrev pub flag_if : Text → Option Text → List Text
flag_if name none = []
flag_if name (some []) = []
flag_if name (some (c ∷ s)) = name ∷ quote (c ∷ s) ∷ []

abbrev pub checked_ip : (ℕ → Bool) → Option Text → Op Unit
checked_ip is_digit none = pure tt
checked_ip is_digit (some []) = pure tt
checked_ip is_digit (some (c ∷ s)) = checked (validate_ip_address is_digit (c ∷ s)) >>= λ _. pure tt

-- `data.driver and data.driver != "local"`
abbrev pub has_own_driver : Text → Bool
has_own_driver [] = false
has_own_driver (c ∷ s) = not (text_eq (c ∷ s) (codes "local"))

abbrev pub checked_driver : Text → Op Unit
checked_driver driver =
    if has_own_driver driver
    then (checked (validate_network_driver driver) >>= λ _. pure tt)
    else pure tt

abbrev pub driver_flag : Text → List Text
driver_flag driver = if has_own_driver driver then codes "--driver" ∷ quote driver ∷ [] else []

abbrev pub checked_name : Option Text → Op Unit
checked_name none = pure tt
checked_name (some []) = pure tt
checked_name (some (c ∷ s)) = checked (validate_volume_name (c ∷ s)) >>= λ _. pure tt

abbrev pub name_word : Option Text → List Text
name_word none = []
name_word (some []) = []
name_word (some (c ∷ s)) = quote (c ∷ s) ∷ []

-- `a or b or ""`
abbrev pub or_name : Text → Option Text → Text
or_name [] none = []
or_name [] (some name) = name
or_name (c ∷ s) name = c ∷ s

module _ {Item : Type 0} (py : Python Item) where
  -- `_list_raw`
  unfoldable pub list_raw : Text → String → Op (Reply Item)
  list_raw args event = do
    out ← call args 30
    log event
    pure (items (py.parse_json_lines out.stdout))

  unfoldable pub list_networks : Op (Reply Item)
  list_networks =
      list_raw (join (codes "network" ∷ codes "ls" ∷ json_format)) "docker.networks.list"

  unfoldable pub list_volumes : Op (Reply Item)
  list_volumes = list_raw (join (codes "volume" ∷ codes "ls" ∷ json_format)) "docker.volumes.list"

  unfoldable pub create_network : NetworkCreateRequest → Op (Reply Item)
  create_network r = do
    driver ← checked (validate_network_driver r.driver)
    out ←
        call
          (join (
            codes "network"
            ∷ codes "create"
            ∷ codes "--driver"
            ∷ quote r.driver
            ∷ (flag_if (codes "--subnet") r.subnet
                ++ (flag_if (codes "--gateway") r.gateway ++ quote r.name ∷ []))))
          30
    log "docker.networks.create"
    pure (text (py.strip out.stdout))

  -- The first item, and what is raised when there is none.
  abbrev pub first_or : Text → List Item → Op (Reply Item)
  first_or message [] = raise_for message 1 >> raise index_error
  first_or message (i ∷ rest) = pure (item i)

  unfoldable pub inspect_network : Text → Op (Reply Item)
  inspect_network network_id = do
    id ← checked (validate_container_id network_id)
    out ← call (join (codes "network" ∷ codes "inspect" ∷ quote network_id ∷ [])) 30
    first_or (codes "Network '" ++ (network_id ++ codes "' not found"))
        (py.parse_json_array out.stdout)

  unfoldable pub remove_network : Text → Op (Reply Item)
  remove_network network_id = do
    id ← checked (validate_container_id network_id)
    call (join (codes "network" ∷ codes "rm" ∷ quote network_id ∷ [])) 30
    log "docker.networks.remove"
    pure done

  unfoldable pub connect_to_network : NetworkConnectRequest → Op (Reply Item)
  connect_to_network r = do
    network ← checked (validate_container_id r.network_id)
    container ← checked (validate_container_id r.container_id)
    checked_ip py.is_digit r.ip_address
    call
        (join (
          codes "network"
          ∷ codes "connect"
          ∷ (flag_if (codes "--ip") r.ip_address
              ++ quote r.network_id ∷ quote r.container_id ∷ [])))
        30
    pure done

  unfoldable pub disconnect_from_network : NetworkDisconnectRequest → Op (Reply Item)
  disconnect_from_network r = do
    network ← checked (validate_container_id r.network_id)
    container ← checked (validate_container_id r.container_id)
    call
        (join (
          codes "network"
          ∷ codes "disconnect"
          ∷ ((if r.force then codes "--force" ∷ [] else [])
              ++ quote r.network_id ∷ quote r.container_id ∷ [])))
        30
    pure done

  unfoldable pub create_volume : VolumeCreateRequest → Op (Reply Item)
  create_volume r = do
    checked_driver r.driver
    checked_name r.name
    out ←
        call (join (codes "volume" ∷ codes "create" ∷ (driver_flag r.driver ++ name_word r.name)))
          30
    log "docker.volumes.create"
    pure (text (or_name (py.strip out.stdout) r.name))

  unfoldable pub inspect_volume : Text → Op (Reply Item)
  inspect_volume volume_name = do
    name ← checked (validate_volume_name volume_name)
    out ← call (join (codes "volume" ∷ codes "inspect" ∷ quote volume_name ∷ [])) 30
    first_or (codes "Volume '" ++ (volume_name ++ codes "' not found"))
        (py.parse_json_array out.stdout)

  unfoldable pub remove_volume : Text → Op (Reply Item)
  remove_volume volume_name = do
    name ← checked (validate_volume_name volume_name)
    call (join (codes "volume" ∷ codes "rm" ∷ quote volume_name ∷ [])) 30
    log "docker.volumes.remove"
    pure done

  unfoldable pub prune_volumes : Op (Reply Item)
  prune_volumes = do
    out ← call (join (codes "volume" ∷ codes "prune" ∷ codes "-f" ∷ [])) 30
    log "docker.volumes.prune"
    pure (text (py.strip out.stdout))

  unfoldable pub prune_networks : Op (Reply Item)
  prune_networks = do
    out ← call (join (codes "network" ∷ codes "prune" ∷ codes "-f" ∷ [])) 30
    log "docker.networks.prune"
    pure (text (py.strip out.stdout))
