-- ===== src/Resources/Commands.antt =====
-- Every command that an operation on networks or volumes runs is the call that the request is for.
use node_nexus_api.Prelude.{
  String, Bool, true, false, Option, none, some, List, [], ◌∷◌, ◌++◌, Text, codes, if◌then◌else◌,
  ◌≡◌, refl,
}
use node_nexus_api.Shell.{is_safe, gap, shell_words, quote}
use node_nexus_api.Shell.Lines.{Reads-quote}
use node_nexus_api.Validation.{validate_container_id, validate_network_driver, validate_volume_name}
use node_nexus_api.Validation.Addresses.{validate_ip_address}
use node_nexus_api.Docker.Runs.{
  Output, World, Op, index_error, ◌>>=◌, ◌>>◌, pure, raise, checked, raise_for, log, call,
}
use node_nexus_api.Docker.Commands.{
  Call, of_words, Within, Within-bind, Within-checked, Within-log, Within-raise_for, Within-call,
}
use node_nexus_api.Containers.{Python, json_format}
use node_nexus_api.Containers.Requests.{json_words, option_if_nonempty}
use node_nexus_api.Containers.Reading.{Reads-literal, Reads-json, AllRead-append}
use node_nexus_api.Resources.{
  Reply, done, NetworkCreateRequest, NetworkConnectRequest, NetworkDisconnectRequest,
  VolumeCreateRequest, flag_if, checked_ip, has_own_driver, checked_driver, driver_flag,
  checked_name, name_word, first_or, list_raw, list_networks, list_volumes, create_network,
  inspect_network, remove_network, connect_to_network, disconnect_from_network, create_volume,
  inspect_volume, remove_volume, prune_volumes, prune_networks,
}
use node_nexus_api.Resources.Requests.{
  ResourceRequest, networks, volumes, new_network, network, no_network, connect, disconnect,
  new_volume, volume, no_volume, fewer_volumes, fewer_networks, serve_resource, resource_call,
  given_name, given_driver,
}
use node_nexus_api.Resources.Reading.{
  flag_if-Reads, two-Reads, name-Reads, driver-Reads, force-Reads, under,
}

module _ {Item : Type 0} (py : Python Item) (w : World) where
  Within-logged :
      (c : Call) (event : String) (a : Reply Item) → Within c w ((log event >> pure a) w)
  Within-logged c event a =
      Within-bind c w (log event) (λ _. pure a) (Within-log c w event) (λ _. tt)

  -- The one call of an operation and what follows it.
  Within-then_call :
      (ws : List Text) (args : Text)
      → shell_words gap [] args ≡ some ws
      → (f : Output → Op (Reply Item)) → ((out : Output) → Within (of_words ws) w (f out w))
      → Within (of_words ws) w ((call args 30 >>= f) w)
  Within-then_call ws args reads f after =
      Within-bind (of_words ws) w (call args 30) f (Within-call w args 30 ws reads) after

  Within-first_or :
      (c : Call) (message : Text) (is : List Item) → Within c w (first_or py message is w)
  Within-first_or c message [] =
      Within-bind c w (raise_for message 1) (λ _. raise index_error)
        (Within-raise_for c w message 1) (λ _. tt)
  Within-first_or c message (i ∷ is) = tt

  Within-checked_ip : (c : Call) (o : Option Text) → Within c w (checked_ip py.is_digit o w)
  Within-checked_ip c none = tt
  Within-checked_ip c (some []) = tt
  Within-checked_ip c (some (d ∷ s)) =
      Within-checked c w (validate_ip_address py.is_digit (d ∷ s)) (λ _. pure tt) (λ _ e. tt)

  Within-checked_driver : (c : Call) (driver : Text) → Within c w (checked_driver driver w)
  Within-checked_driver c driver = given (has_own_driver driver)
    where
      given :
          (b : Bool)
          → Within c w (
              (if b then (checked (validate_network_driver driver) >>= λ _. pure tt) else pure tt)
                w)
      given true = Within-checked c w (validate_network_driver driver) (λ _. pure tt) (λ _ e. tt)
      given false = tt

  Within-checked_name : (c : Call) (o : Option Text) → Within c w (checked_name o w)
  Within-checked_name c none = tt
  Within-checked_name c (some []) = tt
  Within-checked_name c (some (d ∷ s)) =
      Within-checked c w (validate_volume_name (d ∷ s)) (λ _. pure tt) (λ _ e. tt)

  commands-new_network :
      (r : NetworkCreateRequest) → Within (resource_call (new_network r)) w (create_network py r w)
  unfolding resource_call is_safe create_network
  commands-new_network r =
      Within-checked (resource_call (new_network r)) w (validate_network_driver r.driver) _
        λ d valid.
          Within-then_call _ _
            (under (codes "network") (codes "create") refl refl refl refl
              (codes "--driver"
                ∷ quote r.driver
                ∷ (flag_if (codes "--subnet") r.subnet
                    ++ (flag_if (codes "--gateway") r.gateway ++ quote r.name ∷ [])))
              (codes "--driver"
                ∷ r.driver
                ∷ (option_if_nonempty (codes "--subnet") r.subnet
                    ++ (option_if_nonempty (codes "--gateway") r.gateway ++ r.name ∷ [])))
              (
                Reads-literal (codes "--driver") refl refl,
                (
                  Reads-quote r.driver,
                  AllRead-append (flag_if (codes "--subnet") r.subnet)
                      (option_if_nonempty (codes "--subnet") r.subnet) _ _
                      (flag_if-Reads (codes "--subnet") r.subnet refl refl)
                      (AllRead-append (flag_if (codes "--gateway") r.gateway)
                        (option_if_nonempty (codes "--gateway") r.gateway) (quote r.name ∷ [])
                        (r.name ∷ []) (flag_if-Reads (codes "--gateway") r.gateway refl refl)
                        (Reads-quote r.name, tt)),
                ),
              ))
            _ (λ out. Within-logged (resource_call (new_network r)) "docker.networks.create" _)

  commands-connect :
      (r : NetworkConnectRequest) → Within (resource_call (connect r)) w (connect_to_network py r w)
  unfolding resource_call is_safe connect_to_network
  commands-connect r =
      let c = resource_call (connect r) in
      Within-checked c w (validate_container_id r.network_id) _ λ t valid.
        Within-checked c w (validate_container_id r.container_id) _ λ t' valid'.
          Within-bind c w (checked_ip py.is_digit r.ip_address) _ (Within-checked_ip c r.ip_address)
            λ _.
              Within-then_call _ _
                (under (codes "network") (codes "connect") refl refl refl refl
                  (flag_if (codes "--ip") r.ip_address
                    ++ quote r.network_id ∷ quote r.container_id ∷ [])
                  (option_if_nonempty (codes "--ip") r.ip_address
                    ++ r.network_id ∷ r.container_id ∷ [])
                  (AllRead-append (flag_if (codes "--ip") r.ip_address)
                    (option_if_nonempty (codes "--ip") r.ip_address) _ _
                    (flag_if-Reads (codes "--ip") r.ip_address refl refl)
                    (two-Reads r.network_id r.container_id)))
                _ (λ out. tt)

  commands-disconnect :
      (r : NetworkDisconnectRequest)
      → Within (resource_call (disconnect r)) w (disconnect_from_network py r w)
  unfolding resource_call is_safe disconnect_from_network
  commands-disconnect r =
      let c = resource_call (disconnect r) in
      Within-checked c w (validate_container_id r.network_id) _ λ t valid.
        Within-checked c w (validate_container_id r.container_id) _ λ t' valid'.
          Within-then_call _ _
            (under (codes "network") (codes "disconnect") refl refl refl refl
              ((if r.force then codes "--force" ∷ [] else [])
                ++ quote r.network_id ∷ quote r.container_id ∷ [])
              ((if r.force then codes "--force" ∷ [] else []) ++ r.network_id ∷ r.container_id ∷ [])
              (AllRead-append (if r.force then codes "--force" ∷ [] else [])
                (if r.force then codes "--force" ∷ [] else []) _ _ (force-Reads r.force)
                (two-Reads r.network_id r.container_id)))
            _ (λ out. tt)

  commands-new_volume :
      (r : VolumeCreateRequest) → Within (resource_call (new_volume r)) w (create_volume py r w)
  unfolding resource_call is_safe create_volume
  commands-new_volume r =
      let c = resource_call (new_volume r) in
      Within-bind c w (checked_driver r.driver) _ (Within-checked_driver c r.driver) λ _.
        Within-bind c w (checked_name r.name) _ (Within-checked_name c r.name) λ _.
          Within-then_call _ _
            (under (codes "volume") (codes "create") refl refl refl refl
              (driver_flag r.driver ++ name_word r.name)
              (given_driver r.driver ++ given_name r.name)
              (AllRead-append (driver_flag r.driver) (given_driver r.driver) _ _
                (driver-Reads r.driver) (name-Reads r.name)))
            _ (λ out. Within-logged c "docker.volumes.create" _)

  -- Every command in the trace of an operation on networks or volumes is, as a shell reads it, the one call of the Docker CLI that the request stands for, on a node that has Docker.
  pub serve_resource_commands :
      (r : ResourceRequest) → Within (resource_call r) w (serve_resource py r w)
  unfolding serve_resource resource_call is_safe list_networks list_volumes list_raw create_network
      inspect_network remove_network connect_to_network disconnect_from_network create_volume
      inspect_volume remove_volume prune_volumes prune_networks
  serve_resource_commands networks =
      Within-then_call _ _
        (under (codes "network") (codes "ls") refl refl refl refl json_format json_words
          (Reads-literal (codes "--format") refl refl, (Reads-json, tt)))
        _ (λ out. Within-logged (resource_call networks) "docker.networks.list" _)
  serve_resource_commands volumes =
      Within-then_call _ _
        (under (codes "volume") (codes "ls") refl refl refl refl json_format json_words
          (Reads-literal (codes "--format") refl refl, (Reads-json, tt)))
        _ (λ out. Within-logged (resource_call volumes) "docker.volumes.list" _)
  serve_resource_commands (new_network r) = commands-new_network r
  serve_resource_commands (network network_id) =
      Within-checked (resource_call (network network_id)) w (validate_container_id network_id) _
        λ t valid.
          Within-then_call _ _
            (under (codes "network") (codes "inspect") refl refl refl refl (quote network_id ∷ [])
              (network_id ∷ []) (Reads-quote network_id, tt))
            _
            (λ out.
              Within-first_or (resource_call (network network_id)) _
                (py.parse_json_array out.stdout))
  serve_resource_commands (no_network network_id) =
      Within-checked (resource_call (no_network network_id)) w (validate_container_id network_id) _
        λ t valid.
          Within-then_call _ _
            (under (codes "network") (codes "rm") refl refl refl refl (quote network_id ∷ [])
              (network_id ∷ []) (Reads-quote network_id, tt))
            _
            (λ out.
              Within-logged (resource_call (no_network network_id)) "docker.networks.remove" done)
  serve_resource_commands (connect r) = commands-connect r
  serve_resource_commands (disconnect r) = commands-disconnect r
  serve_resource_commands (new_volume r) = commands-new_volume r
  serve_resource_commands (volume volume_name) =
      Within-checked (resource_call (volume volume_name)) w (validate_volume_name volume_name) _
        λ t valid.
          Within-then_call _ _
            (under (codes "volume") (codes "inspect") refl refl refl refl (quote volume_name ∷ [])
              (volume_name ∷ []) (Reads-quote volume_name, tt))
            _
            (λ out.
              Within-first_or (resource_call (volume volume_name)) _
                (py.parse_json_array out.stdout))
  serve_resource_commands (no_volume volume_name) =
      Within-checked (resource_call (no_volume volume_name)) w (validate_volume_name volume_name) _
        λ t valid.
          Within-then_call _ _
            (under (codes "volume") (codes "rm") refl refl refl refl (quote volume_name ∷ [])
              (volume_name ∷ []) (Reads-quote volume_name, tt))
            _
            (λ out.
              Within-logged (resource_call (no_volume volume_name)) "docker.volumes.remove" done)
  serve_resource_commands fewer_volumes =
      Within-then_call _ _
        (under (codes "volume") (codes "prune") refl refl refl refl (codes "-f" ∷ [])
          (codes "-f" ∷ []) (Reads-literal (codes "-f") refl refl, tt))
        _ (λ out. Within-logged (resource_call fewer_volumes) "docker.volumes.prune" _)
  serve_resource_commands fewer_networks =
      Within-then_call _ _
        (under (codes "network") (codes "prune") refl refl refl refl (codes "-f" ∷ [])
          (codes "-f" ∷ []) (Reads-literal (codes "-f") refl refl, tt))
        _ (λ out. Within-logged (resource_call fewer_networks) "docker.networks.prune" _)
