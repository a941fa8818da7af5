-- ===== src/Docker.antt =====
-- Docker support: the translation of CLI failures (app/application/services/docker/error_mapper.py)
-- and the CLI command line (app/application/services/docker/command_builder.py).
pub mod Mapping
pub mod CommandLine
pub mod Runs
pub mod Commands
pub mod Returns
pub mod Order
mod Tests
use node_nexus_api.Prelude.{
  ℕ, ◌+◌, Bool, Option, none, some, [], ◌++◌, ◌&&◌, ◌||◌, map, Text, codes, leb, ◌==◌,
  contains_text, if◌then◌else◌, ◌∷◌,
}
use node_nexus_api.Shell.{quote}

-- The errors that `raise_for_docker_error` raises, and their message.
pub data DockerFailure : Type 0 where
  image_not_found network_not_found volume_not_found container_not_found daemon docker :
      Text → DockerFailure

-- `str.lower()` on the ASCII letters. The texts that are looked for are ASCII.
abbrev pub lower_code : ℕ → ℕ
lower_code c = if leb b'A' c && leb c b'Z' then c + 32 else c

-- What `str.lower()` does with the other characters, such as `İ`, is a parameter.
module _ (lower : Text → Text) (number : ℕ → Text) where
  abbrev pub says : Text → Text → Bool
  says stderr needle = contains_text needle (lower stderr)

  -- `raise_for_docker_error`: what is raised, or `none` when it returns
  unfoldable pub raise_for_docker_error : Text → ℕ → Option DockerFailure
  raise_for_docker_error stderr exit_code =
      if exit_code == 0
      then none
      else if says stderr (codes "no such image")
      then some (image_not_found stderr)
      else if says stderr (codes "no such network")
          || says stderr (codes "network") && says stderr (codes "not found")
      then some (network_not_found stderr)
      else if says stderr (codes "no such volume")
          || says stderr (codes "volume") && says stderr (codes "not found")
      then some (volume_not_found stderr)
      else if says stderr (codes "no such container")
          || (says stderr (codes "no such image or container")
              || says stderr (codes "no such object"))
      then some (container_not_found stderr)
      else if says stderr (codes "cannot connect to the docker daemon")
      then some (daemon stderr)
      else if says stderr (codes "is not running")
      then some (docker stderr)
      else some (
          docker
            (codes "Docker command failed (exit " ++ (number exit_code ++ (codes "): " ++ stderr))))

-- `build_docker_command`, of the node's `docker_host` and the arguments
unfoldable pub build_docker_command : Option Text → Text → Text
build_docker_command none docker_args = codes "docker " ++ docker_args
build_docker_command (some []) docker_args = codes "docker " ++ docker_args
build_docker_command (some (c ∷ host)) docker_args =
    codes "DOCKER_HOST=" ++ (quote (c ∷ host) ++ (codes " docker " ++ docker_args))
