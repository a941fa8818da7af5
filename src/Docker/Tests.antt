-- ===== src/Docker/Tests.antt =====
-- The Docker support on small inputs.
use node_nexus_api.Prelude.{ℕ, some, [], map, Text, codes, ◌≡◌, refl}
use node_nexus_api.Shell.{gap, shell_words, consed}
use node_nexus_api.Docker.{
  lower_code, network_not_found, raise_for_docker_error, build_docker_command,
}
use node_nexus_api.Docker.CommandLine.{build_docker_command_words}

abbrev lower : Text → Text
lower s = map lower_code s

abbrev number : ℕ → Text
number n = codes "1"

-- A missing executable is reported as a missing network, if the text speaks of a network.
raise-network :
    raise_for_docker_error lower number (codes "Network plugin: file NOT FOUND") 1
    ≡ some (network_not_found (codes "Network plugin: file NOT FOUND"))
unfolding raise_for_docker_error
raise-network = refl

build_docker_command_words_example :
    shell_words gap [] (build_docker_command (some (codes "tcp://h:1;id")) (codes "ps"))
    ≡ consed
        (codes "DOCKER_HOST=tcp://h:1;id")
        (consed (codes "docker") (shell_words gap [] (codes "ps")))
build_docker_command_words_example =
    build_docker_command_words b't' (codes "cp://h:1;id") (codes "ps")
