-- ===== src/Containers/Tests.antt =====
-- The service at concrete requests.
use node_nexus_api.Prelude.{true, false, none, some, [], ◌∷◌, ◌&&◌, ◌≡◌, refl, arith, codes, leb}
use node_nexus_api.Shell.{is_safe}
use node_nexus_api.Shell.Lines.{join}
use node_nexus_api.Validation.{
  validate_container_id, is_reference, is_alphanumeric, is_letter, in_class,
}
use node_nexus_api.Docker.{build_docker_command, raise_for_docker_error}
use node_nexus_api.Docker.Runs.{
  required, ran, logged, published, World, get_target, execute, raise_for, log, log_required,
  publish, call_required,
}
use node_nexus_api.Docker.Commands.{Within}
use node_nexus_api.Docker.Order.{LedBy}
use node_nexus_api.Containers.{Python, start_container, lifecycle_action}
use node_nexus_api.Containers.Requests.{Request, exec, start, serve, call_of}
use node_nexus_api.Containers.Audited.{audit_action, audited_first}
use node_nexus_api.Containers.Since.{AsciiDigits}
use node_nexus_api.Containers.Serve.{serve_commands}

abbrev pub python : Python Unit
python = record {
  parse_json_lines = λ s. [];
  parse_json_array = λ s. tt ∷ [];
  is_digit = λ c. leb 48 c && leb c 57;
  iso_seconds = λ s. some (false, 1700000000);
  strip = λ s. s;
  last_line = λ s. s;
  rows = λ s. [];
  to_int = λ s. none;
  split = λ s. some (s ∷ []);
  fields = λ s. s ∷ [];
  lines_from_last = λ s. s ∷ [];
  lines = λ s. s ∷ [];
}

abbrev pub world : World
world = record {
  node = some (record { has_docker = true; docker_host = none });
  has_audit = true;
  commits = λ event. true;
  execute = λ command timeout. some (record { stdout = []; stderr = []; exit_code = 0 });
  lower = λ s. s;
  number = λ n. [];
}

ascii_digits : AsciiDigits python
unfolding is_safe
ascii_digits c h k = ground arith

abbrev injected : Request
injected = exec (codes "web") (codes "echo 'a'; rm -rf /") 30

serve_commands_example : Within (call_of python injected) world (serve python injected world)
serve_commands_example = serve_commands python ascii_digits world injected refl

audited_first_example :
    LedBy (audit_action (start (codes "web"))) (serve python (start (codes "web")) world)
audited_first_example = audited_first python world refl (start (codes "web"))

-- What a start does, in order.
start_trace :
    (serve python (start (codes "web")) world).0
    ≡ required "docker.container.start.requested"
      ∷ ran (codes "docker start web") 30
      ∷ logged "docker.container.start"
      ∷ published "docker.container.start"
      ∷ []
unfolding serve start_container lifecycle_action validate_container_id is_reference is_alphanumeric
    is_letter in_class call_required get_target log_required log publish execute
    build_docker_command join raise_for raise_for_docker_error
start_trace = refl
