-- ===== src/Docker/Runs.antt =====
-- app/application/services/docker/command_runner.py, and how the Docker services use it. An operation
-- leaves a trace of what reaches the outside: audit events, commands on the node, events for subscribers.
-- The node reader, the audit outboxes and the remote runtime are parameters: they answer or raise.
-- The log of the process itself (`audit.info`) is left out.
use node_nexus_api.Prelude.{
  ℕ, String, Bool, true, false, Option, none, some, List, [], ◌∷◌, ◌++◌, Text, codes, if◌then◌else◌,
}
use node_nexus_api.Shell.{quote}
use node_nexus_api.Docker.{DockerFailure, raise_for_docker_error, build_docker_command}

-- The part of NodeConnectionDTO that is read here.
pub record Node : Type 0 where
  pub has_docker : Bool
  pub docker_host : Option Text

pub record Output : Type 0 where
  pub stdout : Text
  pub stderr : Text
  pub exit_code : ℕ

-- What an operation may raise: NodeNotFoundError, DockerError for a node without Docker,
-- DockerValidationError, ContainerNotFoundError of the service itself, AuditWriteError,
-- ConnectionFailedError, ValueError of `shlex.split`, IndexError, AttributeError, and the
-- translated failures of the command.
pub data Fault : Type 0 where
  node_not_found not_docker_node invalid missing audit_write connection_failed value_error
        index_error attribute_error :
      Fault
  failed : DockerFailure → Fault

pub data Effect : Type 0 where
  required : String → Effect
  ran : Text → (timeout : ℕ) → Effect
  logged : String → Effect
  published : String → Effect

pub data Outcome (A : Type 0) : Type 0 where
  returns : A → Outcome A
  raises : Fault → Outcome A

-- The outside, during one operation.
pub record World : Type 0 where
  pub node : Option Node
  pub has_audit : Bool
  pub commits : String → Bool
  pub execute : Text → ℕ → Option Output
  pub lower : Text → Text
  pub number : ℕ → Text

abbrev pub Op : Type 0 → Type 0
Op A = World → List Effect × Outcome A

abbrev pub followed : {A : Type 0} → List Effect → List Effect × Outcome A → List Effect × Outcome A
followed es (es', o) = (es ++ es', o)

abbrev pub bound :
    {A B : Type 0} → List Effect × Outcome A → (A → Op B) → World → List Effect × Outcome B
bound (es, returns a) f w = followed es (f a w)
bound (es, raises e) f w = (es, raises e)

infixl 5 ◌>>=◌ ◌>>◌
abbrev pub ◌>>=◌ : {A B : Type 0} → Op A → (A → Op B) → Op B
◌>>=◌ m f w = bound (m w) f w

abbrev pub ◌>>◌ : {A B : Type 0} → Op A → Op B → Op B
m >> k = m >>= λ _. k

module _ {A : Type 0} where
  abbrev pub pure : A → Op A
  pure a w = ([], returns a)

  abbrev pub raise : Fault → Op A
  raise e w = ([], raises e)

-- A check of app/core/docker_validation.py.
abbrev pub checked : {A : Type 0} → Option A → Op A
checked none = raise invalid
checked (some a) = pure a

abbrev pub target_of : Option Node → Op Node
target_of none = raise node_not_found
target_of (some node) = if node.has_docker then pure node else raise not_docker_node

unfoldable pub get_target : Op Node
get_target w = target_of w.node w

abbrev pub answered : Effect → Option Output → List Effect × Outcome Output
answered e none = (e ∷ [], raises connection_failed)
answered e (some out) = (e ∷ [], returns out)

-- `execute` of the runner, which asks the remote runtime
unfoldable pub execute : Text → ℕ → Op Output
execute command timeout w = answered (ran command timeout) (w.execute command timeout)

abbrev pub raise_failure : Option DockerFailure → Op Unit
raise_failure none = pure tt
raise_failure (some f) = raise (failed f)

unfoldable pub raise_for : Text → ℕ → Op Unit
raise_for stderr exit_code w =
    raise_failure (raise_for_docker_error w.lower w.number stderr exit_code) w

abbrev pub written : Effect → Bool → List Effect × Outcome Unit
written e true = (e ∷ [], returns tt)
written e false = ([], raises audit_write)

-- `if self._audit: await self._audit.log(...)`, and the same with `log_required`
unfoldable pub log : String → Op Unit
log action w = if w.has_audit then written (logged action) (w.commits action) else ([], returns tt)

unfoldable pub log_required : String → Op Unit
log_required action w =
    if w.has_audit then written (required action) (w.commits action) else ([], returns tt)

-- `get_sse_broadcaster().publish(event, …)`
unfoldable pub publish : String → Op Unit
publish event w = (published event ∷ [], returns tt)

-- The calls that every service makes in this order, without and with an audit event that must be
-- committed first, and with a text for the standard input of the command.
abbrev pub finished : Output → Op Output
finished out = raise_for out.stderr out.exit_code >> pure out

unfoldable pub call : Text → ℕ → Op Output
call args timeout = do
  node ← get_target
  out ← execute (build_docker_command node.docker_host args) timeout
  finished out

unfoldable pub call_required : String → Text → ℕ → Op Output
call_required action args timeout = do
  node ← get_target
  log_required action
  out ← execute (build_docker_command node.docker_host args) timeout
  finished out

-- f"printf %s {quoted} | {base_cmd}"
unfoldable pub piped : Text → Text → Text
piped stdin base = codes "printf %s " ++ (quote stdin ++ (codes " | " ++ base))

unfoldable pub call_piped : Text → Text → ℕ → Op Output
call_piped stdin args timeout = do
  node ← get_target
  out ← execute (piped stdin (build_docker_command node.docker_host args)) timeout
  finished out

unfoldable pub call_piped_required : String → Text → Text → ℕ → Op Output
call_piped_required action stdin args timeout = do
  node ← get_target
  log_required action
  out ← execute (piped stdin (build_docker_command node.docker_host args)) timeout
  finished out
