-- ===== src/Docker/Commands.antt =====
-- The commands in the trace of an operation, and what a shell reads in them.
use node_nexus_api.Prelude.{
  ℕ, String, Bool, true, false, Option, none, some, List, [], ◌∷◌, ◌++◌, Text, codes, if◌then◌else◌,
  ◌≡◌, refl, ap, ◌∙◌, All,
}
use node_nexus_api.Shell.{is_safe, gap, shell_words, consed, step, quote}
use node_nexus_api.Docker.{build_docker_command, DockerFailure, raise_for_docker_error}
use node_nexus_api.Docker.CommandLine.{build_docker_command_words}
use node_nexus_api.Docker.Runs.{
  Node, Output, not_docker_node, Effect, required, ran, logged, Outcome, returns, raises, World, Op,
  bound, ◌>>=◌, pure, raise, checked, target_of, get_target, answered, execute, raise_failure,
  raise_for, written, log, log_required, publish, finished, call, call_required, piped, call_piped,
  call_piped_required,
}

-- One call of the Docker CLI: its arguments, and the text for its standard input.
pub record Call : Type 0 where
  pub stdin : Option Text
  pub words : List Text

-- The words of the command line: the arguments behind `docker`, with the endpoint of the node.
abbrev pub docker_words : Option Text → List Text → List Text
docker_words none ws = codes "docker" ∷ ws
docker_words (some []) ws = codes "docker" ∷ ws
docker_words (some (c ∷ host)) ws = (codes "DOCKER_HOST=" ++ c ∷ host) ∷ codes "docker" ∷ ws

-- What a shell makes of a command: the one call, or the text piped into it.
abbrev pub IsCommand : Call → Node → Text → Type 0
IsCommand c node command = elim c.stdin [
  | none ↦ shell_words gap [] command ≡ some (docker_words node.docker_host c.words)
  | some stdin ↦
      (base : Text) × (command ≡ codes "printf %s " ++ (quote stdin ++ (codes " | " ++ base)))
      × (shell_words gap [] base ≡ some (docker_words node.docker_host c.words))
]

-- A command of a trace is the call `c` on the target, which is a node with Docker.
abbrev pub Calls : Call → World → Effect → Type 0
Calls c w (ran command timeout) =
    (node : Node) × (w.node ≡ some node) × (node.has_docker ≡ true) × IsCommand c node command
Calls c w _ = Unit

abbrev pub Within : {A : Type 0} → Call → World → List Effect × Outcome A → Type 0
Within c w r = All (Calls c w) r.0

pub All-append {ℓ κ} :
    {A : Type ℓ} (P : A → Type κ) (xs ys : List A) → All P xs → All P ys → All P (xs ++ ys)
All-append P [] ys h k = k
All-append P (x ∷ xs) ys h k = (h.0, All-append P xs ys h.1 k)

Within-bound :
    {A B : Type 0} (c : Call) (w : World) (r : List Effect × Outcome A) (f : A → Op B)
    → Within c w r
    → ((a : A) → Within c w (f a w))
    → Within c w (bound r f w)
Within-bound c w (es, returns a) f h k = All-append (Calls c w) es (f a w).0 h (k a)
Within-bound c w (es, raises e) f h k = h

pub Within-bind :
    {A B : Type 0} (c : Call) (w : World) (m : Op A) (f : A → Op B)
    → Within c w (m w)
    → ((a : A) → Within c w (f a w))
    → Within c w ((m >>= f) w)
Within-bind c w m f h k = Within-bound c w (m w) f h k

pub Within-checked :
    {A B : Type 0} (c : Call) (w : World) (o : Option A) (f : A → Op B)
    → ((a : A) → o ≡ some a → Within c w (f a w))
    → Within c w ((checked o >>= f) w)
Within-checked c w none f k = tt
Within-checked c w (some a) f k = k a refl

Within-written :
    (c : Call) (w : World) (e : Effect) (b : Bool) → Calls c w e → Within c w (written e b)
Within-written c w e true h = (h, tt)
Within-written c w e false h = tt

Within-if :
    (c : Call) (w : World) (b : Bool) (r : List Effect × Outcome Unit)
    → Within c w r
    → Within c w (if b then r else ([], returns tt))
Within-if c w true r h = h
Within-if c w false r h = tt

pub Within-log : (c : Call) (w : World) (action : String) → Within c w (log action w)
unfolding log
Within-log c w action =
    Within-if c w w.has_audit (written (logged action) (w.commits action))
      (Within-written c w (logged action) (w.commits action) tt)

pub Within-log_required :
    (c : Call) (w : World) (action : String) → Within c w (log_required action w)
unfolding log_required
Within-log_required c w action =
    Within-if c w w.has_audit (written (required action) (w.commits action))
      (Within-written c w (required action) (w.commits action) tt)

pub Within-publish : (c : Call) (w : World) (event : String) → Within c w (publish event w)
unfolding publish
Within-publish c w event = (tt, tt)

pub Within-raise_for :
    (c : Call) (w : World) (stderr : Text) (exit_code : ℕ)
    → Within c w (raise_for stderr exit_code w)
unfolding raise_for
Within-raise_for c w stderr exit_code =
    failure (raise_for_docker_error w.lower w.number stderr exit_code)
  where
    failure : (o : Option DockerFailure) → Within c w (raise_failure o w)
    failure none = tt
    failure (some f) = tt

pub Within-finished : (c : Call) (w : World) (out : Output) → Within c w (finished out w)
Within-finished c w out =
    Within-bind c w (raise_for out.stderr out.exit_code) (λ _. pure out)
      (Within-raise_for c w out.stderr out.exit_code) (λ _. tt)

pub Within-target :
    {B : Type 0} (c : Call) (w : World) (f : Node → Op B)
    → ((node : Node) → w.node ≡ some node → node.has_docker ≡ true → Within c w (f node w))
    → Within c w ((get_target >>= f) w)
unfolding get_target
Within-target c w f k = target w.node refl
  where
    target : (o : Option Node) → w.node ≡ o → Within c w (bound (target_of o w) f w)
    target none e = tt
    target (some node) e = docker node.has_docker refl
      where
        docker :
            (b : Bool)
            → node.has_docker ≡ b
            → Within c w (bound ((if b then pure node else raise not_docker_node) w) f w)
        docker true d = k node e d
        docker false d = tt

pub Within-execute :
    (c : Call) (w : World) (node : Node) (command : Text) (timeout : ℕ)
    → w.node ≡ some node
    → node.has_docker ≡ true
    → IsCommand c node command
    → Within c w (execute command timeout w)
unfolding execute
Within-execute c w node command timeout e d is = out (w.execute command timeout)
  where
    out : (o : Option Output) → Within c w (answered (ran command timeout) o)
    out none = ((node, e, d, is), tt)
    out (some o) = ((node, e, d, is), tt)

pub docker-words :
    (host : Option Text) (args : Text) (ws : List Text)
    → shell_words gap [] args ≡ some ws
    → shell_words gap [] (build_docker_command host args) ≡ some (docker_words host ws)
unfolding build_docker_command shell_words step is_safe
docker-words none args ws h = ap (consed (codes "docker")) h
docker-words (some []) args ws h = ap (consed (codes "docker")) h
docker-words (some (c ∷ host)) args ws h =
    build_docker_command_words c host args
    ∙ ap (λ r. consed (codes "DOCKER_HOST=" ++ c ∷ host) (consed (codes "docker") r)) h

abbrev pub of_words : List Text → Call
of_words ws = record { stdin = none; words = ws }

abbrev pub with_stdin : Text → List Text → Call
with_stdin stdin ws = record { stdin = some stdin; words = ws }

module _ (w : World) (args : Text) (timeout : ℕ) (ws : List Text)
    (reads : shell_words gap [] args ≡ some ws) where
  pub Within-call : Within (of_words ws) w (call args timeout w)
  unfolding call
  Within-call = Within-target (of_words ws) w _ λ node e d.
      Within-bind (of_words ws) w (execute (build_docker_command node.docker_host args) timeout)
        finished
        (Within-execute (of_words ws) w node (build_docker_command node.docker_host args) timeout e
          d (docker-words node.docker_host args ws reads))
        (λ out. Within-finished (of_words ws) w out)

  pub Within-call_required :
      (action : String) → Within (of_words ws) w (call_required action args timeout w)
  unfolding call_required
  Within-call_required action = Within-target (of_words ws) w _ λ node e d.
      Within-bind (of_words ws) w (log_required action) _
        (Within-log_required (of_words ws) w action)
        λ _.
          Within-bind (of_words ws) w (execute (build_docker_command node.docker_host args) timeout)
            finished
            (Within-execute (of_words ws) w node (build_docker_command node.docker_host args)
              timeout e d (docker-words node.docker_host args ws reads))
            (λ out. Within-finished (of_words ws) w out)

  pub Within-call_piped :
      (stdin : Text) → Within (with_stdin stdin ws) w (call_piped stdin args timeout w)
  unfolding call_piped piped
  Within-call_piped stdin = Within-target (with_stdin stdin ws) w _ λ node e d.
      Within-bind (with_stdin stdin ws) w
        (execute (piped stdin (build_docker_command node.docker_host args)) timeout) finished
        (Within-execute (with_stdin stdin ws) w node
          (piped stdin (build_docker_command node.docker_host args)) timeout e d
          (
            build_docker_command node.docker_host args,
            refl,
            docker-words node.docker_host args ws reads,
          ))
        (λ out. Within-finished (with_stdin stdin ws) w out)

  pub Within-call_piped_required :
      (action : String) (stdin : Text)
      → Within (with_stdin stdin ws) w (call_piped_required action stdin args timeout w)
  unfolding call_piped_required piped
  Within-call_piped_required action stdin = Within-target (with_stdin stdin ws) w _ λ node e d.
      Within-bind (with_stdin stdin ws) w (log_required action) _
        (Within-log_required (with_stdin stdin ws) w action)
        λ _.
          Within-bind (with_stdin stdin ws) w
            (execute (piped stdin (build_docker_command node.docker_host args)) timeout) finished
            (Within-execute (with_stdin stdin ws) w node
              (piped stdin (build_docker_command node.docker_host args)) timeout e d
              (
                build_docker_command node.docker_host args,
                refl,
                docker-words node.docker_host args ws reads,
              ))
            (λ out. Within-finished (with_stdin stdin ws) w out)
