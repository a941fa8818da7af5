-- ===== src/Docker/CommandLine.antt =====
-- The words that a shell reads in a Docker command line.
use node_nexus_api.Prelude.{ℕ, some, [], ◌∷◌, ◌++◌, Text, codes, ◌≡◌, refl, ◌∙◌}
use node_nexus_api.Shell.{is_safe, quote, gap, word, step, shell_words, consed}
use node_nexus_api.Shell.Words.{word-quote}
use node_nexus_api.Docker.{build_docker_command}

-- With a daemon endpoint, whatever its characters, the command line is read as the assignment of
-- exactly that endpoint to DOCKER_HOST, the word docker and the words of the arguments.
pub build_docker_command_words :
    (c : ℕ) (host docker_args : Text)
    → shell_words gap [] (build_docker_command (some (c ∷ host)) docker_args)
      ≡ consed
          (codes "DOCKER_HOST=" ++ c ∷ host)
          (consed (codes "docker") (shell_words gap [] docker_args))
unfolding build_docker_command
build_docker_command_words c host docker_args =
    start ∙ word-quote (codes "DOCKER_HOST=") (c ∷ host) (codes " docker " ++ docker_args) ∙ finish
  where
    start :
        shell_words gap []
          (codes "DOCKER_HOST=" ++ (quote (c ∷ host) ++ (codes " docker " ++ docker_args)))
        ≡ shell_words word
            (codes "DOCKER_HOST=")
            (quote (c ∷ host) ++ (codes " docker " ++ docker_args))
    start = unfold shell_words step is_safe in refl

    finish :
        shell_words word (codes "DOCKER_HOST=" ++ c ∷ host) (codes " docker " ++ docker_args)
        ≡ consed
            (codes "DOCKER_HOST=" ++ c ∷ host)
            (consed (codes "docker") (shell_words gap [] docker_args))
    finish = unfold shell_words step is_safe in refl
