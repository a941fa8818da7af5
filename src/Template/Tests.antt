-- ===== src/Template/Tests.antt =====
-- Templates on small inputs.
use node_nexus_api.Prelude.{
  ℕ, Bool, true, ◌&&◌, ◌||◌, ◌==◌, none, some, List, [], ◌∷◌, Text, codes, ◌≡◌, refl, leb,
}
use node_nexus_api.Shell.{is_safe, escape, quote, gap, step, shell_words}
use node_nexus_api.Template.{
  Parameter, rendered, undeclared, missing, word_run, placeholder_at, pieces, found_names, param,
  declared_default, default_of, replace, substitute, answer, render_pieces, render_command,
}
use node_nexus_api.Template.Injection.{template_words, value_text, render_command_words}

runs : Unit {0}
unfolding is_safe escape quote step shell_words word_run placeholder_at pieces found_names param
    declared_default default_of replace substitute answer render_pieces render_command
    template_words value_text
runs = tt

-- `\w` on ASCII
abbrev ascii_word : ℕ → Bool
ascii_word c =
    leb b'a' c && leb c b'z' || leb b'A' c && leb c b'Z' || leb b'0' c && leb c b'9' || c == b'_'

abbrev path_parameter : Parameter Text
path_parameter = record { name = codes "path"; required = true; default = none }

abbrev evil : List (Text × Text)
evil = (codes "path", codes "a; rm -rf 'x' $(id)") ∷ []

abbrev command : Text
command = codes "ls -l 'a; rm -rf '\"'\"'x'\"'\"' $(id)'"

render-evil :
    render_command ascii_word (λ s. s) (codes "ls -l {path}") (path_parameter ∷ []) evil
    ≡ rendered command
unfolding runs
render-evil = refl

render-undeclared :
    render_command ascii_word (λ (s : Text). s) (codes "ls {dir}") (path_parameter ∷ []) evil
    ≡ undeclared (codes "dir" ∷ [])
unfolding runs
render-undeclared = refl

render-missing :
    render_command ascii_word (λ (s : Text). s) (codes "ls {path}") (path_parameter ∷ []) []
    ≡ missing (codes "path" ∷ [])
unfolding runs
render-missing = refl

render_command_words_example :
    shell_words gap [] command ≡ some (codes "ls" ∷ codes "-l" ∷ codes "a; rm -rf 'x' $(id)" ∷ [])
render_command_words_example =
    render_command_words ascii_word (λ s. s) (codes "ls -l {path}") (path_parameter ∷ []) evil
      command (codes "ls" ∷ codes "-l" ∷ codes "a; rm -rf 'x' $(id)" ∷ []) render-evil
      (unfold runs in refl)
