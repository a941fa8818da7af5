-- ===== src/Template/Injection.antt =====
-- A rendered command has the words of its template, with the values as they are.
use node_nexus_api.Prelude.{
  ℕ, Bool, Option, none, some, List, [], ◌∷◌, ◌++◌, Text, ◌≡◌, refl, arith, ◌∙◌, Option-cases, inl,
  inr, ap, sym,
}
use node_nexus_api.Shell.{
  quote, Mode, gap, word, single, double, Move, stop, go, emit, step, finish, shell_words, consed,
}
use node_nexus_api.Shell.Words.{word-quote, gap-quote}
use node_nexus_api.Template.{
  Parameter, Piece, literal, hole, param, default_of, replace, substitute, rendered, answer,
  render_pieces, render_command, pieces,
}

-- The words of a template, where `value` gives the text of a placeholder. A placeholder joins the
-- word that it stands in; one inside quotes, or without a value, gives no words.
unfoldable pub template_words : (Text → Option Text) → Mode → Text → List Piece → Option (List Text)
template_words value m acc [] = finish m acc
template_words value m acc (literal c ∷ ps) = elim (step m acc c) [
  | stop ↦ none
  | go m' acc' ↦ template_words value m' acc' ps
  | emit w ↦ consed w (template_words value gap [] ps)
]
template_words value gap acc (hole name ∷ ps) = elim (value name) [
  | none ↦ none
  | some v ↦ template_words value word v ps
]
template_words value word acc (hole name ∷ ps) = elim (value name) [
  | none ↦ none
  | some v ↦ template_words value word (acc ++ v) ps
]
template_words value _ acc (hole name ∷ ps) = none

consed-inv :
    (w : Text) (o : Option (List Text)) {ws : List Text}
    → consed w o ≡ some ws
    → (rest : List Text) × (o ≡ some rest) × (ws ≡ w ∷ rest)
consed-inv w none h = cc
consed-inv w (some rest) h = (rest, refl, cc)

module _ {Value : Type 0} (str : Value → Text) (parameters : List (Parameter Value))
    (params : List (Text × Value)) where
  -- The text that stands for a placeholder: of the value given, else of the default.
  unfoldable pub value_text : Text → Option Text
  value_text name = elim (param str params name) [
    | some v ↦ some (str v)
    | none ↦ elim (default_of str parameters name) [ some d ↦ some (str d) | none ↦ none ]
  ]

  replace-quote :
      (name v : Text) → value_text name ≡ some v → replace str parameters params name ≡ quote v
  unfolding value_text replace
  replace-quote name v h = ground arith

  -- One literal, given the claim for the rest of the template.
  literal_case :
      (mv : Move) (s : Text) (ps : List Piece)
      → ((m : Mode) (acc : Text) (ws : List Text)
          → template_words value_text m acc ps ≡ some ws
          → shell_words m acc s ≡ some ws)
      → (ws : List Text)
      → (elim mv [
        | stop ↦ none
        | go m' acc' ↦ template_words value_text m' acc' ps
        | emit w ↦ consed w (template_words value_text gap [] ps)
      ])
        ≡ some ws
      → (elim mv [
        | stop ↦ none
        | go m' acc' ↦ shell_words m' acc' s
        | emit w ↦ consed w (shell_words gap [] s)
      ])
        ≡ some ws
  literal_case stop s ps ih ws h = h
  literal_case (go m acc) s ps ih ws h = ih m acc ws h
  literal_case (emit w) s ps ih ws h =
      let (rest, e, whole) = consed-inv w (template_words value_text gap [] ps) h in
      ap (consed w) (ih gap [] rest e) ∙ ap some (sym whole)

  -- If the template, read with its values in place of its placeholders, has the words `ws`, then the
  -- shell reads exactly `ws` in the rendered command: no value adds a word, an operator or an
  -- expansion, or changes another word.
  pub substitute_words :
      (ps : List Piece) (m : Mode) (acc : Text) (ws : List Text)
      → template_words value_text m acc ps ≡ some ws
      → shell_words m acc (substitute str parameters params ps) ≡ some ws
  unfolding template_words substitute shell_words
  substitute_words [] m acc ws h = h
  substitute_words (literal c ∷ ps) m acc ws h =
      literal_case (step m acc c) (substitute str parameters params ps) ps (substitute_words ps) ws
        h
  substitute_words (hole name ∷ ps) gap acc ws h = elim (Option-cases (value_text name)) [
    | inl absent ↦ ground arith
    | inr (v, given) ↦
        rw (replace-quote name v given)
          (gap-quote acc v _ ∙ substitute_words ps word v ws (ground arith))
  ]
  substitute_words (hole name ∷ ps) word acc ws h = elim (Option-cases (value_text name)) [
    | inl absent ↦ ground arith
    | inr (v, given) ↦
        rw (replace-quote name v given)
          (word-quote acc v _ ∙ substitute_words ps word (acc ++ v) ws (ground arith))
  ]
  substitute_words (hole name ∷ ps) single acc ws h = cc
  substitute_words (hole name ∷ ps) double acc ws h = cc

answer-rendered :
    {Value : Type 0} (str : Value → Text) (names : List Text) (lacking : List (Parameter Value))
    (text command : Text)
    → answer str names lacking text ≡ rendered command
    → text ≡ command
unfolding answer
answer-rendered str (n ∷ names) lacking text command h = cc
answer-rendered str [] (p ∷ lacking) text command h = cc
answer-rendered str [] [] text command h = cc

rendered-substitute :
    {Value : Type 0} (str : Value → Text) (parameters : List (Parameter Value))
    (params : List (Text × Value)) (ps : List Piece) (command : Text)
    → render_pieces str ps parameters params ≡ rendered command
    → substitute str parameters params ps ≡ command
unfolding render_pieces
rendered-substitute str parameters params ps command h = answer-rendered str _ _ _ command h

-- A command that renders is read by the shell as the words of its template with the values of the
-- placeholders in place, if the template with its values in place has words at all: its
-- placeholders stand outside quotes and have values, and its own text has no active characters.
pub render_command_words :
    (is_word : ℕ → Bool) {Value : Type 0} (str : Value → Text) (template : Text)
    (parameters : List (Parameter Value)) (params : List (Text × Value)) (command : Text)
    (ws : List Text)
    → render_command is_word str template parameters params ≡ rendered command
    → template_words (value_text str parameters params) gap [] (pieces is_word 0 template) ≡ some ws
    → shell_words gap [] command ≡ some ws
unfolding render_command
render_command_words is_word str template parameters params command ws ok h =
    rw (← rendered-substitute str parameters params (pieces is_word 0 template) command ok)
      (substitute_words str parameters params (pieces is_word 0 template) gap [] ws h)
