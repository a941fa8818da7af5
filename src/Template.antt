-- ===== src/Template.antt =====
-- app/core/template.py: command templates with `{placeholder}` markers.
-- A value is an abstract type with its conversion `str`; `None` as a default is `none`. Which
-- characters `\w` matches beyond ASCII is a parameter, `is_word`.
pub mod Rendering
pub mod Injection
mod Tests
use node_nexus_api.Prelude.{
  ℕ, zero, suc, ◌+◌, Bool, true, false, not, Option, none, some, List, [], ◌∷◌, ◌++◌, ◌&&◌, ◌||◌,
  map, Text, ◌==◌, text_eq, any_of, all_of, keep_if, length, if◌then◌else◌,
}
use node_nexus_api.Shell.{quote}

pub record Parameter (Value : Type 0) : Type 0 where
  pub name : Text
  pub required : Bool
  pub default : Option Value

pub data Rendered : Type 0 where
  rendered : Text → Rendered
  undeclared missing : List Text → Rendered

-- A piece of a template: a character, or a placeholder.
pub data Piece : Type 0 where
  literal : ℕ → Piece
  hole : Text → Piece

module _ (is_word : ℕ → Bool) where
  -- The longest run of `\w` and what follows it.
  unfoldable pub word_run : Text → Text × Text
  word_run [] = ([], [])
  word_run (c ∷ s) =
      let (run, rest) = word_run s in if is_word c then (c ∷ run, rest) else ([], c ∷ s)

  abbrev closed_name : Text × Text → Option Text
  closed_name ([], rest) = none
  closed_name (c ∷ run, []) = none
  closed_name (c ∷ run, d ∷ rest) = if d == b'}' then some (c ∷ run) else none

  -- A match of `\{(\w+)\}` at the start of the text: its name.
  unfoldable pub placeholder_at : Text → Option Text
  unfolding word_run
  placeholder_at [] = none
  placeholder_at (c ∷ s) = if c == b'{' then closed_name (word_run s) else none

  -- The matches from left to right; `skip` characters belong to the match before.
  unfoldable pub pieces : ℕ → Text → List Piece
  pieces skip [] = []
  pieces (suc skip) (c ∷ s) = pieces skip s
  pieces zero (c ∷ s) = elim (placeholder_at (c ∷ s)) [
    | none ↦ literal c ∷ pieces zero s
    | some name ↦ hole name ∷ pieces (length name + 1) s
  ]

abbrev pub in_names : Text → List Text → Bool
in_names name names = any_of (text_eq name) names

-- `PLACEHOLDER_RE.findall`
unfoldable pub found_names : List Piece → List Text
found_names [] = []
found_names (literal c ∷ ps) = found_names ps
found_names (hole name ∷ ps) = name ∷ found_names ps

module _ {Value : Type 0} (str : Value → Text) where
  -- `params[name]`, and `defaults[name]`, where a later parameter of one name wins
  unfoldable pub param : List (Text × Value) → Text → Option Value
  param [] name = none
  param ((key, v) ∷ ps) name = if text_eq key name then some v else param ps name

  abbrev pub first_of_or : Option (Option Value) → Option Value → Option (Option Value)
  first_of_or none d = some d
  first_of_or (some later) d = some later

  unfoldable pub declared_default : List (Parameter Value) → Text → Option (Option Value)
  declared_default [] name = none
  declared_default (p ∷ ps) name =
      let later = declared_default ps name in
      if text_eq p.name name then first_of_or later p.default else later

  -- `defaults.get(name)`
  unfoldable pub default_of : List (Parameter Value) → Text → Option Value
  default_of ps name = elim (declared_default ps name) [ none ↦ none | some d ↦ d ]

  abbrev pub is_some_value : Option Value → Bool
  is_some_value none = false
  is_some_value (some v) = true

  abbrev pub lacks :
      List Text → List (Parameter Value) → List (Text × Value) → Parameter Value → Bool
  lacks found parameters params p =
      in_names p.name found
      && (not (is_some_value (param params p.name))
          && (not (is_some_value (default_of parameters p.name)) && p.required))

  -- `_replace`
  unfoldable pub replace : List (Parameter Value) → List (Text × Value) → Text → Text
  replace parameters params name = elim (param params name) [
    | some v ↦ quote (str v)
    | none ↦ elim (default_of parameters name) [
      | some d ↦ quote (str d)
      | none ↦ b'{' ∷ (name ++ b'}' ∷ [])
    ]
  ]

  unfoldable pub substitute : List (Parameter Value) → List (Text × Value) → List Piece → Text
  substitute parameters params [] = []
  substitute parameters params (literal c ∷ ps) = c ∷ substitute parameters params ps
  substitute parameters params (hole name ∷ ps) =
      replace parameters params name ++ substitute parameters params ps

  -- The two checks in their order, and the result.
  unfoldable pub answer : List Text → List (Parameter Value) → Text → Rendered
  answer (name ∷ names) lacking text = undeclared (name ∷ names)
  answer [] (p ∷ lacking) text = missing (map (λ q. q.name) (p ∷ lacking))
  answer [] [] text = rendered text

  -- The names in the message of an error are sorted in the source; here they stand in the order of
  -- the template, or of the parameters.
  unfoldable pub render_pieces :
      List Piece → List (Parameter Value) → List (Text × Value) → Rendered
  render_pieces ps parameters params =
      let found = found_names ps in
      answer (keep_if (λ name. not (in_names name (map (λ p. p.name) parameters))) found)
        (keep_if (lacks found parameters params) parameters) (substitute parameters params ps)

-- `render_command`
unfoldable pub render_command :
    (ℕ → Bool)
    → {Value : Type 0} → (Value → Text)
    → Text
    → List (Parameter Value)
    → List (Text × Value)
    → Rendered
render_command is_word str template parameters params =
    render_pieces str (pieces is_word 0 template) parameters params
