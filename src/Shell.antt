-- ===== src/Shell.antt =====
-- Quoting for a POSIX shell: `shlex.quote`, as the program uses it, and the words that a shell reads.
pub mod Words
pub mod Lines
mod Tests
use node_nexus_api.Prelude.{
  ℕ, Bool, true, false, not, Option, none, some, List, [], ◌∷◌, ◌++◌, ◌&&◌, ◌||◌, Text, codes, leb,
  ◌==◌, all_of, any_of, if◌then◌else◌,
}

-- `[a-zA-Z0-9_@%+=:,./-]`, the characters that `shlex.quote` leaves alone
unfoldable pub is_safe : ℕ → Bool
is_safe c =
    leb b'a' c && leb c b'z'
    || leb b'A' c && leb c b'Z'
    || leb b'0' c && leb c b'9'
    || any_of (λ d. c == d) (codes "_@%+=:,./-")

-- `s.replace("'", "'\"'\"'")`
unfoldable pub escape : Text → Text
escape [] = []
escape (c ∷ s) = if c == 39 then 39 ∷ 34 ∷ 39 ∷ 34 ∷ 39 ∷ escape s else c ∷ escape s

unfoldable pub quote : Text → Text
quote [] = 39 ∷ 39 ∷ []
quote (c ∷ s) = if all_of is_safe (c ∷ s) then c ∷ s else 39 ∷ (escape (c ∷ s) ++ 39 ∷ [])

-- Where the shell stands: between words, in a word, or in a quoted part of a word.
pub data Mode : Type 0 where
  gap word single double : Mode

-- Inside double quotes these four are not themselves.
abbrev pub active_in_double : ℕ → Bool
active_in_double c = c == 36 || c == 96 || c == 92 || c == 33

abbrev pub consed : Text → Option (List Text) → Option (List Text)
consed w none = none
consed w (some ws) = some (w ∷ ws)

-- What one character does: it stops the reading, moves to a mode with a word so far, or ends a word.
-- It stops at a character with a meaning of its own: an expansion, an operator, a comment, a newline.
pub data Move : Type 0 where
  stop : Move
  go : Mode → Text → Move
  emit : Text → Move

unfoldable pub step : Mode → Text → ℕ → Move
step gap acc c =
    if c == 32
    then go gap acc
    else if c == 39
    then go single []
    else if c == 34
    then go double []
    else if is_safe c
    then go word (c ∷ [])
    else stop
step word acc c =
    if c == 32
    then emit acc
    else if c == 39
    then go single acc
    else if c == 34
    then go double acc
    else if is_safe c
    then go word (acc ++ c ∷ [])
    else stop
step single acc c = if c == 39 then go word acc else go single (acc ++ c ∷ [])
step double acc c =
    if c == 34 then go word acc else if active_in_double c then stop else go double (acc ++ c ∷ [])

abbrev pub finish : Mode → Text → Option (List Text)
finish gap acc = some []
finish word acc = some (acc ∷ [])
finish _ acc = none

-- The words of a simple command, `acc` being the word so far. `none`: the reading stopped, or a quote
-- is still open at the end.
unfoldable pub shell_words : Mode → Text → Text → Option (List Text)
shell_words m acc [] = finish m acc
shell_words m acc (c ∷ s) = elim (step m acc c) [
  | stop ↦ none
  | go m' acc' ↦ shell_words m' acc' s
  | emit w ↦ consed w (shell_words gap [] s)
]
