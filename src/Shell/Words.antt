-- ===== src/Shell/Words.antt =====
-- A quoted text is read as exactly one word.
use node_nexus_api.Prelude.{
  ℕ, true, false, some, [], ◌∷◌, ◌++◌, Text, ◌==◌, all_of, ◌≡◌, refl, sym, arith, Bool-cases, inl,
  inr, append_assoc, append-nil, &&-eq-true, ap, ◌∙◌, ==_iff,
}
use node_nexus_api.Shell.{
  is_safe, escape, quote, Mode, gap, word, single, go, step, shell_words, consed,
}

-- A safe character is no blank and no quote.
safe_plain :
    (c : ℕ) → is_safe c ≡ true → ((c == 32) ≡ false) × ((c == 39) ≡ false) × ((c == 34) ≡ false)
unfolding is_safe
safe_plain c h = ground arith

pub shell_words-go :
    (m : Mode) (acc : Text) (c : ℕ) (s : Text) {m' : Mode} {acc' : Text}
    → step m acc c ≡ go m' acc'
    → shell_words m acc (c ∷ s) ≡ shell_words m' acc' s
unfolding shell_words
shell_words-go m acc c s e = rw (e, shell_words)

word_step :
    (acc : Text) (c : ℕ) (s : Text)
    → is_safe c ≡ true
    → shell_words word acc (c ∷ s) ≡ shell_words word (acc ++ c ∷ []) s
unfolding step
word_step acc c s h =
    let (blank, tick, quotes) = safe_plain c h in
    shell_words-go _ acc c s (rw (blank, tick, quotes, h))

gap_step :
    (acc : Text) (c : ℕ) (s : Text)
    → is_safe c ≡ true
    → shell_words gap acc (c ∷ s) ≡ shell_words word (c ∷ []) s
unfolding step
gap_step acc c s h =
    let (blank, tick, quotes) = safe_plain c h in
    shell_words-go _ acc c s (rw (blank, tick, quotes, h))

pub word-safe :
    (acc s rest : Text)
    → all_of is_safe s ≡ true
    → shell_words word acc (s ++ rest) ≡ shell_words word (acc ++ s) rest
word-safe acc [] rest h = rw append-nil
word-safe acc (c ∷ s) rest h =
    let (safe, others) = &&-eq-true (is_safe c) (all_of is_safe s) h in
    word_step acc c (s ++ rest) safe
    ∙ word-safe (acc ++ c ∷ []) s rest others
    ∙ ap (λ (t : Text). shell_words word t rest) (append_assoc acc (c ∷ []) s)

tick_run :
    (acc s : Text)
    → shell_words single acc (39 ∷ 34 ∷ 39 ∷ 34 ∷ 39 ∷ s) ≡ shell_words single (acc ++ 39 ∷ []) s
unfolding shell_words step
tick_run acc s = refl

plain_step :
    (acc : Text) (c : ℕ) (s : Text)
    → (c == 39) ≡ false
    → shell_words single acc (c ∷ s) ≡ shell_words single (acc ++ c ∷ []) s
unfolding step
plain_step acc c s h = shell_words-go single acc c s (rw h)

single-escape :
    (acc s rest : Text)
    → shell_words single acc ((escape s ++ 39 ∷ []) ++ rest) ≡ shell_words word (acc ++ s) rest
unfolding escape
single-escape acc [] rest = rw append-nil (unfold shell_words step in refl)
single-escape acc (c ∷ s) rest = elim (Bool-cases (c == 39)) [
  | inl tick ↦
      rw (tick, (==_iff c 39).0 tick)
        (tick_run acc _
          ∙ single-escape (acc ++ 39 ∷ []) s rest
          ∙ ap (λ (t : Text). shell_words word t rest) (append_assoc acc (39 ∷ []) s))
  | inr other ↦ rw other (
      plain_step acc c _ other
      ∙ single-escape (acc ++ c ∷ []) s rest
      ∙ ap (λ (t : Text). shell_words word t rest) (append_assoc acc (c ∷ []) s))
]

tick_step : (acc s : Text) → shell_words word acc (39 ∷ s) ≡ shell_words single acc s
unfolding shell_words step
tick_step acc s = refl

-- In a word, a quoted text adds itself and nothing else.
pub word-quote :
    (acc s rest : Text) → shell_words word acc (quote s ++ rest) ≡ shell_words word (acc ++ s) rest
unfolding quote
word-quote acc [] rest = unfold shell_words step in rw append-nil
word-quote acc (c ∷ s) rest = elim (Bool-cases (all_of is_safe (c ∷ s))) [
  | inl safe ↦ rw safe (word-safe acc (c ∷ s) rest safe)
  | inr unsafe ↦ rw unsafe (tick_step acc _ ∙ single-escape acc (c ∷ s) rest)
]

-- At the start of a word, too.
pub gap-quote :
    (acc s rest : Text) → shell_words gap acc (quote s ++ rest) ≡ shell_words word s rest
unfolding quote
gap-quote acc [] rest = unfold shell_words step in refl
gap-quote acc (c ∷ s) rest = elim (Bool-cases (all_of is_safe (c ∷ s))) [
  | inl safe ↦
      let (first, others) = &&-eq-true (is_safe c) (all_of is_safe s) safe in
      rw safe (gap_step acc c (s ++ rest) first ∙ word-safe (c ∷ []) s rest others)
  | inr unsafe ↦ rw unsafe (unfold shell_words step in single-escape [] (c ∷ s) rest)
]

-- Whatever the text, a shell that reads its quotation before a space or the end of the command reads
-- one word, the text itself, and then the words of the rest.
pub quote-one_word :
    (s rest : Text)
    → (shell_words gap [] (quote s) ≡ some (s ∷ []))
      × (shell_words gap [] (quote s ++ 32 ∷ rest) ≡ consed s (shell_words gap [] rest))
quote-one_word s rest = (
  ap (shell_words gap []) (sym (append-nil (quote s)))
      ∙ gap-quote [] s []
      ∙ unfold shell_words step in refl,
  gap-quote [] s (32 ∷ rest) ∙ unfold shell_words step in refl,
)
