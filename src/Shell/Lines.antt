-- ===== src/Shell/Lines.antt =====
-- Command lines put together from parts with a space between them, and the words that a shell reads.
use node_nexus_api.Prelude.{
  ℕ, zero, suc, ◌+◌, ◌/◌, ◌%◌, Bool, true, false, some, List, [], ◌∷◌, ◌++◌, Text, ltb, all_of, ◌≡◌,
  refl, sym, ap, ◌∙◌, arith, append_assoc, append-nil, if◌then◌else◌,
}
use mathlib.Core.Path.{subst}
use node_nexus_api.Shell.{is_safe, quote, gap, word, shell_words, step, consed}
use node_nexus_api.Shell.Words.{gap-quote, word-quote, word-safe}

-- `" ".join(parts)`
unfoldable pub join : List Text → Text
join [] = []
join (p ∷ []) = p
join (p ∷ q ∷ ps) = p ++ 32 ∷ join (q ∷ ps)

-- A part that a shell, at the start of a word, reads as the word `w` or the start of one.
abbrev pub Reads : Text → Text → Type 0
Reads s w = (rest : Text) → shell_words gap [] (s ++ rest) ≡ shell_words word w rest

-- A part that, in a word, adds `w` to it.
abbrev pub Extends : Text → Text → Type 0
Extends s w =
    (acc rest : Text) → shell_words word acc (s ++ rest) ≡ shell_words word (acc ++ w) rest

-- Parts and the words that they are read as, one by one.
abbrev pub AllRead : List Text → List Text → Type 0
AllRead [] [] = Unit
AllRead [] (w ∷ ws) = ⊥
AllRead (p ∷ ps) [] = ⊥
AllRead (p ∷ ps) (w ∷ ws) = Reads p w × AllRead ps ws

word-end : (w : Text) → shell_words word w [] ≡ some (w ∷ [])
unfolding shell_words
word-end w = refl

word-space : (w s : Text) → shell_words word w (32 ∷ s) ≡ consed w (shell_words gap [] s)
unfolding shell_words step
word-space w s = refl

one-part : (p w : Text) → Reads p w → shell_words gap [] p ≡ some (w ∷ [])
one-part p w r = ap (shell_words gap []) (sym (append-nil p)) ∙ r [] ∙ word-end w

-- A line of parts is read as the words of its parts.
pub join_words : (ps ws : List Text) → AllRead ps ws → shell_words gap [] (join ps) ≡ some ws
unfolding join
join_words [] [] rs = unfold shell_words in refl
join_words [] (w ∷ ws) rs = absurd rs
join_words (p ∷ ps) [] rs = absurd rs
join_words (p ∷ []) (w ∷ []) rs = one-part p w rs.0
join_words (p ∷ []) (w ∷ v ∷ ws) rs = absurd rs.1
join_words (p ∷ q ∷ ps) (w ∷ []) rs = absurd rs.1
join_words (p ∷ q ∷ ps) (w ∷ v ∷ ws) rs =
    rs.0 (32 ∷ join (q ∷ ps))
    ∙ word-space w (join (q ∷ ps))
    ∙ ap (consed w) (join_words (q ∷ ps) (v ∷ ws) rs.1)

pub Reads-quote : (s : Text) → Reads (quote s) s
Reads-quote s rest = gap-quote [] s rest

pub Extends-quote : (s : Text) → Extends (quote s) s
Extends-quote s acc rest = word-quote acc s rest

pub Extends-safe : (s : Text) → all_of is_safe s ≡ true → Extends s s
Extends-safe s h acc rest = word-safe acc s rest h

quote-safe : (c : ℕ) (s : Text) → all_of is_safe (c ∷ s) ≡ true → quote (c ∷ s) ≡ c ∷ s
unfolding quote
quote-safe c s h = rw h refl

pub Reads-safe : (c : ℕ) (s : Text) → all_of is_safe (c ∷ s) ≡ true → Reads (c ∷ s) (c ∷ s)
Reads-safe c s h = subst (λ t. Reads t (c ∷ s)) (quote-safe c s h) (Reads-quote (c ∷ s))

pub Reads-append : (s t v w : Text) → Reads s v → Extends t w → Reads (s ++ t) (v ++ w)
Reads-append s t v w r e rest =
    ap (shell_words gap []) (append_assoc s t rest) ∙ r (t ++ rest) ∙ e v rest

-- The decimal digits of a number, in front of `acc`.
unfoldable pub digits : ℕ → ℕ → Text → Text
digits zero n acc = acc
digits (suc fuel) n acc =
    let rest = digits fuel (n / 10) ((48 + n % 10) ∷ acc) in
    if ltb n 10 then (48 + n) ∷ acc else rest

-- `str(n)`
unfoldable pub decimal : ℕ → Text
decimal n = digits (suc n) n []

digits_safe :
    (fuel n : ℕ) (acc : Text)
    → all_of is_safe acc ≡ true
    → all_of is_safe (digits fuel n acc) ≡ true
unfolding digits is_safe
digits_safe zero n acc h = h
digits_safe (suc fuel) n acc h = ground (arith, digits_safe fuel (n / 10) ((48 + n % 10) ∷ acc))

abbrev pub is_nonempty : Text → Bool
is_nonempty [] = false
is_nonempty (c ∷ s) = true

digits_nonempty : (fuel n c : ℕ) (acc : Text) → is_nonempty (digits fuel n (c ∷ acc)) ≡ true
unfolding digits
digits_nonempty zero n c acc = refl
digits_nonempty (suc fuel) n c acc =
    ground (arith, digits_nonempty fuel (n / 10) (48 + n % 10) (c ∷ acc))

decimal_nonempty : (n : ℕ) → is_nonempty (decimal n) ≡ true
unfolding decimal digits
decimal_nonempty n = ground (arith, digits_nonempty n (n / 10) (48 + n % 10) [])

pub Reads-plain : (s : Text) → is_nonempty s ≡ true → all_of is_safe s ≡ true → Reads s s
Reads-plain [] n h = absurd (cc)
Reads-plain (c ∷ s) n h = Reads-safe c s h

pub decimal_safe : (n : ℕ) → all_of is_safe (decimal n) ≡ true
unfolding decimal
decimal_safe n = digits_safe (suc n) n [] refl

-- A number is read as itself.
pub Reads-decimal : (n : ℕ) → Reads (decimal n) (decimal n)
Reads-decimal n = Reads-plain (decimal n) (decimal_nonempty n) (decimal_safe n)
