-- ===== src/Output/Cuts.antt =====
-- The cut text is the longest start of the output that fits.
use node_nexus_api.Prelude.{
  ℕ, zero, suc, ◌+◌, ◌-◌, ◌≤◌, ◌<◌, true, List, [], ◌∷◌, ◌++◌, Text, leb, length, take, ◌≡◌, refl,
  sym, ap, append-nil, ◌↔◌, ◌∙◌, arith, length-append, Bool-cases, inl, inr,
}
use mathlib.Core.Path.{subst}
use native.Mathlib.Nat.{suc-add}
use node_nexus_api.Output.{utf8, encode, decode, bound_output}

decode-utf8 : (c : ℕ) (bs : List ℕ) → decode 0 0 (utf8 c ++ bs) ≡ c ∷ decode 0 0 bs
unfolding decode utf8
decode-utf8 c bs = ground arith

decode-cut : (n c : ℕ) → n < length (utf8 c) → decode 0 0 (take n (utf8 c)) ≡ []
unfolding decode utf8
decode-cut zero c h = refl
decode-cut (suc zero) c h = ground arith
decode-cut (suc (suc zero)) c h = ground arith
decode-cut (suc (suc (suc zero))) c h = ground arith
decode-cut (suc (suc (suc (suc n)))) c h = absurd (ground arith)

module _ {ℓ} {A : Type ℓ} where
  take-within : (n : ℕ) (xs ys : List A) → n < length xs → take n (xs ++ ys) ≡ take n xs
  take-within zero xs ys h = refl
  take-within (suc n) [] ys h = absurd (omega arith)
  take-within (suc n) (x ∷ xs) ys h = ap (λ zs. x ∷ zs) (take-within n xs ys (omega arith))

  take-beyond : (n : ℕ) (xs ys : List A) → take (length xs + n) (xs ++ ys) ≡ xs ++ take n ys
  take-beyond n [] ys = ap (λ i. take i ys) (omega arith)
  take-beyond n (x ∷ xs) ys =
      ap (λ i. take i (x ∷ (xs ++ ys))) (suc-add (length xs) n)
      ∙ ap (λ zs. x ∷ zs) (take-beyond n xs ys)

-- The longest start of a text whose encoding has at most `n` bytes: what follows it, if anything, starts
-- with a character that does not fit any more.
pub record LongestStart (n : ℕ) (s v : Text) : Type 0 where
  pub rest : Text
  pub start : s ≡ v ++ rest
  pub fits : length (encode v) ≤ n
  pub maximal : (c : ℕ) (t : Text) → rest ≡ c ∷ t → n < length (encode v) + length (utf8 c)

longest-nil : (n : ℕ) → LongestStart n [] []
unfolding encode
longest-nil n = record {
  rest = [];
  start = refl;
  fits = omega arith;
  maximal = λ c t e. absurd (cc);
}

longest-cons :
    (n c : ℕ) (s v : Text) → LongestStart n s v → LongestStart (length (utf8 c) + n) (c ∷ s) (c ∷ v)
unfolding encode
longest-cons n c s v l = record {
  rest = l.rest;
  start = ap (λ (t : Text). c ∷ t) l.start;
  fits = omega (arith, length-append (utf8 c) (encode v), l.fits);
  maximal = λ d t e. omega (arith, length-append (utf8 c) (encode v), l.maximal d t e);
}

longest-stop : (n c : ℕ) (s : Text) → n < length (utf8 c) → LongestStart n (c ∷ s) []
unfolding encode
longest-stop n c s h = record {
  rest = c ∷ s;
  start = refl;
  fits = omega arith;
  maximal = λ d t e. ground arith;
}

decode-nothing : (n : ℕ) → decode 0 0 (take n []) ≡ []
unfolding decode
decode-nothing zero = refl
decode-nothing (suc n) = refl

decode-fitting :
    (s : Text) (m c : ℕ)
    → LongestStart m s (decode 0 0 (take m (encode s)))
    → LongestStart
        (length (utf8 c) + m)
        (c ∷ s)
        (decode 0 0 (take (length (utf8 c) + m) (utf8 c ++ encode s)))
decode-fitting s m c l =
    rw (take-beyond m (utf8 c) (encode s), decode-utf8 c (take m (encode s)))
      (longest-cons m c s (decode 0 0 (take m (encode s))) l)

decode-take : (s : Text) (n : ℕ) → LongestStart n s (decode 0 0 (take n (encode s)))
unfolding encode
decode-take [] n = rw (decode-nothing n) (longest-nil n)
decode-take (c ∷ s) n = elim (Bool-cases (leb (length (utf8 c)) n)) [
  | inl y ↦
      let fitting =
        decode-fitting s (n - length (utf8 c)) c (decode-take s (n - length (utf8 c))) in
      subst (λ k. LongestStart k (c ∷ s) (decode 0 0 (take k (utf8 c ++ encode s))))
        (back n (length (utf8 c)) y) fitting
  | inr over ↦
      rw (take-within n (utf8 c) (encode s) (ground arith), decode-cut n c (ground arith))
        (longest-stop n c s (ground arith))
]
  where
    back : (n w : ℕ) → leb w n ≡ true → w + (n - w) ≡ n
    back n w y = ground arith

-- Whatever the output and the bound: what is kept is the longest start of the output whose encoding has
-- at most `max_bytes` bytes, the size that is reported is that of the whole encoding, and the output is
-- reported as truncated exactly when that size is above the bound.
pub bound_output_lem :
    (s : Text) (max_bytes : ℕ)
    → LongestStart max_bytes s (bound_output s max_bytes).value
      × ((bound_output s max_bytes).original_bytes ≡ length (encode s))
      × (((bound_output s max_bytes).truncated ≡ true) ↔ (max_bytes < length (encode s)))
unfolding bound_output
bound_output_lem s max_bytes = elim (Bool-cases (leb (length (encode s)) max_bytes)) [
  | inl y ↦ rw y (
    record {
      rest = [];
      start = sym (append-nil s);
      fits = ground arith;
      maximal = λ c t e. absurd (cc);
    },
    refl,
    ground arith,
  )
  | inr over ↦ rw over (decode-take s max_bytes, refl, ground arith)
]
