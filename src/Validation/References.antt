-- ===== src/Validation/References.antt =====
-- What an accepted name is to a shell and to the Docker CLI.
use node_nexus_api.Prelude.{
  ℕ, Bool, true, false, none, some, [], ◌∷◌, ◌++◌, Text, codes, ◌==◌, all_of, ◌≡◌, refl, sym, ap,
  ◌∙◌, arith, starts_with, &&-eq-true, append-nil, append_assoc, all_of-append, Bool-cases, inl,
  inr,
}
use node_nexus_api.Shell.{is_safe, quote, gap, shell_words}
use node_nexus_api.Shell.Lines.{is_nonempty}
use node_nexus_api.Shell.Words.{quote-one_word}
use node_nexus_api.Validation.{
  is_letter, is_alphanumeric, in_class, is_reference, is_image, valid_if, validate_container_id,
  validate_container_name, validate_network_name, validate_volume_name, validate_container_new_name,
  validate_network_driver, match_to_end, validate_image_name, validate_image_tag,
}

quote-safe : (c : ℕ) (s : Text) → all_of is_safe (c ∷ s) ≡ true → quote (c ∷ s) ≡ c ∷ s
unfolding quote
quote-safe c s h = rw h refl

one_word :
    (c : ℕ) (s : Text)
    → all_of is_safe (c ∷ s) ≡ true
    → shell_words gap [] (c ∷ s) ≡ some ((c ∷ s) ∷ [])
one_word c s h = ap (shell_words gap []) (sym (quote-safe c s h)) ∙ (quote-one_word (c ∷ s) []).0

alphanumeric_safe : (c : ℕ) → is_alphanumeric c ≡ true → (is_safe c ≡ true) × ((b'-' == c) ≡ false)
unfolding is_alphanumeric is_letter is_safe
alphanumeric_safe c h = ground arith

class_safe : (c : ℕ) → in_class (codes "_.-") c ≡ true → is_safe c ≡ true
unfolding in_class is_alphanumeric is_letter is_safe
class_safe c h = ground arith

image_safe : (c : ℕ) → in_class (codes "-_./:") c ≡ true → is_safe c ≡ true
unfolding in_class is_alphanumeric is_letter is_safe
image_safe c h = ground arith

all_of-weaken :
    (p q : ℕ → Bool)
    → ((c : ℕ) → p c ≡ true → q c ≡ true)
    → (s : Text) → all_of p s ≡ true
    → all_of q s ≡ true
all_of-weaken p q f [] h = refl
all_of-weaken p q f (c ∷ s) h =
    let (x, rest) = &&-eq-true (p c) (all_of p s) h in rw (f c x) (all_of-weaken p q f s rest)

-- An accepted name, as it is returned: the name itself, which a shell reads without quotation as one
-- word, and which does not look like an option.
pub record SafeName (s t : Text) : Type 0 where
  pub unchanged : t ≡ s
  pub word : shell_words gap [] t ≡ some (t ∷ [])
  pub no_option : starts_with (codes "-") t ≡ false
  pub nonempty : is_nonempty t ≡ true
  pub safe : all_of is_safe t ≡ true

unchanged_text : (s t : Text) → valid_if true s ≡ some t → s ≡ t
unchanged_text s t h = ground arith

reference_safe : (s t : Text) (b : Bool) → b ≡ is_reference s → valid_if b s ≡ some t → SafeName s t
unfolding is_reference
reference_safe s t false e h = absurd (cc)
reference_safe [] t true e h = absurd (cc)
reference_safe (c ∷ s) t true e h =
    let (first, others) =
      &&-eq-true (is_alphanumeric c) (all_of (in_class (codes "_.-")) s) (sym e) in
    let (safe, dash) = alphanumeric_safe c first in
    record {
      unchanged = ground arith;
      word = rw (sym (unchanged_text (c ∷ s) t h)) (
          one_word c s
            (rw safe (all_of-weaken (in_class (codes "_.-")) is_safe class_safe s others)));
      no_option = rw (sym (unchanged_text (c ∷ s) t h)) (rw dash refl);
      nonempty = rw (sym (unchanged_text (c ∷ s) t h)) refl;
      safe =
          rw (sym (unchanged_text (c ∷ s) t h))
            (rw safe (all_of-weaken (in_class (codes "_.-")) is_safe class_safe s others));
    }

-- The names of containers, networks, volumes and network drivers that are accepted are safe, in the sense
-- of `SafeName`.
pub references_safe :
    (s t : Text)
    → (validate_container_id s ≡ some t → SafeName s t)
      × (validate_container_name s ≡ some t → SafeName s t)
      × (validate_network_name s ≡ some t → SafeName s t)
      × (validate_volume_name s ≡ some t → SafeName s t)
      × (validate_container_new_name s ≡ some t → SafeName s t)
      × (validate_network_driver s ≡ some t → SafeName s t)
unfolding validate_container_id validate_container_name validate_network_name validate_volume_name
    validate_container_new_name validate_network_driver
references_safe s t =
    let safe = reference_safe s t (is_reference s) refl in (safe, safe, safe, safe, safe, safe)

-- An image tag that is accepted is returned as it is, and a shell reads it without quotation as one word.
pub image_tag_word :
    (s t : Text) → validate_image_tag s ≡ some t → (t ≡ s) × (shell_words gap [] t ≡ some (t ∷ []))
unfolding validate_image_tag is_image
image_tag_word [] t h = absurd (cc)
image_tag_word (c ∷ s) t h = elim (Bool-cases (is_image (c ∷ s))) [
  | inl y ↦
      let same = unchanged_text (c ∷ s) t (rw y at h) in
      (
        sym same,
        rw (sym same)
            (one_word c s (all_of-weaken (in_class (codes "-_./:")) is_safe image_safe (c ∷ s) y)),
      )
  | inr n ↦ absurd (ground arith)
]

-- What an image name has in it is safe.
pub image_text_safe :
    (s : Text) → is_image s ≡ true → (is_nonempty s ≡ true) × (all_of is_safe s ≡ true)
unfolding is_image
image_text_safe [] h = absurd (cc)
image_text_safe (c ∷ s) h =
    (refl, all_of-weaken (in_class (codes "-_./:")) is_safe image_safe (c ∷ s) h)

match_newline :
    (p : Text → Bool) (before s : Text)
    → p (before ++ s) ≡ true
    → match_to_end p before (s ++ 10 ∷ []) ≡ true
unfolding match_to_end
match_newline p before [] h = let g = rw append-nil at h in ground arith
match_newline p before (c ∷ []) h = match_newline p (before ++ c ∷ []) [] (rw append-nil h)
match_newline p before (c ∷ d ∷ s) h =
    match_newline p (before ++ c ∷ []) (d ∷ s) (rw append_assoc h)

image_newline : (s : Text) → is_image (s ++ 10 ∷ []) ≡ false
unfolding is_image
image_newline [] = unfold in_class is_alphanumeric is_letter in refl
image_newline (c ∷ s) =
    rw (all_of-append (in_class (codes "-_./:")) s (10 ∷ []))
      (unfold in_class is_alphanumeric is_letter in ground arith)

-- `validate_image_name` accepts and returns every image tag with a newline behind it, which
-- `validate_image_tag` refuses.
pub image_name_newline :
    (s : Text)
    → validate_image_tag s ≡ some s
    → (validate_image_name (s ++ 10 ∷ []) ≡ some (s ++ 10 ∷ []))
      × (validate_image_tag (s ++ 10 ∷ []) ≡ none)
unfolding validate_image_name validate_image_tag
image_name_newline s h = elim (Bool-cases (is_image s)) [
  | inl y ↦ (rw (match_newline is_image [] s y) refl, rw (image_newline s) refl)
  | inr n ↦ absurd (ground arith)
]
