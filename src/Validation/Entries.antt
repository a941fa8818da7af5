-- ===== src/Validation/Entries.antt =====
-- Lists of entries and their parts.
use node_nexus_api.Prelude.{
  ℕ, Bool, true, false, not, Option, none, some, List, [], ◌∷◌, ◌++◌, ◌&&◌, ◌||◌, Text, codes, ◌==◌,
  all_of, if◌then◌else◌, ◌≡◌, refl, ◌≢◌, ◌∙◌, leb, sym, ap, arith, &&-eq-true, Bool-cases,
  Option-cases, inl, inr, ==_iff, ==_refl,
}
use node_nexus_api.Validation.{
  is_letter, is_alphanumeric, in_class, is_identifier, split_at, is_line, is_assignment, is_env_var,
  validate_env_vars, Value, is_text, is_label_key, validate_labels,
}

abbrev pub is_first : ℕ → Bool
is_first c = leb b'A' c && leb c b'Z' || leb b'a' c && leb c b'z' || c == b'_'

-- A letter or `_`, and then letters, digits and `_`.
abbrev pub is_name : Text → Bool
is_name [] = false
is_name (c ∷ s) = is_first c && all_of (λ d. is_first d || leb b'0' d && leb d b'9') s

-- A text that is a name, `=` and a value that is not empty and has no newline.
pub record Assignment (s : Text) : Type 0 where
  pub key : Text
  pub value : Text
  pub whole : s ≡ key ++ b'=' ∷ value
  pub name : is_name key ≡ true
  pub not_empty : value ≢ []
  pub line : all_of (λ c. not (c == 10)) value ≡ true

rest-is_name :
    (s : Text)
    → all_of (in_class (codes "_")) s ≡ all_of (λ d. is_first d || leb b'0' d && leb d b'9') s
unfolding in_class is_alphanumeric is_letter
rest-is_name [] = refl
rest-is_name (c ∷ s) = let ih = rest-is_name s in ground (arith, ih)

identifier-is_name : (key : Text) → is_identifier key ≡ is_name key
unfolding is_identifier is_letter
identifier-is_name [] = refl
identifier-is_name (c ∷ s) = let e = rest-is_name s in rw e (ground arith)

line-not_empty :
    (value : Text)
    → is_line value ≡ true
    → (value ≢ []) × (all_of (λ c. not (c == 10)) value ≡ true)
line-not_empty [] h = absurd (cc)
line-not_empty (c ∷ s) h = ((λ e. absurd (cc)), h)

line-of :
    (value : Text) → value ≢ [] → all_of (λ c. not (c == 10)) value ≡ true → is_line value ≡ true
line-of [] h k = absurd (h refl)
line-of (c ∷ s) h k = k

split_at_sound :
    (d : ℕ) (s key value : Text) → split_at d s ≡ some (key, value) → s ≡ key ++ d ∷ value
unfolding split_at
split_at_sound d [] key value h = absurd (cc)
split_at_sound d (c ∷ s) key value h = elim (Bool-cases (c == d)) [
  | inl y ↦
      let (same, rest) = first_here (rw y at h) in rw (sym same, sym rest, (==_iff c d).0 y) refl
  | inr n ↦ elim (Option-cases (split_at d s)) [
    | inl absent ↦ absurd (ground arith)
    | inr (p, found) ↦
        let (same, rest) = later (rw (n, found) at h) in
        rw (sym same, sym rest) (ap (λ (t : Text). c ∷ t) (split_at_sound d s p.0 p.1 found))
  ]
]
  where
    first_here :
        ◌≡◌ {A = Option (Text × Text)} (some ([], s)) (some (key, value))
        → (◌≡◌ {A = Text} [] key) × (s ≡ value)
    first_here e = ground arith

    later :
        {p : Text × Text}
        → ◌≡◌ {A = Option (Text × Text)} (some (c ∷ p.0, p.1)) (some (key, value))
        → (c ∷ p.0 ≡ key) × (p.1 ≡ value)
    later e = ground arith

not-true : (b : Bool) → not b ≡ true → b ≡ false
not-true b h = ground arith

split_at-append :
    (d : ℕ) (key value : Text)
    → all_of (λ c. not (c == d)) key ≡ true
    → split_at d (key ++ d ∷ value) ≡ some (key, value)
unfolding split_at
split_at-append d [] value h = rw (==_refl d) refl
split_at-append d (c ∷ key) value h =
    let (here, others) = &&-eq-true (not (c == d)) (all_of (λ e. not (e == d)) key) h in
    rw (not-true (c == d) here, split_at-append d key value others) refl

letter_no_equals : (c : ℕ) → (is_letter c || c == b'_') ≡ true → (c == b'=') ≡ false
unfolding is_letter
letter_no_equals c h = ground arith

class_no_equals :
    (s : Text) → all_of (in_class (codes "_")) s ≡ true → all_of (λ c. not (c == b'=')) s ≡ true
unfolding in_class is_alphanumeric is_letter
class_no_equals [] h = refl
class_no_equals (c ∷ s) h = ground (arith, class_no_equals s)

identifier-no_equals :
    (key : Text) → is_identifier key ≡ true → all_of (λ c. not (c == b'=')) key ≡ true
unfolding is_identifier in_class is_alphanumeric is_letter
identifier-no_equals [] h = refl
identifier-no_equals (c ∷ s) h =
    let (first, others) =
      &&-eq-true (is_letter c || c == b'_') (all_of (in_class (codes "_")) s) h in
    rw (letter_no_equals c first, class_no_equals s others) refl

Assignment-of :
    (s : Text) (found : Option (Text × Text))
    → split_at b'=' s ≡ found
    → is_assignment found ≡ true
    → Assignment s
Assignment-of s none e h = absurd (cc)
Assignment-of s (some (key, value)) e h = record {
  key = key;
  value = value;
  whole = split_at_sound b'=' s key value e;
  name = sym (identifier-is_name key) ∙ (&&-eq-true (is_identifier key) (is_line value) h).0;
  not_empty = (line-not_empty value (&&-eq-true (is_identifier key) (is_line value) h).1).0;
  line = (line-not_empty value (&&-eq-true (is_identifier key) (is_line value) h).1).1;
}

-- An entry is accepted exactly when it is a name of ASCII letters, digits and `_` that does not begin with a digit, then `=`, and a value that is not empty and has no newline; the value may hold further `=`.
pub is_env_var_iff :
    (s : Text) → (is_env_var s ≡ true → Assignment s) × (Assignment s → is_env_var s ≡ true)
unfolding is_env_var
is_env_var_iff s = (
  λ h. Assignment-of s (split_at b'=' s) refl h,
  λ a.
      let name = identifier-is_name a.key ∙ a.name in
      rw (a.whole, split_at-append b'=' a.key a.value (identifier-no_equals a.key name), name)
        (line-of a.value a.not_empty a.line),
)

-- A list of entries is accepted exactly when each of them is, and is then returned as it is.
pub validate_env_vars_iff :
    (env : List Text) → (validate_env_vars env ≡ (if all_of is_env_var env then some env else none))
unfolding validate_env_vars
validate_env_vars_iff [] = refl
validate_env_vars_iff (s ∷ env) = let ih = validate_env_vars_iff env in ground arith

-- Labels are accepted exactly when every key matches and every value is a string, and are then returned as they are.
pub validate_labels_iff :
    (labels : List (Text × Value))
    → validate_labels labels
      ≡ (if all_of (λ l. is_label_key l.0 && is_text l.1) labels then some labels else none)
unfolding validate_labels
validate_labels_iff [] = refl
validate_labels_iff ((key, value) ∷ labels) = let ih = validate_labels_iff labels in ground arith
