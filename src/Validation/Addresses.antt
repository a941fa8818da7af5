-- ===== src/Validation/Addresses.antt =====
-- The check on IP addresses, `(\d{1,3}\.){3}\d{1,3}(/\d{1,2})?`.
use node_nexus_api.Prelude.{
  ℕ, suc, Bool, true, false, Option, none, some, [], ◌∷◌, ◌&&◌, Text, text_eq, leb, if◌then◌else◌,
  ◌==◌,
}

module _ (is_digit : ℕ → Bool) where
  -- The length of the run of digits in front, and what follows it.
  abbrev pub digit_run : Text → ℕ × Text
  digit_run [] = (0, [])
  digit_run (c ∷ s) =
      let (n, rest) = digit_run s in if is_digit c then (suc n, rest) else (0, c ∷ s)

  -- `\d{1,n}`: what follows
  abbrev pub short_number : ℕ → Text → Option Text
  short_number n s =
      let (length, rest) = digit_run s in if leb 1 length && leb length n then some rest else none

  abbrev pub after_dot : Option Text → Option Text
  after_dot none = none
  after_dot (some []) = none
  after_dot (some (c ∷ s)) = if c == b'.' then short_number 3 s else none

  abbrev pub is_end : Option Text → Bool
  is_end none = false
  is_end (some s) = text_eq s []

  abbrev pub is_mask : Option Text → Bool
  is_mask none = false
  is_mask (some []) = true
  is_mask (some (c ∷ s)) = c == b'/' && is_end (short_number 2 s)

  unfoldable pub is_ip_address : Text → Bool
  is_ip_address s = is_mask (after_dot (after_dot (after_dot (short_number 3 s))))

  unfoldable pub validate_ip_address : Text → Option Text
  validate_ip_address s = if is_ip_address s then some s else none
