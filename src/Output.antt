-- ===== src/Output.antt =====
-- app/application/policies/output.py: the output of a command, cut to a number of bytes. A text is its
-- code points; `str.encode` and `bytes.decode` are written out for UTF-8. A lone surrogate, which
-- `str.encode` refuses, is left out, and so is the ValueError for a negative bound.
pub mod Cuts
mod Tests
use node_nexus_api.Prelude.{
  ℕ, zero, suc, ◌+◌, ◌-◌, ◌*◌, ◌/◌, ◌%◌, Bool, true, false, List, [], ◌∷◌, ◌++◌, Text, ltb, leb,
  length, take, if◌then◌else◌,
}

-- The UTF-8 bytes of a code point.
unfoldable pub utf8 : ℕ → List ℕ
utf8 c =
    if ltb c 128
    then c ∷ []
    else if ltb c 2048
    then (192 + c / 64) ∷ (128 + c % 64) ∷ []
    else if ltb c 65536
    then (224 + c / 64 / 64) ∷ (128 + c / 64 % 64) ∷ (128 + c % 64) ∷ []
    else (240 + c / 64 / 64 / 64)
      ∷ (128 + c / 64 / 64 % 64)
      ∷ (128 + c / 64 % 64)
      ∷ (128 + c % 64)
      ∷ []

-- `value.encode()`
unfoldable pub encode : Text → List ℕ
encode [] = []
encode (c ∷ s) = utf8 c ++ encode s

-- `raw.decode(errors="ignore")` on the start of an encoding, `need` bytes being missing of the character
-- that was begun with `acc`. What is missing at the end is ignored.
unfoldable pub decode : ℕ → ℕ → List ℕ → Text
decode need acc [] = []
decode zero acc (b ∷ bs) =
    if ltb b 128
    then b ∷ decode 0 0 bs
    else if ltb b 192
    then decode 0 0 bs
    else if ltb b 224
    then decode 1 (b - 192) bs
    else if ltb b 240
    then decode 2 (b - 224) bs
    else decode 3 (b - 240) bs
decode (suc zero) acc (b ∷ bs) = (acc * 64 + (b - 128)) ∷ decode 0 0 bs
decode (suc (suc need)) acc (b ∷ bs) = decode (suc need) (acc * 64 + (b - 128)) bs

pub record BoundedOutput : Type 0 where
  pub value : Text
  pub original_bytes : ℕ
  pub truncated : Bool

unfoldable pub bound_output : Text → ℕ → BoundedOutput
bound_output value max_bytes =
    let raw = encode value in
    if leb (length raw) max_bytes
    then record { value = value; original_bytes = length raw; truncated = false }
    else record {
      value = decode 0 0 (take max_bytes raw);
      original_bytes = length raw;
      truncated = true;
    }
