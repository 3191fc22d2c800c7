-- ===== src/Uuid/Tests.antt =====
-- A chunk with a concrete matrix. The cells are 0. and 1. with their IEEE words.
use libambix.Base.{
  ℕ, ◌-◌, ◌^◌, ◌<◌, ◌≡◌, refl, arith, Bool, true, false, if◌then◌else◌, ◌==◌, none, List, [], ◌∷◌,
  take, drop, length, done, null,
}
use libambix.Matrix.{Float, Matrix}
use libambix.Matrix.Writes.{IsFilled}
use libambix.Uuid.{Bits, check_uuid, uuid1_to_matrix, uuid1_size, matrix_to_uuid1}
use libambix.Uuid.Roundtrip.{uuid1_roundtrip}

instance abbrev pub unit_float : Float Bool
unit_float = record { zero = false; one = true }

abbrev pub word_of : Bool → ℕ
word_of b = if b then 0x3f800000 else 0

pub word_of-lt : (b : Bool) → word_of b < 2 ^ 32
word_of-lt true = omega arith
word_of-lt false = omega arith

pub word_of_back : (b : Bool) → (word_of b == 0x3f800000) ≡ b
word_of_back true = refl
word_of_back false = refl

instance abbrev pub unit_bits : Bits Bool
unit_bits = record {
  to_bits = word_of;
  of_bits = λ w. w == 0x3f800000;
  to_bits-lt = word_of-lt;
  of_bits-to_bits = word_of_back;
}

abbrev unit_row : Matrix Bool
unit_row = record { rows = 1; cols = 2; cell = λ r c. c == 0 }

too_short : uuid1_to_matrix {F = Bool} (0 ∷ 0 ∷ 0 ∷ []) 3 none true ≡ null
unfolding uuid1_to_matrix
too_short = refl

uuid1_roundtrip_example :
    (chunk : List ℕ) × (matrix_to_uuid1 unit_row true ≡ done chunk)
    × (length chunk ≡ uuid1_size unit_row)
    × (check_uuid (take 16 chunk) ≡ 1)
    × (back : Matrix Bool) × (uuid1_to_matrix (drop 16 chunk) (length chunk - 16) none true
        ≡ done back)
    × IsFilled 1 2 (λ r c. c == 0) back
uuid1_roundtrip_example = uuid1_roundtrip unit_row true none (record {
  rows-pos = omega arith;
  rows-lt = omega arith;
  cols-pos = omega arith;
  cols-lt = omega arith;
  small = omega arith;
})
