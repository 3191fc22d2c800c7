-- ===== src/Words/Swap.antt =====
-- `swap4` and `swap8` reverse the bytes of a word.
use Prim.Native.Nat.{bit_and, bit_or}
use libambix.Base.{ℕ, ◌+◌, ◌*◌, ◌/◌, ◌%◌, ◌^◌, ◌<◌, ◌≡◌, refl, ap, ◌∙◌, arith}
use libambix.Words.{swap4}
use libambix.Words.Bits.{bit_and_byte, bit_and_field, bit_or_add}

-- Byte `k` of a word, counted from the low end.
abbrev pub byte : ℕ → ℕ → ℕ
byte k n = n / 2 ^ (8 * k) % 256

pub field_byte : (k n : ℕ) → bit_and n (0xff * 2 ^ k) ≡ n / 2 ^ k % 256 * 2 ^ k
field_byte k n = bit_and_field k n 0xff ∙ ap (λ t. t * 2 ^ k) (bit_and_byte (n / 2 ^ k))

or4 :
    (b0 b1 b2 b3 : ℕ)
    → b1 < 256
    → b2 < 256
    → b3 < 256
    → bit_or (bit_or (bit_or (b0 * 2 ^ 24) (b1 * 2 ^ 16)) (b2 * 2 ^ 8)) b3
      ≡ b0 * 2 ^ 24 + b1 * 2 ^ 16 + b2 * 2 ^ 8 + b3
or4 b0 b1 b2 b3 h1 h2 h3 = rw (bit_or_add 24 b0 (b0 * 2 ^ 24) (b1 * 2 ^ 16) refl (omega arith)) (
    rw
      (bit_or_add 16 (b0 * 256 + b1) (b0 * 2 ^ 24 + b1 * 2 ^ 16) (b2 * 2 ^ 8) (omega arith)
        (omega arith))
      (bit_or_add 8 (b0 * 2 ^ 16 + b1 * 256 + b2) (b0 * 2 ^ 24 + b1 * 2 ^ 16 + b2 * 2 ^ 8) b3
        (omega arith) (omega arith)))

-- `swap4` as a sum: byte k moves to place 3 - k.
pub swap4_sum :
    (n : ℕ) → swap4 n ≡ byte 0 n * 2 ^ 24 + byte 1 n * 2 ^ 16 + byte 2 n * 2 ^ 8 + byte 3 n
unfolding swap4
swap4_sum n =
    rw (x0, x1, x2, x3)
      (or4 (n % 256) (n / 2 ^ 8 % 256) (n / 2 ^ 16 % 256) (n / 2 ^ 24 % 256) (omega arith)
          (omega arith) (omega arith)
        ∙ omega arith)
  where
    x0 : bit_and n 0xff * 2 ^ 24 % 2 ^ 32 ≡ n % 256 * 2 ^ 24
    x0 = omega (arith, bit_and_byte n)

    x1 : bit_and n 0xff00 * 2 ^ 8 % 2 ^ 32 ≡ n / 2 ^ 8 % 256 * 2 ^ 16
    x1 = omega (arith, field_byte 8 n)

    x2 : bit_and n 0xff0000 / 2 ^ 8 ≡ n / 2 ^ 16 % 256 * 2 ^ 8
    x2 = omega (arith, field_byte 16 n)

    x3 : bit_and n 0xff000000 / 2 ^ 24 ≡ n / 2 ^ 24 % 256
    x3 = omega (arith, field_byte 24 n)

pub swap4-lt : (n : ℕ) → swap4 n < 2 ^ 32
swap4-lt n = omega (arith, swap4_sum n)

-- Swapping a word below 2 ^ 32 twice gives it back.
pub swap4-swap4 : (n : ℕ) → n < 2 ^ 32 → swap4 (swap4 n) ≡ n
swap4-swap4 n h = omega (arith, swap4_sum n, swap4_sum (swap4 n))
