-- ===== src/Words/Bits.antt =====
-- Masks and disjoint fields as arithmetic, at every shift.
use Prim.Native.Nat.{min, max, digits, bitwise, bit_and, bit_or, bit_and-bitwise, bit_or-bitwise}
use native.Mathlib.Nat.{pow-suc, div-div-eq-div-mul}
use libambix.Base.{ℕ, zero, suc, ◌+◌, ◌*◌, ◌/◌, ◌%◌, ◌^◌, ◌≤◌, ◌<◌, ◌≡◌, refl, ap, sym, ◌∙◌, arith}

-- The native operations stand for a recursion on digits with fuel: any fuel that is enough gives
-- the same digits.
digits_enough :
    (a b : ℕ) (low : ℕ → ℕ) (bit : ℕ → ℕ → ℕ) (n m : ℕ)
    → a ≤ n
    → a ≤ m
    → digits low bit n a b ≡ digits low bit m a b
digits_enough zero b low bit zero zero p q = refl
digits_enough zero b low bit zero (suc m) p q = refl
digits_enough zero b low bit (suc n) zero p q = refl
digits_enough zero b low bit (suc n) (suc m) p q = refl
digits_enough (suc a) b low bit zero m p q = absurd (omega arith)
digits_enough (suc a) b low bit (suc n) zero p q = absurd (omega arith)
digits_enough (suc a) b low bit (suc n) (suc m) p q =
    rw (digits_enough (suc a / 2) (b / 2) low bit n m (omega arith) (omega arith))

bitwise_digit :
    (z : ℕ → ℕ) (f : ℕ → ℕ → ℕ) (a b : ℕ)
    → bitwise z f (suc a) b ≡ bitwise z f (suc a / 2) (b / 2) * 2 + f (suc a % 2) (b % 2)
bitwise_digit z f a b =
    omega (arith, digits_enough (suc a / 2) (b / 2) z f a (suc a / 2) (omega arith) (omega arith))

-- One binary digit of `&` and of `|`.
bit_and_digit : (a b : ℕ) → bit_and a b ≡ bit_and (a / 2) (b / 2) * 2 + min (a % 2) (b % 2)
bit_and_digit zero b = simp bit_and-bitwise (omega arith)
bit_and_digit (suc a) b = simp bit_and-bitwise (bitwise_digit (λ y. 0) min a b)

bit_or_digit : (a b : ℕ) → bit_or a b ≡ bit_or (a / 2) (b / 2) * 2 + max (a % 2) (b % 2)
bit_or_digit zero b = simp bit_or-bitwise (omega arith)
bit_or_digit (suc a) b = simp bit_or-bitwise (bitwise_digit (λ y. y) max a b)

zero-bit_or : (b : ℕ) → bit_or 0 b ≡ b
zero-bit_or b = simp bit_or-bitwise (omega arith)

-- `n & 0xff` is the low byte.
bit_and_zero_fuel : (fuel n : ℕ) → n ≤ fuel → bit_and n 0 ≡ 0
bit_and_zero_fuel fuel zero h = simp bit_and-bitwise (omega arith)
bit_and_zero_fuel zero (suc n) h = absurd (omega arith)
bit_and_zero_fuel (suc fuel) (suc n) h =
    omega (arith, bit_and_digit (suc n) 0, bit_and_zero_fuel fuel (suc n / 2) (omega arith))

bit_and-zero : (n : ℕ) → bit_and n 0 ≡ 0
bit_and-zero n = bit_and_zero_fuel n n (omega arith)

bit_and_nibble : (n : ℕ) → bit_and n 15 ≡ n % 16
bit_and_nibble n = omega (
  arith,
  bit_and_digit n 15,
  bit_and_digit (n / 2) 7,
  bit_and_digit (n / 2 / 2) 3,
  bit_and_digit (n / 2 / 2 / 2) 1,
  bit_and-zero (n / 2 / 2 / 2 / 2),
)

pub bit_and_byte : (n : ℕ) → bit_and n 0xff ≡ n % 256
bit_and_byte n = omega (
  arith,
  bit_and_digit n 255,
  bit_and_digit (n / 2) 127,
  bit_and_digit (n / 2 / 2) 63,
  bit_and_digit (n / 2 / 2 / 2) 31,
  bit_and_nibble (n / 2 / 2 / 2 / 2),
)

mul-pow_suc : (m k : ℕ) → m * 2 ^ suc k ≡ 2 * (m * 2 ^ k)
mul-pow_suc m k = omega (arith, ap (λ (t : ℕ). m * t) (pow-suc 2 k))

half-pow : (n k : ℕ) → n / 2 ^ suc k ≡ n / 2 / 2 ^ k
half-pow n k =
    ap (◌/◌ n) {x = 2 ^ suc k} {y = 2 * 2 ^ k} (omega (arith, pow-suc 2 k))
    ∙ sym (div-div-eq-div-mul n 2 (2 ^ k))

-- A mask shifted by `k` reads the field at `k`.
pub bit_and_field : (k n m : ℕ) → bit_and n (m * 2 ^ k) ≡ bit_and (n / 2 ^ k) m * 2 ^ k
bit_and_field zero n m = ground (
  arith,
  ap (bit_and n) {x = m * 1} {y = m} (omega arith),
  ap (λ t. bit_and t m) {x = n / 1} {y = n} (omega arith),
)
bit_and_field (suc k) n m = omega (
  arith,
  bit_and_digit n (m * 2 ^ suc k),
  mul-pow_suc m k,
  ap (bit_and (n / 2)) {x = m * 2 ^ suc k / 2} {y = m * 2 ^ k} (omega (arith, mul-pow_suc m k)),
  bit_and_field k (n / 2) m,
  ap (λ (t : ℕ). bit_and t m * 2 ^ suc k) (half-pow n k),
  mul-pow_suc (bit_and (n / 2 / 2 ^ k) m) k,
)

or_zero_fuel : (fuel n : ℕ) → n ≤ fuel → bit_or n 0 ≡ n
or_zero_fuel fuel zero h = zero-bit_or 0
or_zero_fuel zero (suc n) h = absurd (omega arith)
or_zero_fuel (suc fuel) (suc n) h =
    omega (arith, bit_or_digit (suc n) 0, or_zero_fuel fuel (suc n / 2) (omega arith))

bit_or-zero : (n : ℕ) → bit_or n 0 ≡ n
bit_or-zero n = or_zero_fuel n n (omega arith)

-- Disjoint fields join to a sum, from either side.
pub bit_or_high : (k q r : ℕ) → r < 2 ^ k → bit_or (q * 2 ^ k) r ≡ q * 2 ^ k + r
bit_or_high zero q r h =
    ap (bit_or (q * 1)) {x = r} {y = 0} (omega arith) ∙ bit_or-zero (q * 1) ∙ omega arith
bit_or_high (suc k) q r h = ground (
  arith,
  bit_or_digit (q * 2 ^ suc k) r,
  mul-pow_suc q k,
  pow-suc 2 k,
  bit_or_high k q (r / 2) (omega (arith, pow-suc 2 k)),
)

pub bit_or_low : (k q r : ℕ) → r < 2 ^ k → bit_or r (q * 2 ^ k) ≡ r + q * 2 ^ k
bit_or_low zero q r h =
    ap (λ t. bit_or t (q * 1)) {x = r} {y = 0} (omega arith) ∙ zero-bit_or (q * 1) ∙ omega arith
bit_or_low (suc k) q r h = ground (
  arith,
  bit_or_digit r (q * 2 ^ suc k),
  mul-pow_suc q k,
  pow-suc 2 k,
  bit_or_low k q (r / 2) (omega (arith, pow-suc 2 k)),
)

-- The same for a sum of fields whose lowest lies at `k`.
pub bit_or_add : (k q a b : ℕ) → a ≡ q * 2 ^ k → b < 2 ^ k → bit_or a b ≡ a + b
bit_or_add k q a b e h = ap (λ t. bit_or t b) e ∙ bit_or_high k q b h ∙ ap (λ t. t + b) (sym e)

pub add_bit_or : (k q a b : ℕ) → b ≡ q * 2 ^ k → a < 2 ^ k → bit_or a b ≡ a + b
add_bit_or k q a b e h = ap (bit_or a) e ∙ bit_or_low k q a h ∙ ap (◌+◌ a) (sym e)
