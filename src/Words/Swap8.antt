-- ===== src/Words/Swap8.antt =====
-- `swap8` reverses the eight bytes of a word; the arrays of words that the library swaps.
use Prim.Native.Nat.{bit_and, bit_or}
use libambix.Base.{ℕ, ◌+◌, ◌*◌, ◌/◌, ◌%◌, ◌^◌, ◌<◌, ◌≡◌, refl, ap₂, ◌∙◌, arith, List, [], ◌∷◌, All}
use libambix.Words.{swap8, swap4array, swap8array}
use libambix.Words.Bits.{bit_and_byte, add_bit_or}
use libambix.Words.Swap.{byte, field_byte, swap4-swap4}

or8 :
    (c0 c1 c2 c3 c4 c5 c6 c7 : ℕ)
    → c0 < 256
    → c1 < 256
    → c2 < 256
    → c3 < 256
    → c4 < 256
    → c5 < 256
    → c6 < 256
    → bit_or
        (bit_or
          (bit_or
            (bit_or
              (bit_or (bit_or (bit_or c0 (c1 * 2 ^ 8)) (c2 * 2 ^ 16)) (c3 * 2 ^ 24))
              (c4 * 2 ^ 32))
            (c5 * 2 ^ 40))
          (c6 * 2 ^ 48))
        (c7 * 2 ^ 56)
      ≡ c0
        + c1 * 2 ^ 8
        + c2 * 2 ^ 16
        + c3 * 2 ^ 24
        + c4 * 2 ^ 32
        + c5 * 2 ^ 40
        + c6 * 2 ^ 48
        + c7 * 2 ^ 56
or8 c0 c1 c2 c3 c4 c5 c6 c7 h0 h1 h2 h3 h4 h5 h6 =
    let s1 = c0 + c1 * 2 ^ 8 in
    let s2 = s1 + c2 * 2 ^ 16 in
    let s3 = s2 + c3 * 2 ^ 24 in
    let s4 = s3 + c4 * 2 ^ 32 in
    let s5 = s4 + c5 * 2 ^ 40 in
    let s6 = s5 + c6 * 2 ^ 48 in
    rw (add_bit_or 8 c1 c0 (c1 * 2 ^ 8) refl (omega arith)) (
      rw (add_bit_or 16 c2 s1 (c2 * 2 ^ 16) refl (omega arith)) (
        rw (add_bit_or 24 c3 s2 (c3 * 2 ^ 24) refl (omega arith)) (
          rw (add_bit_or 32 c4 s3 (c4 * 2 ^ 32) refl (omega arith)) (
            rw (add_bit_or 40 c5 s4 (c5 * 2 ^ 40) refl (omega arith)) (
              rw (add_bit_or 48 c6 s5 (c6 * 2 ^ 48) refl (omega arith))
                (add_bit_or 56 c7 s6 (c7 * 2 ^ 56) refl (omega arith)))))))

-- `swap8` as a sum: byte k moves to place 7 - k.
pub swap8_sum :
    (n : ℕ)
    → swap8 n
      ≡ byte 7 n
        + byte 6 n * 2 ^ 8
        + byte 5 n * 2 ^ 16
        + byte 4 n * 2 ^ 24
        + byte 3 n * 2 ^ 32
        + byte 2 n * 2 ^ 40
        + byte 1 n * 2 ^ 48
        + byte 0 n * 2 ^ 56
unfolding swap8
swap8_sum n =
    rw (x7, x6, x5, x4, x3, x2, x1, x0)
      (or8 (n / 2 ^ 56 % 256) (n / 2 ^ 48 % 256) (n / 2 ^ 40 % 256) (n / 2 ^ 32 % 256)
          (n / 2 ^ 24 % 256) (n / 2 ^ 16 % 256) (n / 2 ^ 8 % 256) (n % 256) (omega arith)
          (omega arith) (omega arith) (omega arith) (omega arith) (omega arith) (omega arith)
        ∙ omega arith)
  where
    x7 : bit_and n 0xff00000000000000 / 2 ^ 56 ≡ n / 2 ^ 56 % 256
    x7 = omega (arith, field_byte 56 n)

    x6 : bit_and n 0x00ff000000000000 / 2 ^ 40 ≡ n / 2 ^ 48 % 256 * 2 ^ 8
    x6 = omega (arith, field_byte 48 n)

    x5 : bit_and n 0x0000ff0000000000 / 2 ^ 24 ≡ n / 2 ^ 40 % 256 * 2 ^ 16
    x5 = omega (arith, field_byte 40 n)

    x4 : bit_and n 0x000000ff00000000 / 2 ^ 8 ≡ n / 2 ^ 32 % 256 * 2 ^ 24
    x4 = omega (arith, field_byte 32 n)

    x3 : bit_and n 0x00000000ff000000 * 2 ^ 8 % 2 ^ 64 ≡ n / 2 ^ 24 % 256 * 2 ^ 32
    x3 = omega (arith, field_byte 24 n)

    x2 : bit_and n 0x0000000000ff0000 * 2 ^ 24 % 2 ^ 64 ≡ n / 2 ^ 16 % 256 * 2 ^ 40
    x2 = omega (arith, field_byte 16 n)

    x1 : bit_and n 0x000000000000ff00 * 2 ^ 40 % 2 ^ 64 ≡ n / 2 ^ 8 % 256 * 2 ^ 48
    x1 = omega (arith, field_byte 8 n)

    x0 : bit_and n 0x00000000000000ff * 2 ^ 56 % 2 ^ 64 ≡ n % 256 * 2 ^ 56
    x0 = omega (arith, bit_and_byte n)

-- Swapping a word below 2 ^ 64 twice gives it back.
pub swap8-swap8 : (n : ℕ) → n < 2 ^ 64 → swap8 (swap8 n) ≡ n
swap8-swap8 n h = omega (arith, swap8_sum n, swap8_sum (swap8 n))

-- Swapping each word of an array twice gives the array back, if all are below 2 ^ 32.
pub swap4array-swap4array :
    (ws : List ℕ) → All (λ w. w < 2 ^ 32) ws → swap4array (swap4array ws) ≡ ws
unfolding swap4array
swap4array-swap4array [] h = refl
swap4array-swap4array (w ∷ ws) h = ap₂ ◌∷◌ (swap4-swap4 w h.0) (swap4array-swap4array ws h.1)

-- The same of words below 2 ^ 64.
pub swap8array-swap8array :
    (ws : List ℕ) → All (λ w. w < 2 ^ 64) ws → swap8array (swap8array ws) ≡ ws
unfolding swap8array
swap8array-swap8array [] h = refl
swap8array-swap8array (w ∷ ws) h = ap₂ ◌∷◌ (swap8-swap8 w h.0) (swap8array-swap8array ws h.1)
