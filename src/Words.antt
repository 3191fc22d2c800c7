-- ===== src/Words.antt =====
-- The byte order helpers: `swap4` and `swap8` of libambix/src/private.h, and
-- `_ambix_swap4array` and `_ambix_swap8array` of libambix/src/utils.c.
-- A machine word is a number below 2 ^ 32 or 2 ^ 64; a left shift in its type wraps.
pub mod Bits
pub mod Swap
pub mod Swap8
pub mod Bytes
pub mod Tests
use Prim.Native.Nat.{bit_and, bit_or}
use libambix.Base.{ℕ, ◌*◌, ◌/◌, ◌%◌, ◌^◌, List, map}

abbrev pub u32 : ℕ → ℕ
u32 n = n % 2 ^ 32

abbrev pub u64 : ℕ → ℕ
u64 n = n % 2 ^ 64

unfoldable pub swap4 : ℕ → ℕ
swap4 n =
    bit_or
      (bit_or (bit_or (u32 (bit_and n 0xff * 2 ^ 24)) (u32 (bit_and n 0xff00 * 2 ^ 8)))
        (bit_and n 0xff0000 / 2 ^ 8))
      (bit_and n 0xff000000 / 2 ^ 24)

infixl 40 ◌∣∣◌
abbrev ◌∣∣◌ : ℕ → ℕ → ℕ
a ∣∣ b = bit_or a b

unfoldable pub swap8 : ℕ → ℕ
swap8 n =
    bit_and n 0xff00000000000000 / 2 ^ 56
    ∣∣ bit_and n 0x00ff000000000000 / 2 ^ 40
    ∣∣ bit_and n 0x0000ff0000000000 / 2 ^ 24
    ∣∣ bit_and n 0x000000ff00000000 / 2 ^ 8
    ∣∣ u64 (bit_and n 0x00000000ff000000 * 2 ^ 8)
    ∣∣ u64 (bit_and n 0x0000000000ff0000 * 2 ^ 24)
    ∣∣ u64 (bit_and n 0x000000000000ff00 * 2 ^ 40)
    ∣∣ u64 (bit_and n 0x00000000000000ff * 2 ^ 56)

-- The loops replace each word of the array by its swap, in place.
unfoldable pub swap4array : List ℕ → List ℕ
swap4array data_words = map swap4 data_words

unfoldable pub swap8array : List ℕ → List ℕ
swap8array data_words = map swap8 data_words
