-- ===== src/Words/Bytes.antt =====
-- Words in memory: `memcpy` from and to a `uint32_t` on a host that stores the low byte first.
use libambix.Base.{
  ℕ, ◌+◌, ◌*◌, ◌/◌, ◌%◌, ◌^◌, ◌<◌, ◌≡◌, refl, ap, ap₂, arith, List, [], ◌∷◌, ◌++◌, All, length,
  Outcome, done, fault,
}
use libambix.Words.{swap4}
use libambix.Words.Swap.{swap4_sum}

unfoldable pub store4 : ℕ → List ℕ
store4 n = (n % 256) ∷ (n / 2 ^ 8 % 256) ∷ (n / 2 ^ 16 % 256) ∷ (n / 2 ^ 24 % 256) ∷ []

-- The four bytes at a pointer, and what follows them.
unfoldable pub load4 : List ℕ → Outcome (ℕ × List ℕ)
load4 (a ∷ b ∷ c ∷ e ∷ rest) = done (a + b * 2 ^ 8 + c * 2 ^ 16 + e * 2 ^ 24, rest)
load4 _ = fault

-- An array of words, as bytes and back.
unfoldable pub store_words : List ℕ → List ℕ
store_words [] = []
store_words (w ∷ ws) = store4 w ++ store_words ws

-- The words that fit the bytes.
unfoldable pub load_words : List ℕ → List ℕ
load_words (a ∷ b ∷ c ∷ e ∷ rest) = (a + b * 2 ^ 8 + c * 2 ^ 16 + e * 2 ^ 24) ∷ load_words rest
load_words _ = []

pub load4-store4 : (n : ℕ) (rest : List ℕ) → n < 2 ^ 32 → load4 (store4 n ++ rest) ≡ done (n, rest)
unfolding load4 store4
load4-store4 n rest h = ap (λ m. done (m, rest)) (omega arith)

pub load_words-store_words :
    (ws : List ℕ) → All (λ w. w < 2 ^ 32) ws → load_words (store_words ws) ≡ ws
unfolding load_words store_words store4
load_words-store_words [] h = refl
load_words-store_words (w ∷ ws) h = ap₂ ◌∷◌ (omega (arith, h.0)) (load_words-store_words ws h.1)

pub length-store_words : (ws : List ℕ) → length (store_words ws) ≡ 4 * length ws
unfolding store_words store4
length-store_words [] = refl
length-store_words (w ∷ ws) = omega (arith, length-store_words ws)

-- A word below 2 ^ 32, once swapped, is stored on a little-endian host with its high byte first.
pub store4-swap4 :
    (n : ℕ)
    → n < 2 ^ 32
    → store4 (swap4 n) ≡ (n / 2 ^ 24) ∷ (n / 2 ^ 16 % 256) ∷ (n / 2 ^ 8 % 256) ∷ (n % 256) ∷ []
unfolding store4
store4-swap4 n h = ground (arith, swap4_sum n)
