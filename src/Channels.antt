-- ===== src/Channels.antt =====
-- Orders and channel counts: `ambix_order2channels`, `ambix_channels2order` and
-- `ambix_is_fullset` of libambix/src/utils.c.
pub mod Laws
pub mod Tests
use libambix.Base.{
  ℕ, zero, suc, ◌+◌, ◌*◌, ◌%◌, ◌^◌, ◌≤◌, ◌<◌, ◌≡◌, Bool, ltb, ◌==◌, if◌then◌else◌, ℤ, pos, negsuc,
  before, to_u32,
}
use libambix.Words.{u32}

-- `(order+1)*(order+1)` in uint32_t.
unfoldable pub order2channels : ℕ → ℕ
order2channels order = u32 (u32 (order + 1) * u32 (order + 1))

-- What the code relies on in the C library: a count below 2 ^ 32 is exact as a double, and the
-- correctly rounded square root of it, cut to an integer, is the root rounded down.
pub record IsFloorSqrt (sqrt : ℕ → ℕ) : Type 0 where
  pub below : (c : ℕ) → c < 2 ^ 32 → sqrt c * sqrt c ≤ c
  pub above : (c : ℕ) → c < 2 ^ 32 → c < (sqrt c + 1) * (sqrt c + 1)

-- The product is that of two int32_t: counts from 2 ^ 31 on may overflow it, which C leaves undefined. The wrap
-- stands for nothing there; below, nothing wraps. `sqrt` stands for `(int32_t)sqrt((double)channels)`.
module _ (sqrt : ℕ → ℕ) where
  unfoldable pub channels2order : ℕ → ℤ
  channels2order channels =
      let order1 = sqrt channels in
      if u32 (order1 * order1) == channels then before order1 else negsuc 0

  unfoldable pub is_fullset : ℕ → Bool
  unfolding channels2order order2channels
  is_fullset channels = order2channels (to_u32 (channels2order channels)) == channels
