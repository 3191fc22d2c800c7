-- ===== src/Channels/Tests.antt =====
-- A square root that meets the hypothesis, and the laws at concrete counts.
use libambix.Base.{
  ℕ, zero, suc, ◌+◌, ◌*◌, ◌≤◌, ◌<◌, ◌≡◌, refl, ◌↔◌, true, false, arith, leb, if◌then◌else◌, pos,
  negsuc,
}
use libambix.Channels.{order2channels, IsFloorSqrt, channels2order, is_fullset}
use libambix.Channels.Laws.{is_fullset_iff}

-- The root rounded down, counted upwards.
unfoldable pub floor_sqrt : ℕ → ℕ
floor_sqrt zero = 0
floor_sqrt (suc n) = let r = floor_sqrt n in if leb ((r + 1) * (r + 1)) (suc n) then r + 1 else r

floor_sqrt_bounds :
    (c : ℕ) → (floor_sqrt c * floor_sqrt c ≤ c) × (c < (floor_sqrt c + 1) * (floor_sqrt c + 1))
unfolding floor_sqrt
floor_sqrt_bounds zero = omega arith
floor_sqrt_bounds (suc c) = ground (arith, floor_sqrt_bounds c)

pub floor_sqrt-IsFloorSqrt : IsFloorSqrt floor_sqrt
floor_sqrt-IsFloorSqrt = record {
  below = λ c h. (floor_sqrt_bounds c).0;
  above = λ c h. (floor_sqrt_bounds c).1;
}

orders :
    (channels2order floor_sqrt 16 ≡ pos 3)
    × (channels2order floor_sqrt 7 ≡ negsuc 0)
    × (channels2order floor_sqrt 0 ≡ negsuc 0)
    × (order2channels 3 ≡ 16)
unfolding channels2order order2channels floor_sqrt
orders = (refl, refl, refl, refl)

fullsets :
    (is_fullset floor_sqrt 9 ≡ true)
    × (is_fullset floor_sqrt 7 ≡ false)
    × (is_fullset floor_sqrt 0 ≡ true)
unfolding is_fullset floor_sqrt
fullsets = (refl, refl, refl)

is_fullset_iff_example : (is_fullset floor_sqrt 12 ≡ true) ↔ ((k : ℕ) × (k * k ≡ 12))
is_fullset_iff_example = is_fullset_iff floor_sqrt floor_sqrt-IsFloorSqrt 12 (omega arith)
