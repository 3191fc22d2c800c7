-- ===== src/Sid/Tests.antt =====
-- The SID ordering at concrete channel counts.
use libambix.Base.{
  ℕ, ◌+◌, ◌*◌, ◌-◌, ◌≤◌, ◌^◌, ◌<◌, ◌≡◌, refl, arith, List, [], ◌∷◌, some, none, length, get_elem?,
  count, ltb, if◌then◌else◌,
}
use libambix.Channels.Tests.{floor_sqrt, floor_sqrt-IsFloorSqrt}
use libambix.Sid.{sid2acn, float32_of, spacing}
use libambix.Sid.Laws.{sid2acn_permutes}
use libambix.Sid.Places.{sid2acn_places}

second_order : sid2acn floor_sqrt 9 ≡ some (0 ∷ 2 ∷ 3 ∷ 1 ∷ 5 ∷ 7 ∷ 8 ∷ 6 ∷ 4 ∷ [])
unfolding sid2acn floor_sqrt float32_of
second_order = refl

no_full_set : sid2acn floor_sqrt 7 ≡ none
unfolding sid2acn floor_sqrt
no_full_set = refl

rounded :
    (float32_of (2 ^ 24 + 1) ≡ 2 ^ 24)
    × (float32_of (2 ^ 24 + 3) ≡ 2 ^ 24 + 4)
    × (float32_of (2 ^ 32 - 1) ≡ 2 ^ 32)
unfolding float32_of spacing
rounded = (refl, refl, refl)

sid2acn_permutes_example :
    (ordering : List ℕ) × (sid2acn floor_sqrt 9 ≡ some ordering)
    × (length ordering ≡ 9)
    × ((a : ℕ) → count a ordering ≡ (if ltb a 9 then 1 else 0))
sid2acn_permutes_example = sid2acn_permutes floor_sqrt floor_sqrt-IsFloorSqrt 2 (omega arith)

sid2acn_places_example :
    (ordering : List ℕ) × (sid2acn floor_sqrt 9 ≡ some ordering)
    × ((j : ℕ) → j < 2 → get_elem? ordering (4 + j) ≡ some (4 + 2 * j + 1))
    × ((j : ℕ) → j ≤ 2 → get_elem? ordering (6 + j) ≡ some (4 + 2 * (2 - j)))
sid2acn_places_example =
    sid2acn_places floor_sqrt floor_sqrt-IsFloorSqrt 2 2 (omega arith) (omega arith)
