-- ===== src/Sid/Places.antt =====
-- Where each SID channel lies in the ACN order.
use libambix.Base.{
  ℕ, zero, suc, ◌+◌, ◌-◌, ◌*◌, ◌^◌, ◌≤◌, ◌<◌, ◌≡◌, ap, ◌∙◌, arith, ◌++◌, length, get_elem?,
  get_elem?-append, get_elem?-append_left, some, List, ℕ_discrete,
}
use libambix.Channels.{IsFloorSqrt}
use libambix.Channels.Laws.{root-lt, square_mono}
use libambix.Sid.{ascending, descending, order_entries, orders_from, sid2acn}
use libambix.Sid.Laws.{order_entries_lem, length-ascending, length-order_entries, sid2acn-exact}

get-ascending :
    (left index offset j : ℕ)
    → 2 * j < left
    → get_elem? (ascending left index offset) j ≡ some (index + 2 * j + offset)
unfolding ascending
get-ascending zero index offset j h = absurd (omega arith)
get-ascending (suc zero) index offset zero h = ground arith
get-ascending (suc zero) index offset (suc j) h = absurd (omega arith)
get-ascending (suc (suc left)) index offset zero h = ground arith
get-ascending (suc (suc left)) index offset (suc j) h =
    get-ascending left (index + 2) offset j (omega arith)
    ∙ ap some {x = index + 2 + 2 * j + offset} (omega arith)

get-descending :
    (index offset j : ℕ)
    → 2 * j ≤ index
    → get_elem? (descending index offset) j ≡ some (index - 2 * j + offset)
unfolding descending
get-descending zero offset zero h = ground arith
get-descending zero offset (suc j) h = absurd (omega arith)
get-descending (suc zero) offset zero h = ground arith
get-descending (suc zero) offset (suc j) h = absurd (omega arith)
get-descending (suc (suc index)) offset zero h = ground arith
get-descending (suc (suc index)) offset (suc j) h =
    get-descending index offset j (omega arith) ∙ ap some {x = index - 2 * j + offset} (omega arith)

-- The entries of order `o`, one after the other.
get-order_entries_up :
    (o j : ℕ) → o < 65535 → j < o → get_elem? (order_entries o) j ≡ some (o * o + 2 * j + 1)
get-order_entries_up o j h k = rw (order_entries_lem o h) (
    get_elem?-append_left (ascending (2 * o) 1 (o * o)) _ j
      (omega (arith, length-ascending (2 * o) 1 (o * o)))
    ∙ get-ascending (2 * o) 1 (o * o) j (omega arith)
    ∙ ap some {x = 1 + 2 * j + o * o} (omega arith))

get-order_entries_down :
    (o j : ℕ) → o < 65535 → j ≤ o → get_elem? (order_entries o) (o + j) ≡ some (o * o + 2 * (o - j))
get-order_entries_down o j h k = rw (order_entries_lem o h) (
    ap (get_elem? (ascending (2 * o) 1 (o * o) ++ descending (2 * o) (o * o))) {x = o + j}
      {y = length (ascending (2 * o) 1 (o * o)) + j}
      (omega (arith, length-ascending (2 * o) 1 (o * o)))
    ∙ get_elem?-append (ascending (2 * o) 1 (o * o)) (descending (2 * o) (o * o)) j
    ∙ get-descending (2 * o) (o * o) j (omega arith)
    ∙ ap some {x = 2 * o - 2 * j + o * o} (omega arith))

-- The block of order `o` begins `o * o` entries from the start.
get-orders_from :
    (left p o i j : ℕ)
    → p + left ≤ 65535
    → p ≤ o
    → o < p + left
    → j < 2 * o + 1
    → i + p * p ≡ o * o + j
    → get_elem? (orders_from left p) i ≡ get_elem? (order_entries o) j
unfolding orders_from
get-orders_from zero p o i j h lo hi k e = absurd (omega arith)
get-orders_from (suc left) p o i j h lo hi k e = elim (ℕ_discrete p o) [
  | yes same ↦
      ap (get_elem? (orders_from (suc left) p)) {x = i} {y = j}
        (omega (arith, ap (λ (t : ℕ). t * t) same))
      ∙ get_elem?-append_left (order_entries p) (orders_from left (p + 1)) j
          (omega (arith, length-order_entries p (omega arith)))
      ∙ ap (λ q. get_elem? (order_entries q) j) same
  | no ne ↦
      let below : (p + 1) * (p + 1) ≤ o * o = square_mono (p + 1) o (omega arith) in
      let i' : ℕ = i - (2 * p + 1) in
      ap (get_elem? (orders_from (suc left) p)) {x = i} {y = length (order_entries p) + i'}
        (omega (arith, length-order_entries p (omega arith)))
      ∙ get_elem?-append (order_entries p) (orders_from left (p + 1)) i'
      ∙ get-orders_from left (p + 1) o i' j (omega arith) (omega arith) (omega arith) k
          (omega arith)
]

module _ (sqrt : ℕ → ℕ) (floor : IsFloorSqrt sqrt) where
  -- In the ordering of a full set of order `n`, with `(n + 1) * (n + 1)` channels, at most 2 ^ 24, the
  -- block of each order `o` up to `n` begins at place `o * o`: its first `o` entries are the odd
  -- ACN offsets upwards, its last `o + 1` entries are the even ones downwards to `o * o`.
  pub sid2acn_places :
      (n o : ℕ)
      → (n + 1) * (n + 1) ≤ 2 ^ 24
      → o ≤ n
      → (ordering : List ℕ) × (sid2acn sqrt ((n + 1) * (n + 1)) ≡ some ordering)
        × ((j : ℕ) → j < o → get_elem? ordering (o * o + j) ≡ some (o * o + 2 * j + 1))
        × ((j : ℕ) → j ≤ o → get_elem? ordering (o * o + o + j) ≡ some (o * o + 2 * (o - j)))
  sid2acn_places n o h le =
      let small : n < 65535 = omega (arith, root-lt (n + 1) (omega (arith, h))) in
      (
        orders_from (n + 1) 0,
        sid2acn-exact sqrt floor n h,
        λ j k.
            get-orders_from (n + 1) 0 o (o * o + j) j (omega arith) (omega arith) (omega arith)
              (omega arith) (omega arith)
            ∙ get-order_entries_up o j (omega arith) k,
        λ j k.
            get-orders_from (n + 1) 0 o (o * o + o + j) (o + j) (omega arith) (omega arith)
              (omega arith) (omega arith) (omega arith)
            ∙ get-order_entries_down o j (omega arith) k,
      )
