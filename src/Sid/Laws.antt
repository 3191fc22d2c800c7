-- ===== src/Sid/Laws.antt =====
-- The ordering is a permutation of the channels.
use native.Mathlib.Nat.{zero-add}
use libambix.Base.{
  ℕ, zero, suc, ◌+◌, ◌-◌, ◌*◌, ◌/◌, ◌%◌, ◌^◌, ◌≤◌, ◌<◌, ◌≡◌, refl, ap, ap₂, [], ◌∷◌, map, ◌∙◌, ◌↔◌,
  ◌≢◌, arith, ◌++◌, ◌&&◌, ltb, leb, ◌==◌, if◌then◌else◌, length, length-append, count, count-append,
  some, none, true, List, inl, inr, ℤ-cases,
}
use libambix.Channels.{order2channels, IsFloorSqrt, channels2order}
use libambix.Channels.Laws.{order2channels_small, channels2order_iff, root-lt}
use libambix.Sid.{ascending, descending, order_entries, orders_from, float32_of, sid2acn}

-- 1 on the entries that the ascending loop writes: every second one from `index + offset`.
count-ascending :
    (a left index offset : ℕ)
    → count a (ascending left index offset) ≡ (
        if leb (index + offset) a
          && ltb a (index + offset + left)
          && ((a - (index + offset)) % 2 == 0)
        then 1
        else 0)
unfolding ascending
count-ascending a zero index offset = ground arith
count-ascending a (suc zero) index offset = ground arith
count-ascending a (suc (suc left)) index offset =
    ground (arith, count-ascending a left (index + 2) offset)

count-descending :
    (a index offset : ℕ)
    → count a (descending index offset)
      ≡ (if leb offset a && leb a (index + offset) && ((index + offset - a) % 2 == 0) then 1 else 0)
unfolding descending
count-descending a zero offset = ground arith
count-descending a (suc zero) offset = ground arith
count-descending a (suc (suc index)) offset = ground (arith, count-descending a index offset)

pub length-ascending :
    (left index offset : ℕ) → length (ascending left index offset) ≡ (left + 1) / 2
unfolding ascending
length-ascending zero index offset = refl
length-ascending (suc zero) index offset = refl
length-ascending (suc (suc left)) index offset =
    omega (arith, length-ascending left (index + 2) offset)

pub length-descending : (index offset : ℕ) → length (descending index offset) ≡ index / 2 + 1
unfolding descending
length-descending zero offset = refl
length-descending (suc zero) offset = refl
length-descending (suc (suc index)) offset = omega (arith, length-descending index offset)

-- The entries of order `o`, with the channel counts worked out.
pub order_entries_lem :
    (o : ℕ)
    → o < 65535
    → order_entries o ≡ ascending (2 * o) 1 (o * o) ++ descending (2 * o) (o * o)
unfolding order_entries
order_entries_lem zero h = unfold order2channels in refl
order_entries_lem (suc o) h = rw (positive, lower, upper, width) (ground arith)
  where
    positive : ltb 0 (suc o) ≡ true
    positive = ground arith

    lower : order2channels (suc o - 1) ≡ suc o * suc o
    lower =
        ap order2channels {x = suc o - 1} {y = o} (omega arith)
        ∙ order2channels_small o (omega arith)
        ∙ ap (λ t. t * t) {x = o + 1} {y = suc o} (omega arith)

    upper : order2channels (suc o) ≡ suc o * suc o + (2 * suc o + 1)
    upper = order2channels_small (suc o) h ∙ omega arith

    width : suc o * suc o + (2 * suc o + 1) - suc o * suc o ≡ suc (2 * suc o)
    width = omega arith

count-order_entries :
    (a o : ℕ)
    → o < 65535
    → count a (order_entries o) ≡ (if leb (o * o) a && ltb a ((o + 1) * (o + 1)) then 1 else 0)
count-order_entries a o h =
    rw
      (
        order_entries_lem o h,
        count-append,
        count-ascending a (2 * o) 1 (o * o),
        count-descending a (2 * o) (o * o),
      )
      (ground arith)

pub length-order_entries : (o : ℕ) → o < 65535 → length (order_entries o) ≡ 2 * o + 1
length-order_entries o h = rw (order_entries_lem o h) (
    omega (
      arith,
      length-append {0} (ascending (2 * o) 1 (o * o)) (descending (2 * o) (o * o)),
      length-ascending (2 * o) 1 (o * o),
      length-descending (2 * o) (o * o),
    ))

-- Two adjacent ranges of entries make one.
join_blocks :
    (a lo mid hi : ℕ)
    → lo ≤ mid
    → mid ≤ hi
    → (if leb lo a && ltb a mid then 1 else 0) + (if leb mid a && ltb a hi then 1 else 0)
      ≡ (if leb lo a && ltb a hi then 1 else 0)
join_blocks a lo mid hi h k = ground arith

count-orders_from :
    (a left o : ℕ)
    → o + left ≤ 65535
    → count a (orders_from left o)
      ≡ (if leb (o * o) a && ltb a ((o + left) * (o + left)) then 1 else 0)
unfolding orders_from
count-orders_from a zero o h = ground (arith, ap (λ t. t * t) {x = o + 0} {y = o} (omega arith))
count-orders_from a (suc left) o h =
    rw
      (
        count-append,
        count-order_entries a o (omega arith),
        count-orders_from a left (o + 1) (omega arith),
      )
      (rw (← ap (λ t. t * t) {x = o + suc left} {y = o + 1 + left} (omega arith)) (
        join_blocks a (o * o) ((o + 1) * (o + 1)) ((o + suc left) * (o + suc left)) (omega arith)
          (grind arith)))

length-orders_from :
    (left o : ℕ) → o + left ≤ 65535 → length (orders_from left o) + o * o ≡ (o + left) * (o + left)
unfolding orders_from
length-orders_from zero o h = omega arith
length-orders_from (suc left) o h = omega (
  arith,
  length-append {0} (order_entries o) (orders_from left (o + 1)),
  length-order_entries o (omega arith),
  length-orders_from left (o + 1) (omega arith),
)

from_start :
    (a m : ℕ)
    → ◌≡◌ {A = ℕ}
        (if leb (0 * 0) a && ltb a ((0 + m) * (0 + m)) then 1 else 0)
        (if ltb a (m * m) then 1 else 0)
from_start a m = rw zero-add (ground arith)

-- Numbers of 24 bits are float32_t values.
map-float32_of : (xs : List ℕ) → ((a : ℕ) → 0 < count a xs → a ≤ 2 ^ 24) → map float32_of xs ≡ xs
unfolding float32_of
map-float32_of [] small = refl
map-float32_of (x ∷ xs) small =
    ap₂ ◌∷◌ (ground (arith, small x (ground arith)))
      (map-float32_of xs (λ a there. small a (ground (arith, there))))

module _ (sqrt : ℕ → ℕ) (floor : IsFloorSqrt sqrt) where
  pub sid2acn-square :
      (n : ℕ)
      → (n + 1) * (n + 1) < 2 ^ 32
      → sid2acn sqrt ((n + 1) * (n + 1)) ≡ some (map float32_of (orders_from (n + 1) 0))
  unfolding sid2acn
  sid2acn-square n h = rw ((channels2order_iff sqrt floor ((n + 1) * (n + 1)) n h).1 refl, sid2acn)

  -- Up to 2 ^ 24 channels no entry is rounded.
  pub sid2acn-exact :
      (n : ℕ)
      → (n + 1) * (n + 1) ≤ 2 ^ 24
      → sid2acn sqrt ((n + 1) * (n + 1)) ≡ some (orders_from (n + 1) 0)
  sid2acn-exact n h =
      sid2acn-square n (omega (arith, h))
      ∙ ap some (
          map-float32_of (orders_from (n + 1) 0) (λ a there. ground (
            arith,
            there,
            h,
            count-orders_from a (n + 1) 0 (omega (arith, root-lt (n + 1) (omega (arith, h)))),
            from_start a (n + 1),
          )))

  -- For a full set of `(n + 1) * (n + 1)` channels, at most 2 ^ 24, the ordering is written, it has an
  -- entry for each channel, and each number below the channel count stands in it exactly once and
  -- no other number at all.
  pub sid2acn_permutes :
      (n : ℕ)
      → (n + 1) * (n + 1) ≤ 2 ^ 24
      → (ordering : List ℕ) × (sid2acn sqrt ((n + 1) * (n + 1)) ≡ some ordering)
        × (length ordering ≡ (n + 1) * (n + 1))
        × ((a : ℕ) → count a ordering ≡ (if ltb a ((n + 1) * (n + 1)) then 1 else 0))
  sid2acn_permutes n h =
      let small : 0 + (n + 1) ≤ 65535 = omega (arith, root-lt (n + 1) (omega (arith, h))) in
      (
        orders_from (n + 1) 0,
        sid2acn-exact n h,
        omega (arith, length-orders_from (n + 1) 0 small),
        λ a. count-orders_from a (n + 1) 0 small ∙ from_start a (n + 1),
      )

  -- Below 2 ^ 32 the function fails exactly on the counts that are no square, and on 0.
  pub sid2acn-none_iff :
      (c : ℕ) → c < 2 ^ 32 → (sid2acn sqrt c ≡ none) ↔ ((n : ℕ) → (n + 1) * (n + 1) ≢ c)
  unfolding sid2acn
  sid2acn-none_iff c h = (to, from)
    where
      to : sid2acn sqrt c ≡ none → (n : ℕ) → (n + 1) * (n + 1) ≢ c
      to e n square = cc (rw (← square) at e, sid2acn-square n (rw square h))

      from : ((n : ℕ) → (n + 1) * (n + 1) ≢ c) → sid2acn sqrt c ≡ none
      from never = elim (ℤ-cases (channels2order sqrt c)) [
        | inl (n, e) ↦ absurd (never n ((channels2order_iff sqrt floor c n h).0 e))
        | inr (n, e) ↦ rw (e, sid2acn)
      ]
