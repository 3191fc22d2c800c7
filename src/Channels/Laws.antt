-- ===== src/Channels/Laws.antt =====
-- Orders and channel counts are inverse on the full sets.
use libambix.Base.{
  ℕ, zero, suc, ◌+◌, ◌*◌, ◌%◌, ◌^◌, ◌≤◌, ◌<◌, ◌≡◌, refl, ap, sym, ◌∙◌, ◌↔◌, true, arith, ◌==◌,
  ==_iff, ==_self, pos, negsuc, before, to_u32, inl, inr, dec_lt, ◌⊎◌, ◌≢◌, ℕ_discrete,
}
use libambix.Channels.{order2channels, IsFloorSqrt, channels2order, is_fullset}

pub square_mono : (a b : ℕ) → a ≤ b → a * a ≤ b * b
square_mono a b h = grind arith

-- The root rounded down is determined by its two bounds.
square_between : (a b : ℕ) → a * a ≤ b * b → b * b < (a + 1) * (a + 1) → a ≡ b
square_between a b p q = elim (dec_lt a b) [
  | yes lt ↦ absurd (omega (arith, square_mono (a + 1) b (omega arith)))
  | no ge ↦ elim (dec_lt b a) [
    | yes gt ↦ absurd (omega (arith, square_mono (b + 1) a (omega arith)))
    | no le ↦ omega arith
  ]
]

pub order2channels_small : (n : ℕ) → n < 65535 → order2channels n ≡ (n + 1) * (n + 1)
unfolding order2channels
order2channels_small n h =
    ap (λ t. t * t % 2 ^ 32) {x = (n + 1) % 2 ^ 32} {y = n + 1} (omega arith)
    ∙ omega (arith, square_mono (n + 1) 65535 (omega arith))

-- A square below 2 ^ 32 has a root of 16 bits.
pub root-lt : (k : ℕ) → k * k < 2 ^ 32 → k < 65536
root-lt k h = elim (dec_lt k 65536) [
  | yes lt ↦ lt
  | no ge ↦ absurd (omega (arith, square_mono 65536 k (omega arith)))
]

before-pos : (r n : ℕ) → before r ≡ pos n → r ≡ n + 1
before-pos zero n h = cc
before-pos (suc r) n h = ground arith

module _ (sqrt : ℕ → ℕ) (floor : IsFloorSqrt sqrt) where
  sqrt_square : (k : ℕ) → k * k < 2 ^ 32 → sqrt (k * k) ≡ k
  sqrt_square k h = square_between (sqrt (k * k)) k (floor.below (k * k) h) (floor.above (k * k) h)

  -- The two results of `channels2order`, by whether the count is the square of the root.
  channels2order_square : (k : ℕ) → k * k < 2 ^ 32 → channels2order sqrt (k * k) ≡ before k
  unfolding channels2order
  channels2order_square k h = rw (sqrt_square k h) (ground (arith, ==_self (k * k)))

  -- Either the count is the square of its root, or it has no order.
  root_cases :
      (c : ℕ)
      → c < 2 ^ 32
      → (sqrt c * sqrt c ≡ c) × (channels2order sqrt c ≡ before (sqrt c))
        ⊎ (sqrt c * sqrt c ≢ c) × (channels2order sqrt c ≡ negsuc 0)
  unfolding channels2order
  root_cases c h =
      let small : sqrt c * sqrt c % 2 ^ 32 ≡ sqrt c * sqrt c = omega (arith, floor.below c h) in
      elim (ℕ_discrete (sqrt c * sqrt c) c) [
        | yes e ↦ inl (e, rw small (ground arith))
        | no ne ↦ inr (ne, rw small (ground arith))
      ]

  -- A count below 2 ^ 32 has the order `n` exactly when it is `(n + 1) * (n + 1)`.
  pub channels2order_iff :
      (c n : ℕ) → c < 2 ^ 32 → (channels2order sqrt c ≡ pos n) ↔ ((n + 1) * (n + 1) ≡ c)
  channels2order_iff c n h = (to (root_cases c h), from)
    where
      to :
          (sqrt c * sqrt c ≡ c) × (channels2order sqrt c ≡ before (sqrt c))
            ⊎ (sqrt c * sqrt c ≢ c) × (channels2order sqrt c ≡ negsuc 0)
          → channels2order sqrt c ≡ pos n
          → (n + 1) * (n + 1) ≡ c
      to (inl (e, o)) p = ap (λ t. t * t) (sym (before-pos (sqrt c) n (sym o ∙ p))) ∙ e
      to (inr (ne, o)) p = cc

      from : (n + 1) * (n + 1) ≡ c → channels2order sqrt c ≡ pos n
      from e =
          ap (channels2order sqrt) (sym e)
          ∙ channels2order_square (n + 1) (omega arith)
          ∙ ap before {x = n + 1} {y = suc n} (omega arith)

  -- An order below 65535 comes back from its channel count.
  pub channels2order-order2channels :
      (n : ℕ) → n < 65535 → channels2order sqrt (order2channels n) ≡ pos n
  channels2order-order2channels n h = rw (order2channels_small n h) (
      (channels2order_iff ((n + 1) * (n + 1)) n
          (omega (arith, square_mono (n + 1) 65535 (omega arith)))).1
        refl)

  -- -1, as an order of type uint32_t, has no channels.
  no_order : order2channels (to_u32 (negsuc 0)) ≡ 0
  unfolding order2channels
  no_order = refl

  fullset_of_order : (c : ℕ) → c < 2 ^ 32 → is_fullset sqrt c ≡ true → sqrt c * sqrt c ≡ c
  unfolding is_fullset
  fullset_of_order c h = go (root_cases c h)
    where
      go :
          (sqrt c * sqrt c ≡ c) × (channels2order sqrt c ≡ before (sqrt c))
            ⊎ (sqrt c * sqrt c ≢ c) × (channels2order sqrt c ≡ negsuc 0)
          → (order2channels (to_u32 (channels2order sqrt c)) == c) ≡ true
          → sqrt c * sqrt c ≡ c
      go (inl (e, o)) p = e
      go (inr (ne, o)) p =
          let nothing : c ≡ 0 = sym ((==_iff _ c).0 (rw o at p)) ∙ no_order in
          absurd (ne (omega (arith, floor.below c h)))

  order_of_square : (k : ℕ) → k * k < 2 ^ 32 → order2channels (to_u32 (before k)) ≡ k * k
  order_of_square zero h = unfold order2channels in refl
  order_of_square (suc k) h =
      let small : k < 65535 = omega (arith, root-lt (suc k) h) in
      ap order2channels {x = k % 2 ^ 32} {y = k} (omega arith)
      ∙ order2channels_small k small
      ∙ ap (λ t. t * t) {x = k + 1} {y = suc k} (omega arith)

  -- A count below 2 ^ 31 is a full set exactly when it is a square; 0 is one of them.
  pub is_fullset_iff : (c : ℕ) → c < 2 ^ 31 → (is_fullset sqrt c ≡ true) ↔ ((k : ℕ) × (k * k ≡ c))
  unfolding is_fullset
  is_fullset_iff c less = (λ p. (sqrt c, fullset_of_order c h p), from)
    where
      h : c < 2 ^ 32
      h = omega (arith, less)

      from : (k : ℕ) × (k * k ≡ c) → is_fullset sqrt c ≡ true
      from (k, e) =
          let here : channels2order sqrt c ≡ before k =
            ap (channels2order sqrt) (sym e) ∙ channels2order_square k (omega arith) in
          (==_iff _ c).1 (rw here (order_of_square k (omega arith) ∙ e))
