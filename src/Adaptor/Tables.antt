-- ===== src/Adaptor/Tables.antt =====
-- What the adaptors write, entry by entry: a row of values for each frame.
use mathlib.Core.List.{append_assoc}
use libambix.Base.{
  ℕ, zero, suc, ◌+◌, ◌-◌, ◌*◌, ◌≤◌, ◌<◌, ◌≡◌, refl, sym, ap, ◌∙◌, arith, List, [], ◌∷◌, ◌++◌,
  length, get_elem?, get_or, get_elem?-eq-get_or, drop, drop_next, done, ◌>>=◌, access, table,
  frames_from,
}
use libambix.Adaptor.{transfer, split_adaptor, merge_adaptor}

module _ {T : Type 0} where
  -- Samples `k, k + 1, …` of a source that has them.
  pub transfer-table :
      (n k from : ℕ) (source : List T) (d : T)
      → k + from + n ≤ length source
      → transfer n (drop (k + from) source)
        ≡ done (drop (k + (from + n)) source, table n from (λ c. get_or source (k + c) d))
  unfolding transfer
  transfer-table zero k from source d h =
      ap (λ j. done (drop j source, [])) {x = k + from} {y = k + (from + 0)} (omega arith)
  transfer-table (suc n) k from source d h = rw (drop_next (k + from) source d (omega arith)) (
      ap (λ j. transfer n (drop j source) >>= λ s. done (s.0, get_or source (k + from) d ∷ s.1))
        {x = suc (k + from)} {y = k + (from + 1)} (omega arith)
      ∙ rw (transfer-table n k (from + 1) source d (omega arith)) (
          ap
            (λ j. done (
              drop j source,
              get_or source (k + from) d ∷ table n (from + 1) (λ c. get_or source (k + c) d),
            ))
            {x = k + (from + 1 + n)} {y = k + (from + suc n)} (omega arith)))

  pub transfer_at :
      (n k from : ℕ) (source : List T) (d : T) {i j : ℕ}
      → i ≡ k + from
      → j ≡ k + (from + n)
      → k + from + n ≤ length source
      → transfer n (drop i source)
        ≡ done (drop j source, table n from (λ c. get_or source (k + c) d))
  transfer_at n k from source d p q h =
      ap (λ t. transfer n (drop t source)) p
      ∙ transfer-table n k from source d h
      ∙ ap (λ t. done (drop t source, table n from (λ c. get_or source (k + c) d))) (sym q)

  pub access-done :
      (source : List T) (i : ℕ) (d : T)
      → i < length source
      → access (get_elem? source i) ≡ done (get_or source i d)
  access-done source i d h = ap access (get_elem?-eq-get_or source i d h)

  -- Frame by frame `split_adaptor` writes the first channels to one set and the others to the other.
  pub split_adaptor-table :
      (source : List T) (sc ac : ℕ) (d : T)
      → ac ≤ sc
      → (left f : ℕ) → sc * (f + left) ≤ length source
      → split_adaptor (drop (sc * f) source) sc ac left
        ≡ done (
          frames_from left f (λ f. table ac 0 (λ c. get_or source (sc * f + c) d)),
          frames_from left f (λ f. table (sc - ac) ac (λ c. get_or source (sc * f + c) d)),
        )
  unfolding split_adaptor
  split_adaptor-table source sc ac d le zero f h = refl
  split_adaptor-table source sc ac d le (suc left) f h = rw (
    transfer_at ac (sc * f) 0 source d {i = sc * f} {j = sc * f + ac} (omega arith) (omega arith)
        (omega arith),
    transfer_at (sc - ac) (sc * f) ac source d {i = sc * f + ac} {j = sc * (f + 1)} (omega arith)
        (omega arith) (omega arith),
    split_adaptor-table source sc ac d le left (f + 1) (omega arith),
  )

  -- Frame by frame `merge_adaptor` writes the channels of one set behind those of the other.
  pub merge_adaptor-table :
      (source1 source2 : List T) (c1 c2 : ℕ) (d : T) (left f : ℕ)
      → c1 * (f + left) ≤ length source1
      → c2 * (f + left) ≤ length source2
      → merge_adaptor (drop (c1 * f) source1) c1 (drop (c2 * f) source2) c2 left
        ≡ done (
            frames_from left f (λ f.
              table c1 0 (λ c. get_or source1 (c1 * f + c) d)
              ++ table c2 0 (λ c. get_or source2 (c2 * f + c) d)))
  unfolding merge_adaptor
  merge_adaptor-table source1 source2 c1 c2 d zero f h k = refl
  merge_adaptor-table source1 source2 c1 c2 d (suc left) f h k =
      rw
        (
          transfer_at c1 (c1 * f) 0 source1 d {i = c1 * f} {j = c1 * (f + 1)} (omega arith)
              (omega arith) (omega arith),
          transfer_at c2 (c2 * f) 0 source2 d {i = c2 * f} {j = c2 * (f + 1)} (omega arith)
              (omega arith) (omega arith),
          merge_adaptor-table source1 source2 c1 c2 d left (f + 1) (omega arith) (omega arith),
        )
        (rw append_assoc)
