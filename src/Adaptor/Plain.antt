-- ===== src/Adaptor/Plain.antt =====
-- Splitting and merging without a matrix: the two are inverse, and stay inside their buffers.
use libambix.Base.{
  ℕ, zero, suc, ◌+◌, ◌-◌, ◌*◌, ◌≤◌, ◌≡◌, refl, sym, ap, ◌∙◌, arith, List, [], ◌∷◌, ◌++◌, length,
  length-append, take, drop, length-take, length-drop, take-append-drop, done,
}
use libambix.Adaptor.{transfer, split_adaptor, merge_adaptor}

module _ {T : Type 0} where
  -- A list of at least `n` entries, cut behind the first `n`.
  record Cut (n m : ℕ) (xs : List T) : Type 0 where
    front : List T
    back : List T
    joins : xs ≡ front ++ back
    front_length : length front ≡ n
    back_length : length back ≡ m

  cut : (n m : ℕ) (xs : List T) → length xs ≡ n + m → Cut n m xs
  cut n m xs e = record {
    front = take n xs;
    back = drop n xs;
    joins = sym (take-append-drop n xs);
    front_length = length-take n xs (omega arith);
    back_length = omega (arith, length-drop n xs);
  }

  pub transfer-append : (xs ys : List T) → transfer (length xs) (xs ++ ys) ≡ done (ys, xs)
  unfolding transfer
  transfer-append [] ys = refl
  transfer-append (x ∷ xs) ys = rw (transfer-append xs ys)

  pub transfer_front :
      (n : ℕ) (xs ys : List T) → length xs ≡ n → transfer n (xs ++ ys) ≡ done (ys, xs)
  transfer_front n xs ys e = ap (λ k. transfer k (xs ++ ys)) (sym e) ∙ transfer-append xs ys

  nothing_left : (xs : List T) → length xs ≡ 0 → xs ≡ []
  nothing_left [] e = refl
  nothing_left (x ∷ xs) e = absurd (omega arith)

  -- One frame of `a` and `b` in front of the rest.
  split_frame :
      (a b source : List T) (sc ac f : ℕ) {rest : List T × List T}
      → length a ≡ ac
      → length b ≡ sc - ac
      → split_adaptor source sc ac f ≡ done rest
      → split_adaptor (a ++ (b ++ source)) sc ac (suc f) ≡ done (a ++ rest.0, b ++ rest.1)
  unfolding split_adaptor
  split_frame a b source sc ac f ea eb e =
      rw (transfer_front ac a (b ++ source) ea, transfer_front (sc - ac) b source eb, e)

  pub merge_frame :
      (a b source1 source2 : List T) (c1 c2 f : ℕ) {rest : List T}
      → length a ≡ c1
      → length b ≡ c2
      → merge_adaptor source1 c1 source2 c2 f ≡ done rest
      → merge_adaptor (a ++ source1) c1 (b ++ source2) c2 (suc f) ≡ done (a ++ (b ++ rest))
  unfolding merge_adaptor
  merge_frame a b source1 source2 c1 c2 f ea eb e =
      rw (transfer_front c1 a source1 ea, transfer_front c2 b source2 eb, e)

  -- Merging two channel sets of exactly `frames` frames each succeeds, gives as many frames of all channels,
  -- and splitting those at the first set gives both sets back.
  pub split_adaptor-merge_adaptor :
      (ambi other : List T) (ambichannels otherchannels frames : ℕ)
      → length ambi ≡ ambichannels * frames
      → length other ≡ otherchannels * frames
      → (merged : List T) × (merge_adaptor ambi ambichannels other otherchannels frames
          ≡ done merged)
        × (length merged ≡ (ambichannels + otherchannels) * frames)
        × (split_adaptor merged (ambichannels + otherchannels) ambichannels frames
            ≡ done (ambi, other))
  split_adaptor-merge_adaptor ambi other ac oc zero p q = (
    [],
    unfold merge_adaptor in refl,
    omega arith,
    unfold split_adaptor in rw (nothing_left ambi (omega arith), nothing_left other (omega arith)),
  )
  split_adaptor-merge_adaptor ambi other ac oc (suc f) p q =
      let a = cut ac (ac * f) ambi (omega arith) in
      let b = cut oc (oc * f) other (omega arith) in
      let (merged, e, l, back) =
        split_adaptor-merge_adaptor a.back b.back ac oc f a.back_length b.back_length in
      (
        a.front ++ (b.front ++ merged),
        rw (a.joins, b.joins)
            (merge_frame a.front b.front a.back b.back ac oc f a.front_length b.front_length e),
        omega (
          arith,
          length-append {0} a.front (b.front ++ merged),
          length-append {0} b.front merged,
          a.front_length,
          b.front_length,
        ),
        rw (a.joins, b.joins)
            (split_frame a.front b.front merged (ac + oc) ac f a.front_length
              (omega (arith, b.front_length)) back),
      )

  -- Splitting a source of exactly `frames` frames at one of its channels succeeds, fills both sets with as many frames of their
  -- channels, and merging the sets gives the source back.
  pub merge_adaptor-split_adaptor :
      (source : List T) (sourcechannels ambichannels frames : ℕ)
      → ambichannels ≤ sourcechannels
      → length source ≡ sourcechannels * frames
      → (ambi other : List T) × (split_adaptor source sourcechannels ambichannels frames
          ≡ done (ambi, other))
        × (length ambi ≡ ambichannels * frames)
        × (length other ≡ (sourcechannels - ambichannels) * frames)
        × (merge_adaptor ambi ambichannels other (sourcechannels - ambichannels) frames
            ≡ done source)
  merge_adaptor-split_adaptor source sc ac zero le p = (
    [],
    [],
    unfold split_adaptor in refl,
    omega arith,
    omega arith,
    unfold merge_adaptor in rw (nothing_left source (omega arith)),
  )
  merge_adaptor-split_adaptor source sc ac (suc f) le p =
      let a = cut ac (sc - ac + sc * f) source (omega arith) in
      let b = cut (sc - ac) (sc * f) a.back a.back_length in
      let whole : source ≡ a.front ++ (b.front ++ b.back) = a.joins ∙ ap (◌++◌ a.front) b.joins in
      let (ambi, other, e, la, lo, back) =
        merge_adaptor-split_adaptor b.back sc ac f le b.back_length in
      (
        a.front ++ ambi,
        b.front ++ other,
        ap (λ s. split_adaptor s sc ac (suc f)) whole
            ∙ split_frame a.front b.front b.back sc ac f a.front_length b.front_length e,
        omega (arith, length-append {0} a.front ambi, a.front_length),
        omega (arith, length-append {0} b.front other, b.front_length),
        merge_frame a.front b.front ambi other ac (sc - ac) f a.front_length b.front_length back
            ∙ ap done (sym whole),
      )
