-- ===== src/Session/Buffer.antt =====
-- The size of the adaptor buffer: `_ambix_adaptorbuffer_resize` of libambix/src/adaptor.c.
use native.Mathlib.Nat.{mul-le-mul_right, mul-le-mul_left}
use libambix.Base.{
  ℕ, zero, suc, ◌+◌, ◌*◌, ◌^◌, ◌<◌, ◌≤◌, ◌≡◌, refl, ap, ◌∙◌, arith, true, false, ltb, ltb→lt,
  ltb→le, ◌||◌,
}
use libambix.Words.{u32, u64}
use libambix.Session.Outcomes.{if-holds}
use libambix.Handle.{Ambix, Err, success, unknown, max_u64, adaptorbuffer_resize}

le-mul : (k i : ℕ) → 0 < i → k ≤ k * i
le-mul k zero pos = absurd (omega arith)
le-mul k (suc i) pos = omega arith

mul-pos : (k i : ℕ) → 0 < k → 0 < i → 0 < k * i
mul-pos k i p q = omega (arith, le-mul k i q)

none_left : (c f i : ℕ) → (ltb f 1 || ltb c 1) ≡ true → c * f * i ≡ 0
none_left zero f i e = omega arith
none_left (suc c) zero i e = omega arith
none_left (suc c) (suc f) i e = absurd (ground arith)

some_left : (c f i : ℕ) → (ltb f 1 || ltb c 1) ≡ false → 0 < i → 0 < c * f * i
some_left c f i e pos = mul-pos (c * f) i (mul-pos c f (ground arith) (ground arith)) pos

wrap_free : (k i : ℕ) → k * i < 2 ^ 64 → 0 < i → u64 (u64 k * i) ≡ k * i
wrap_free k i small pos =
    ap (λ j. u64 (j * i)) {x = u64 k} {y = k} (omega (arith, le-mul k i pos, small))
    ∙ omega (arith, small)

-- The channels for which there is room in a frame.
abbrev pub buffer_channels : {F B : Type 0} → Ambix F B → ℕ
buffer_channels a = u32 (
    max_u64 a.info.ambichannels a.realinfo.ambichannels
    + max_u64 a.info.extrachannels a.realinfo.extrachannels)

module _ {F B : Type 0} (a : Ambix F B) (frames itemsize : ℕ) where
  abbrev size : ℕ
  size = u64 (u64 (buffer_channels a * frames) * itemsize)

  abbrev grown : Ambix F B × Err
  grown = (record a { adaptorbuffersize = size }, success)

  abbrev IsResized : Ambix F B × Err → Type 0
  IsResized r = (n : ℕ) × (r.0 ≡ record a { adaptorbuffersize = n })

  -- Only the size of the buffer changes.
  pub resize-record :
      (n : ℕ) × ((adaptorbuffer_resize a frames itemsize).0 ≡ record a { adaptorbuffersize = n })
  unfolding adaptorbuffer_resize
  resize-record =
      if-holds IsResized (ltb frames 1 || ltb (buffer_channels a) 1) (a, success) _
        (λ _. (a.adaptorbuffersize, refl))
        (λ _.
          if-holds IsResized (ltb size 1) (a, unknown) _ (λ _. (a.adaptorbuffersize, refl))
            (λ _.
              if-holds IsResized (ltb a.adaptorbuffersize size) grown (a, success)
                (λ _. (size, refl)) (λ _. (a.adaptorbuffersize, refl))))

  abbrev Fits : Ambix F B × Err → Type 0
  Fits r =
      (n : ℕ) × (r ≡ (record a { adaptorbuffersize = n }, success))
      × (buffer_channels a * frames * itemsize ≤ n)
      × (a.adaptorbuffersize ≤ n)

  -- If the frames in bytes fit 64 bits, the buffer has room for all of them, and never shrinks.
  pub resize-Fits :
      buffer_channels a * frames * itemsize < 2 ^ 64
      → 0 < itemsize
      → Fits (adaptorbuffer_resize a frames itemsize)
  unfolding adaptorbuffer_resize
  resize-Fits small pos =
      if-holds Fits (ltb frames 1 || ltb (buffer_channels a) 1) (a, success) _
        (λ none. (
          a.adaptorbuffersize,
          refl,
          omega (arith, none_left (buffer_channels a) frames itemsize none),
          omega arith,
        ))
        (λ some.
          if-holds Fits (ltb size 1) (a, unknown) _
            (λ empty. absurd (
              omega (
                arith,
                some_left (buffer_channels a) frames itemsize some pos,
                wrap_free (buffer_channels a * frames) itemsize small pos,
                ltb→lt size 1 empty,
              )))
            (λ _.
              if-holds Fits (ltb a.adaptorbuffersize size) grown (a, success)
                (λ over. (
                  size,
                  refl,
                  omega (arith, wrap_free (buffer_channels a * frames) itemsize small pos),
                  omega (arith, ltb→lt a.adaptorbuffersize size over),
                ))
                (λ fits. (
                  a.adaptorbuffersize,
                  refl,
                  omega (
                    arith,
                    wrap_free (buffer_channels a * frames) itemsize small pos,
                    ltb→le a.adaptorbuffersize size fits,
                  ),
                  omega arith,
                ))))

-- The frames in bytes fit 64 bits.
abbrev pub IsRoomy : {F B : Type 0} → (itemsize : ℕ) → Ambix F B → ℕ → Type 0
IsRoomy itemsize a n = (n < 2 ^ 63) × (0 < itemsize) × (buffer_channels a * n * itemsize < 2 ^ 64)

-- The handle after a transfer of frames.
abbrev pub transferred : {F B : Type 0} → Ambix F B → (size : ℕ) → (file : B) → Ambix F B
transferred a size file = record a { adaptorbuffersize = size; private_data = file }

-- The channels of the file, as the handle has them, and those of the caller.
abbrev pub file_channels : {F B : Type 0} → Ambix F B → ℕ
file_channels a = a.realinfo.ambichannels + a.realinfo.extrachannels

abbrev pub caller_channels : {F B : Type 0} → Ambix F B → ℕ
caller_channels a = a.info.ambichannels + a.info.extrachannels

module _ {F B : Type 0} (a : Ambix F B) (small : file_channels a < 2 ^ 31)
    (small' : caller_channels a < 2 ^ 31) where
  pub file_channels-le : file_channels a ≤ buffer_channels a
  unfolding max_u64
  file_channels-le = ground (arith, small, small')

  pub caller_channels-le : caller_channels a ≤ buffer_channels a
  unfolding max_u64
  caller_channels-le = ground (arith, small, small')

  pub few_samples :
      (n k : ℕ) {samples : ℕ}
      → k ≤ n
      → samples ≡ file_channels a * k
      → samples ≤ buffer_channels a * n
  few_samples n k le full =
      omega
        (arith, full, mul-le-mul_right k file_channels-le, mul-le-mul_left (buffer_channels a) le)

  buffer_channels-le : buffer_channels a ≤ file_channels a + caller_channels a
  unfolding max_u64
  buffer_channels-le = ground (arith, small, small')

  -- Resizing the adaptor buffer for fewer than 2 ^ 31 channels of the file and of the caller, where the frames of
  -- both fit 64 bits in bytes, succeeds and changes only the size, which never shrinks: then the buffer has
  -- room for the frames with the channels of the file, and for those with the channels of the caller.
  pub resize-room :
      (frames itemsize : ℕ)
      → (file_channels a + caller_channels a) * frames * itemsize < 2 ^ 64
      → 0 < itemsize
      → (n : ℕ) × (adaptorbuffer_resize a frames itemsize
          ≡ (record a { adaptorbuffersize = n }, success))
        × (file_channels a * frames * itemsize ≤ n)
        × (caller_channels a * frames * itemsize ≤ n)
        × (a.adaptorbuffersize ≤ n)
  resize-room frames itemsize fits some =
      let bytes : (k l : ℕ) → k ≤ l → k * frames * itemsize ≤ l * frames * itemsize =
        λ k l le. mul-le-mul_right itemsize (mul-le-mul_right frames le) in
      let (n, e, room, grows) =
        resize-Fits a frames itemsize
          (omega (
            arith,
            fits,
            bytes (buffer_channels a) (file_channels a + caller_channels a) buffer_channels-le,
          ))
          some in
      (
        n,
        e,
        omega (arith, room, bytes (file_channels a) (buffer_channels a) file_channels-le),
        omega (arith, room, bytes (caller_channels a) (buffer_channels a) caller_channels-le),
        grows,
      )
