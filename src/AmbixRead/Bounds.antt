-- ===== src/AmbixRead/Bounds.antt =====
-- The counters of the ring: a head and a tail inside it, and a tail that moves by whole blocks.
use native.Mathlib.Nat.{lt_of_mul-lt-mul_left, mul-le-mul_left, div-add-mod, mod-lt}
use libambix.Base.{
  ℕ, ◌+◌, ◌-◌, ◌*◌, ◌/◌, ◌%◌, ◌≤◌, ◌<◌, ◌≡◌, ◌⊎◌, inl, inr, ap, ◌∙◌, arith, ltb, leb, ltb→lt,
  ltb→le, if◌then◌else◌, Bool-cases,
}
use libambix.Session.Outcomes.{if-holds}

-- A multiple of `v`.
abbrev pub IsWhole : (v n : ℕ) → Type 0
IsWhole v n = (q : ℕ) × (n ≡ v * q)

-- Between two multiples there is a whole block.
pub IsWhole-lt : (v a b : ℕ) → IsWhole v a → IsWhole v b → a < b → a + v ≤ b
IsWhole-lt v a b (q, e) (r, f) h =
    let small : q < r = lt_of_mul-lt-mul_left v (omega (arith, e, f)) in
    let step : v * (q + 1) ≤ v * r = mul-le-mul_left v (omega arith) in
    let next : v * (q + 1) ≡ v * q + v = grind arith in omega arith

pub IsWhole-add : (v a b : ℕ) → IsWhole v a → IsWhole v b → IsWhole v (a + b)
IsWhole-add v a b (q, e) (r, f) = (q + r, grind arith)

-- The size of the ring, once a file is open.
abbrev pub whole_frames : (bufframes v : ℕ) → ℕ
whole_frames bufframes v = bufframes - bufframes % v

pub whole_frames-IsWhole : (n v : ℕ) → IsWhole v (whole_frames n v)
whole_frames-IsWhole n v = (n / v, omega (arith, div-add-mod n v))

-- The counters of a ring whose tail moves by `v` frames.
pub record Bounds (v vecsize bufframes fifosize fifohead fifotail : ℕ) : Type 0 where
  pub vector : vecsize ≡ v
  pub vector-pos : 0 < v
  pub buffer : v ≤ bufframes
  pub size : (fifosize ≡ 0) ⊎ (fifosize ≡ whole_frames bufframes v)
  pub head : fifohead ≤ fifosize - 1
  pub tail : fifotail ≤ fifosize - 1
  pub tail-IsWhole : IsWhole v fifotail

pub size-IsWhole : {v a b n h t : ℕ} → Bounds v a b n h t → IsWhole v n
size-IsWhole {v} {a} {b} s = elim s.size [
  | inl e ↦ (0, omega arith)
  | inr e ↦ let (q, f) = whole_frames-IsWhole b v in (q, e ∙ f)
]

pub size-le : {v a b n h t : ℕ} → Bounds v a b n h t → n ≤ b
size-le s = elim s.size [ inl e ↦ omega arith | inr e ↦ omega arith ]

-- `v` of the frames that follow a tail are in the buffer.
pub block-fits : {v a b n h t : ℕ} → Bounds v a b n h t → t + v ≤ b
block-fits {v} {a} {b} {n} {h} {t} s = elim (Bool-cases (ltb t n)) [
  | inl e ↦
      omega (arith, IsWhole-lt v t n s.tail-IsWhole (size-IsWhole s) (ltb→lt t n e), size-le s)
  | inr e ↦ omega (arith, s.tail, s.buffer, ltb→le t n e)
]

pub tail_moved :
    {v a b n h t : ℕ} → Bounds v a b n h t → Bounds v a b n h (if leb n (t + a) then 0 else t + a)
tail_moved {v} {a} {b} {n} {h} {t} s = record {
  vector = s.vector;
  vector-pos = s.vector-pos;
  buffer = s.buffer;
  size = s.size;
  head = s.head;
  tail = ground arith;
  tail-IsWhole =
      if-holds (IsWhole v) (leb n (t + a)) 0 (t + a) (λ _. (0, omega arith))
        (λ _. IsWhole-add v t a s.tail-IsWhole (1, omega (arith, s.vector)));
}

pub head_reset : {v a b n h t : ℕ} → Bounds v a b n h t → Bounds v a b n 0 0
head_reset {v} s = record {
  vector = s.vector;
  vector-pos = s.vector-pos;
  buffer = s.buffer;
  size = s.size;
  head = omega arith;
  tail = omega arith;
  tail-IsWhole = (0, omega arith);
}

-- The ring that a file is opened with.
pub ring_opened :
    {v a b n h t : ℕ} → Bounds v a b n h t → Bounds v a b (b - b % a) 0 t × (0 < b - b % a)
ring_opened {v} {a} {b} {n} {h} {t} s =
    let same : b - b % a ≡ whole_frames b v = ap (λ m. b - b % m) s.vector in
    let larger : v ≤ whole_frames b v = omega (
      arith,
      IsWhole-lt v 0 (whole_frames b v) (0, omega arith) (whole_frames-IsWhole b v)
          (omega (arith, mod-lt b s.vector-pos, s.buffer)),
    ) in
    (
      record {
        vector = s.vector;
        vector-pos = s.vector-pos;
        buffer = s.buffer;
        size = inr same;
        head = omega arith;
        tail = elim s.size [ inl e ↦ omega (arith, s.tail) | inr e ↦ omega (arith, s.tail) ];
        tail-IsWhole = s.tail-IsWhole;
      },
      omega (arith, s.vector-pos),
    )
