-- ===== src/AmbixRead/Order.antt =====
-- What the ring, the child thread and the file hold together while a file plays: what comes next in the file.
use mathlib.Core.List.{append_assoc, append-nil}
use libambix.Base.{
  ℕ, zero, suc, ◌+◌, ◌-◌, ◌*◌, ◌≤◌, ◌<◌, ◌≡◌, ◌≢◌, ◌⊎◌, inl, inr, sym, ap, subst, ◌∙◌, arith, false,
  ◌&&◌, ltb, leb, if◌then◌else◌, Option, some, List, [], ◌++◌, map, length, length-append, pos,
}
use libambix.AmbixRead.{
  Request, nothing, busy, Source, Phase, fielding, opening, feeding, reading, merging, returned,
  closing, quitting, finished, Player, merge_samples, frames_at,
}
use libambix.AmbixRead.Bounds.{IsWhole, IsWhole-lt, IsWhole-add}
use libambix.AmbixRead.Ring.{place, window, length-window}
use libambix.AmbixRead.Playing.{Counters, window_block}

-- What the two threads share, and how a frame of the file is put in the ring.
pub record Shared (T : Type 0) : Type 0 where
  pub buf : ℕ → List T
  pub size : ℕ
  pub tail : ℕ
  pub head : ℕ
  pub request : Request
  pub handle : Option (Source T)
  pub frame_of : List T × List T → List T

abbrev pub view : {T : Type 0} → (silence : T) → Player T → Shared T
view silence x = record {
  buf = x.buf;
  size = x.fifosize;
  tail = x.fifotail;
  head = x.fifohead;
  request = x.requestcode;
  handle = x.ambix_t;
  frame_of = merge_samples silence x.ambichannels x.xtrachannels;
}

-- The tail, `c` frames later.
abbrev pub past : {T : Type 0} → Shared T → (c : ℕ) → Shared T
past s c = record s { tail = if leb s.size (s.tail + c) then 0 else s.tail + c }

module _ {T : Type 0} (v : ℕ) (all : List (List T)) where
  -- What has been heard, `k` frames of the ring and the next frames of the file make up the file.
  abbrev pub Makes :
      Shared T → (out : List (List T)) → (k : ℕ) → (next : List (List T × List T)) → Type 0
  Makes s out k next = out ++ (window s.buf s.size s.tail 0 k ++ map s.frame_of next) ≡ all

  -- Only at the end of the file the ring may hold a part of a block.
  abbrev pub Settled :
      Shared T → (out : List (List T)) → (level : ℕ) → (left : List (List T × List T)) → Type 0
  Settled s out level left = Makes s out level left × (IsWhole v level ⊎ (left ≡ []))

  abbrev pub Reads : Shared T → List (List T × List T) → Type 0
  Reads s left = (file : Source T) × (s.handle ≡ some file) × (file.frames ≡ left)

  abbrev pub Stage : Shared T → (out : List (List T)) → (level : ℕ) → Phase T → Type 0
  Stage s out level fielding =
      (s.request ≡ nothing) × (left : List (List T × List T)) × Settled s out level left
  Stage s out level feeding =
      (s.request ≡ busy) × (left : List (List T × List T)) × Reads s left × Settled s out level left
  Stage s out level (reading fifohead wantframes) =
      (s.request ≡ busy)
      × (fifohead ≡ s.head)
      × (s.head + wantframes ≤ s.size)
      × (level + wantframes < s.size)
      × (left : List (List T × List T)) × Reads s left
      × Settled s out level left
      × (IsWhole v wantframes ⊎ (left ≡ []))
  Stage s out level (merging fifohead sysrtn f todo) =
      (s.request ≡ busy)
      × (fifohead ≡ s.head)
      × (s.head + sysrtn ≤ s.size)
      × (level + sysrtn < s.size)
      × (0 < sysrtn)
      × (f + length todo ≡ sysrtn)
      × IsWhole v level
      × (left : List (List T × List T)) × Reads s left
      × (IsWhole v sysrtn ⊎ (left ≡ []))
      × Makes s out (level + f) (todo ++ left)
  Stage s out level (returned sysrtn) =
      (s.request ≡ busy)
      × ((n : ℕ) → sysrtn ≢ pos (suc n))
      × (left : List (List T × List T)) × Settled s out level left
  Stage s out level _ = ⊥

  pub record Playing (silence : T) (x : Player T) (out : List (List T)) : Type 0 where
    pub level : ℕ
    pub counters : Counters v x.vecsize x.bufframes x.fifosize x.fifotail x.fifohead level
    pub whole : IsWhole v (length out)
    pub stage : Stage (view silence x) out level x.phase

  length-Makes :
      (s : Shared T) (out : List (List T)) (k : ℕ) → Makes s out k [] → length out + k ≡ length all
  length-Makes s out k e =
      sym (
        length-append out (window s.buf s.size s.tail 0 k ++ [])
        ∙ ap (λ n. length out + n)
            (ap length (append-nil (window s.buf s.size s.tail 0 k))
              ∙ length-window s.buf s.size s.tail 0 k))
      ∙ ap length e

  Settled-level :
      (s : Shared T) (out : List (List T)) (level : ℕ) (left : List (List T × List T))
      → Settled s out level left
      → IsWhole v level ⊎ (length out + level ≡ length all)
  Settled-level s out level left (makes, inl w) = inl w
  Settled-level s out level left (makes, inr e) = inr (
      length-Makes s out level
        (ap (λ l. out ++ (window s.buf s.size s.tail 0 level ++ map s.frame_of l)) (sym e) ∙ makes))

  Stage-level :
      (s : Shared T) (out : List (List T)) (level : ℕ) (p : Phase T)
      → Stage s out level p
      → IsWhole v level ⊎ (length out + level ≡ length all)
  Stage-level s out level fielding (e, left, q) = Settled-level s out level left q
  Stage-level s out level feeding (e, left, r, q) = Settled-level s out level left q
  Stage-level s out level (reading h w) (e, a, b, c, left, r, q, d) =
      Settled-level s out level left q
  Stage-level s out level (merging h n f todo) (e, a, b, c, d, g, w, left, r, q, m) = inl w
  Stage-level s out level (returned z) (e, a, left, q) = Settled-level s out level left q
  Stage-level s out level (opening file) q = elim q [ ]
  Stage-level s out level closing q = elim q [ ]
  Stage-level s out level quitting q = elim q [ ]
  Stage-level s out level finished q = elim q [ ]

  -- There is never one frame less than a block.
  pub level-ne :
      (s : Shared T) (out : List (List T)) (level : ℕ) (p : Phase T)
      → 1 < v
      → ¬ IsWhole v (length all + 1)
      → IsWhole v (length out)
      → Stage s out level p
      → level ≢ v - 1
  level-ne s out level p more odd whole stage e = elim (Stage-level s out level p stage) [
    | inl w ↦
        absurd
          (omega (arith, IsWhole-lt v level v w (1, omega arith) (omega (arith, e, more)), more, e))
    | inr f ↦ odd (
        subst (IsWhole v) (omega (arith, e, f, more))
          (IsWhole-add v (length out) v whole (1, omega arith)))
  ]

  -- When the audio callback goes on, the ring has a block.
  pub level-le :
      {c b size tail head level : ℕ}
      → Counters v c b size tail head level
      → (leb tail head && ltb head (tail + c - 1)) ≡ false
      → v - 1 ≤ level
  unfolding place
  level-le r e = ground (
    arith,
    r.head-eq,
    r.vector,
    r.tail-lt,
    r.level-lt,
    IsWhole-lt v _ _ r.tail-IsWhole r.size-IsWhole r.tail-lt,
  )

  -- After a block of the ring has been heard.
  Makes-block :
      (s : Shared T) (out : List (List T)) (k : ℕ) (next : List (List T × List T))
      {c b head level : ℕ}
      → Counters v c b s.size s.tail head level
      → v ≤ k
      → k ≤ s.size
      → Makes s out k next
      → Makes (past s c) (out ++ frames_at s.buf s.tail c) (k - v) next
  Makes-block s out k next {c = c} r enough small e =
      let fr = frames_at s.buf s.tail c in
      let behind =
        window s.buf s.size (if leb s.size (s.tail + c) then 0 else s.tail + c) 0 (k - v) in
      let rest = map s.frame_of next in
      append_assoc out fr (behind ++ rest)
      ∙ ap (λ w. out ++ w)
          (sym (append_assoc fr behind rest)
            ∙ ap (λ w. w ++ rest) (sym (window_block s.buf k r enough small)))
      ∙ e

  IsWhole-sub : (a : ℕ) → IsWhole v a → v ≤ a → IsWhole v (a - v)
  IsWhole-sub a (zero, e) h = (0, omega (arith, e))
  IsWhole-sub a (suc q, e) h =
      (q, let next : v * suc q ≡ v * q + v = grind arith in omega (arith, e))

  Settled-block :
      (s : Shared T) (out : List (List T)) (left : List (List T × List T)) {c b head level : ℕ}
      → Counters v c b s.size s.tail head level
      → v ≤ level
      → Settled s out level left
      → Settled (past s c) (out ++ frames_at s.buf s.tail c) (level - v) left
  Settled-block s out left {level = level} r enough (m, w) = (
    Makes-block s out level left r enough (omega (arith, r.level-lt)) m,
    elim w [ inl a ↦ inl (IsWhole-sub level a enough) | inr e ↦ inr e ],
  )

  pub Stage-block :
      (s : Shared T) (out : List (List T)) {c b level : ℕ} (p : Phase T)
      → Counters v c b s.size s.tail s.head level
      → v ≤ level
      → Stage s out level p
      → Stage (past s c) (out ++ frames_at s.buf s.tail c) (level - v) p
  Stage-block s out fielding r enough (e, left, q) = (e, left, Settled-block s out left r enough q)
  Stage-block s out feeding r enough (e, left, rd, q) =
      (e, left, rd, Settled-block s out left r enough q)
  Stage-block s out (reading h w) r enough (e, a, b, c, left, rd, q, d) =
      (e, a, b, omega (arith, c), left, rd, Settled-block s out left r enough q, d)
  Stage-block s out {c = vec} {level = level} (merging h n f todo) r enough
        (e, a, b, c, d, g, w, left, rd, q, m) =
      (
        e,
        a,
        b,
        omega (arith, c),
        d,
        g,
        IsWhole-sub level w enough,
        left,
        rd,
        q,
        let moved : level + f - v ≡ level - v + f = omega (arith, enough) in
            subst (λ k. Makes (past s vec) (out ++ frames_at s.buf s.tail vec) k (todo ++ left))
              moved
              (Makes-block s out (level + f) (todo ++ left) r (omega (arith, enough))
                (omega (arith, c, g)) m),
      )
  Stage-block s out (returned z) r enough (e, a, left, q) =
      (e, a, left, Settled-block s out left r enough q)
  Stage-block s out (opening file) r enough q = elim q [ ]
  Stage-block s out closing r enough q = elim q [ ]
  Stage-block s out quitting r enough q = elim q [ ]
  Stage-block s out finished r enough q = elim q [ ]
