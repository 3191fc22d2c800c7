-- ===== src/AmbixRead/Safety.antt =====
-- What the child thread keeps: the handle is there while it is read, and what is read fits the ring.
use libambix.Base.{
  ℕ, zero, suc, ◌+◌, ◌-◌, ◌%◌, ◌≤◌, ◌<◌, ◌≡◌, refl, sym, subst, arith, true, not, ◌==◌, ltb,
  if◌then◌else◌, Option, none, some, List, [], ◌∷◌, length, take, drop, ℤ, pos, negsuc, Returns,
}
use native.Mathlib.Nat.{mod-lt}
use libambix.Session.Outcomes.{if-holds}
use libambix.AmbixRead.Bounds.{Bounds, ring_opened}
use libambix.AmbixRead.{
  Request, nothing, open_request, close_request, quit, busy, is_busy, Source, Phase, fielding,
  opening, feeding, reading, merging, returned, closing, quitting, finished, Player,
}
use libambix.AmbixRead.Child.{
  room, lost, field, open_done, feed, got_from, read_source, commit, merge, merge_at, child_at,
}

-- A case on an option, with what it is.
pub elim-meets :
    {A C : Type 0} (P : A → Type 0) (o : Option C) (x : A) (y : C → A)
    → P x
    → ((c : C) → o ≡ some c → P (y c))
    → P (elim o [ none ↦ x | some c ↦ y c ])
elim-meets P none x y p q = p
elim-meets P (some c) x y p q = q c refl

module _ {T : Type 0} where
  -- The handle is there while it is read, and what is read has its place in the ring.
  abbrev pub IsPlaced : Player T → Phase T → Type 0
  IsPlaced x (reading fifohead wantframes) =
      ((file : Source T) × (x.ambix_t ≡ some file))
      × (wantframes ≤ x.fifosize)
      × (is_busy x.requestcode ≡ true → x.fifohead + wantframes ≤ x.fifosize)
  IsPlaced x (merging fifohead sysrtn f left) =
      ((file : Source T) × (x.ambix_t ≡ some file))
      × (is_busy x.requestcode ≡ true → x.fifohead + sysrtn ≤ x.fifosize)
  IsPlaced x (returned (pos n)) =
      ((file : Source T) × (x.ambix_t ≡ some file))
      × (is_busy x.requestcode ≡ true → x.fifohead + n ≤ x.fifosize)
  IsPlaced x (returned (negsuc n)) = Unit
  IsPlaced x feeding =
      ((file : Source T) × (x.ambix_t ≡ some file))
      × (is_busy x.requestcode ≡ true → 0 < x.fifosize)
  IsPlaced x _ = Unit

  pub record IsSafe (v : ℕ) (x : Player T) : Type 0 where
    pub bounds : Bounds v x.vecsize x.bufframes x.fifosize x.fifohead x.fifotail
    pub placed : IsPlaced x x.phase

  lost-IsSafe : (v : ℕ) (x : Player T) → IsSafe v x → IsSafe v (lost x)
  unfolding lost
  lost-IsSafe v x s = record { bounds = s.bounds; placed = tt }

  lost_at_eof-IsSafe :
      (v : ℕ) (x : Player T) → IsSafe v x → IsSafe v (lost (record x { eof = true }))
  unfolding lost
  lost_at_eof-IsSafe v x s = record { bounds = s.bounds; placed = tt }

  lost_by_error-IsSafe :
      (v : ℕ) (x : Player T) → IsSafe v x → IsSafe v (lost (record x { fileerror = true }))
  unfolding lost
  lost_by_error-IsSafe v x s = record { bounds = s.bounds; placed = tt }

  field-IsSafe : (v : ℕ) (x : Player T) (r : Request) → IsSafe v x → IsSafe v (field x r)
  unfolding field
  field-IsSafe v x nothing s = s
  field-IsSafe v x open_request s = record { bounds = s.bounds; placed = tt }
  field-IsSafe v x close_request s = record { bounds = s.bounds; placed = tt }
  field-IsSafe v x quit s = record { bounds = s.bounds; placed = tt }
  field-IsSafe v x busy s = s

  pub room-fits :
      (x : Player T) {w : ℕ}
      → x.fifohead ≤ x.fifosize - 1
      → x.fifotail ≤ x.fifosize - 1
      → 0 < x.fifosize
      → room x ≡ some w
      → (x.fifohead + w ≤ x.fifosize) × (0 < w)
  unfolding room
  room-fits x h t p e = ground arith

  feed-IsSafe : (v : ℕ) (x : Player T) → IsSafe v x → IsPlaced x feeding → IsSafe v (feed x)
  unfolding feed
  feed-IsSafe v x s (handle, larger) =
      if-holds (IsSafe v) (not (is_busy x.requestcode)) _ _ (λ _. lost-IsSafe v x s)
        (λ b.
          if-holds (IsSafe v) x.eof _ _ (λ _. lost-IsSafe v x s)
            (λ _.
              elim-meets (IsSafe v) (room x) x (λ w. record x { phase = reading x.fifohead w }) s
                (λ w e. record {
                  bounds = s.bounds;
                  placed = (
                    handle,
                    omega (
                      arith,
                      (room-fits x s.bounds.head s.bounds.tail (larger (ground (arith, b))) e).0,
                    ),
                    λ _. (room-fits x s.bounds.head s.bounds.tail (larger (ground (arith, b))) e).0,
                  );
                })))

  length-take_le : (n : ℕ) (xs : List (List T × List T)) → length (take n xs) ≤ n
  length-take_le zero xs = omega arith
  length-take_le (suc n) [] = omega arith
  length-take_le (suc n) (x ∷ xs) = omega (arith, length-take_le n xs)

  read_source-IsSafe :
      (v : ℕ) (x : Player T) (fifohead wantframes : ℕ) (answer : ℤ)
      → IsSafe v x
      → IsPlaced x (reading fifohead wantframes)
      → Returns (IsSafe v) (read_source x fifohead wantframes answer x.ambix_t)
  unfolding read_source got_from
  read_source-IsSafe v x fifohead wantframes answer s ((file, e), enough, fits) =
      subst (λ h. Returns (IsSafe v) (read_source x fifohead wantframes answer h)) (sym e)
        (if-holds (Returns (IsSafe v)) (ltb x.fifosize wantframes) _ _
          (λ over. absurd (ground (arith, over, enough))) (λ _. read_file answer))
    where
      read_file : (answer : ℤ) → IsSafe v (got_from x fifohead wantframes answer file)
      read_file (negsuc n) = record { bounds = s.bounds; placed = tt }
      read_file (pos n) =
          let count = if ltb n wantframes then n else wantframes in
          let got = take count file.frames in
          let y = record x { ambix_t = some (record file { frames = drop count file.frames }) } in
          if-holds (λ p. IsSafe v (record y { phase = p })) (length got == 0) (returned (pos 0))
            (merging fifohead (length got) 0 got)
            (λ _. record { bounds = s.bounds; placed = ((_, refl), λ b. omega (arith, fits b)) })
            (λ _. record {
              bounds = s.bounds;
              placed = ((_, refl), λ b. ground (arith, fits b, length-take_le count file.frames));
            })

  commit-IsSafe :
      (v : ℕ) (x : Player T) (sysrtn : ℤ)
      → IsSafe v x
      → IsPlaced x (returned sysrtn)
      → IsSafe v (commit x sysrtn)
  unfolding commit
  commit-IsSafe v x (negsuc n) s fits =
      if-holds (IsSafe v) (not (is_busy x.requestcode)) _ _ (λ _. lost-IsSafe v x s)
        (λ _. lost_by_error-IsSafe v x s)
  commit-IsSafe v x (pos n) s (handle, fits) =
      if-holds (IsSafe v) (not (is_busy x.requestcode)) _ _ (λ _. lost-IsSafe v x s)
        (λ b.
          if-holds (IsSafe v) (n == 0) _ _ (λ _. lost_at_eof-IsSafe v x s)
            (λ some_frames.
              let fit : x.fifohead + n ≤ x.fifosize = fits (ground (arith, b)) in
              record {
                bounds = record {
                  vector = s.bounds.vector;
                  vector-pos = s.bounds.vector-pos;
                  buffer = s.bounds.buffer;
                  size = s.bounds.size;
                  head = ground arith;
                  tail = s.bounds.tail;
                  tail-IsWhole = s.bounds.tail-IsWhole;
                };
                placed = (handle, λ _. ground arith);
              }))

module _ {T : Type 0} (silence : T) (clear : (bufsize : ℕ) → (ℕ → List T) → ℕ → List T) where
  open_done-IsSafe :
      (v : ℕ) (x : Player T) (file : Option (Source T))
      → IsSafe v x
      → IsSafe v (open_done silence clear x file)
  unfolding open_done lost
  open_done-IsSafe v x none s = record { bounds = s.bounds; placed = tt }
  open_done-IsSafe v x (some file) s =
      if-holds (IsSafe v) (is_busy x.requestcode) _ _
        (λ _.
          let (opened_bounds, larger) = ring_opened s.bounds in
          record { bounds = opened_bounds; placed = ((file, refl), λ _. larger) })
        (λ _. record { bounds = s.bounds; placed = tt })

  merge-IsSafe :
      (v : ℕ) (x : Player T) (fifohead sysrtn f : ℕ) (left : List (List T × List T))
      → IsSafe v x
      → IsPlaced x (merging fifohead sysrtn f left)
      → Returns (IsSafe v) (merge silence clear x fifohead sysrtn f left)
  unfolding merge merge_at
  merge-IsSafe v x fifohead sysrtn f [] s p = commit-IsSafe v x (pos sysrtn) s p
  merge-IsSafe v x fifohead sysrtn f (frame ∷ left) s p =
      if-holds (Returns (IsSafe v)) (ltb ((fifohead + f) % x.bufframes) x.bufframes) _ _
        (λ _. record { bounds = s.bounds; placed = p })
        (λ over. absurd (
          ground (
            arith,
            over,
            mod-lt (fifohead + f) {m = x.bufframes}
                (omega (arith, s.bounds.buffer, s.bounds.vector-pos)),
          )))

  -- A step of the child thread.
  pub child-IsSafe :
      (v : ℕ) (x : Player T) (answer : ℤ) (p : Phase T)
      → IsSafe v x
      → IsPlaced x p
      → Returns (IsSafe v) (child_at silence clear x answer p)
  unfolding child_at
  child-IsSafe v x answer fielding s p = field-IsSafe v x x.requestcode s
  child-IsSafe v x answer (opening file) s p = open_done-IsSafe v x file s
  child-IsSafe v x answer feeding s p = feed-IsSafe v x s p
  child-IsSafe v x answer (reading fifohead wantframes) s p =
      read_source-IsSafe v x fifohead wantframes answer s p
  child-IsSafe v x answer (merging fifohead sysrtn f left) s p =
      merge-IsSafe v x fifohead sysrtn f left s p
  child-IsSafe v x answer (returned sysrtn) s p = commit-IsSafe v x sysrtn s p
  child-IsSafe v x answer closing s p = record { bounds = s.bounds; placed = tt }
  child-IsSafe v x answer quitting s p = record { bounds = s.bounds; placed = tt }
  child-IsSafe v x answer finished s p = s
