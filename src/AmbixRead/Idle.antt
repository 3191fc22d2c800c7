-- ===== src/AmbixRead/Idle.antt =====
-- What an object that is idle keeps: its child thread never sets the state, and the callback is silent.
use libambix.Base.{
  ℕ, ◌+◌, ◌%◌, ◌≡◌, refl, subst, arith, not, ◌||◌, ◌==◌, ltb, Option, none, some, List, [], ◌∷◌, ℤ,
  pos, negsuc, Outcome, done, null, fault, Returns,
}
use libambix.Session.Outcomes.{if-holds}
use libambix.AmbixRead.{
  State, idle, is_busy, is_stream, Request, nothing, open_request, close_request, quit, busy, Phase,
  fielding, opening, feeding, reading, merging, returned, closing, quitting, finished, Player,
  Source, silent,
}
use libambix.AmbixRead.Child.{
  room, lost, field, feed, got_from, read_source, commit, open_done, merge, merge_at, child_at,
}
use libambix.AmbixRead.Callback.{perform}
use libambix.AmbixRead.Safety.{elim-meets}

-- Of what is returned, both are known.
pub Returns-also :
    {A : Type 0} (P Q : A → Type 0) (o : Outcome A)
    → Returns P o
    → ((x : A) → o ≡ done x → Q x)
    → Returns (λ x. P x × Q x) o
Returns-also P Q (done x) p q = (p, q x refl)
Returns-also P Q null p q = p
Returns-also P Q fault p q = p

-- The state, if there is a result.
abbrev Keeps : {T : Type 0} → State → Outcome (Player T) → Type 0
Keeps s (done y) = y.state ≡ s
Keeps s null = Unit
Keeps s fault = Unit

Keeps-done :
    {T : Type 0} (s : State) (o : Outcome (Player T))
    → Keeps s o
    → (y : Player T) → o ≡ done y
    → y.state ≡ s
Keeps-done s o k y e = subst (Keeps s) e k

module _ {T : Type 0} where
  lost-state : (x : Player T) → (lost x).state ≡ x.state
  unfolding lost
  lost-state x = refl

  field-state : (x : Player T) (r : Request) → (field x r).state ≡ x.state
  unfolding field
  field-state x nothing = refl
  field-state x open_request = refl
  field-state x close_request = refl
  field-state x quit = refl
  field-state x busy = refl

  feed-state : (x : Player T) → (feed x).state ≡ x.state
  unfolding feed lost
  feed-state x =
      if-holds (λ (y : Player T). y.state ≡ x.state) (not (is_busy x.requestcode)) _ _ (λ _. refl)
        (λ _.
          if-holds (λ (y : Player T). y.state ≡ x.state) x.eof _ _ (λ _. refl)
            (λ _.
              elim-meets (λ (y : Player T). y.state ≡ x.state) (room x) x
                (λ w. record x { phase = reading x.fifohead w }) refl (λ w e. refl)))

  commit-state : (x : Player T) (z : ℤ) → (commit x z).state ≡ x.state
  unfolding commit lost
  commit-state x (negsuc n) =
      if-holds (λ (y : Player T). y.state ≡ x.state) (not (is_busy x.requestcode)) _ _ (λ _. refl)
        (λ _. refl)
  commit-state x (pos n) =
      if-holds (λ (y : Player T). y.state ≡ x.state) (not (is_busy x.requestcode)) _ _ (λ _. refl)
        (λ _. if-holds (λ (y : Player T). y.state ≡ x.state) (n == 0) _ _ (λ _. refl) (λ _. refl))

  got_from-state :
      (x : Player T) (h w : ℕ) (answer : ℤ) (file : Source T)
      → (got_from x h w answer file).state ≡ x.state
  unfolding got_from
  got_from-state x h w (negsuc n) file = refl
  got_from-state x h w (pos n) file = refl

  read_source-state :
      (x : Player T) (h w : ℕ) (answer : ℤ) (file : Option (Source T))
      → Keeps x.state (read_source x h w answer file)
  unfolding read_source
  read_source-state x h w answer none = tt
  read_source-state x h w answer (some file) =
      if-holds (Keeps x.state) (ltb x.fifosize w) _ _ (λ _. tt)
        (λ _. got_from-state x h w answer file)

module _ {T : Type 0} (silence : T) (clear : (bufsize : ℕ) → (ℕ → List T) → ℕ → List T) where
  open_done-state :
      (x : Player T) (file : Option (Source T)) → (open_done silence clear x file).state ≡ x.state
  unfolding open_done lost
  open_done-state x none = refl
  open_done-state x (some file) =
      if-holds (λ (y : Player T). y.state ≡ x.state) (is_busy x.requestcode) _ _ (λ _. refl)
        (λ _. refl)

  merge-state :
      (x : Player T) (h n f : ℕ) (todo : List (List T × List T))
      → Keeps x.state (merge silence clear x h n f todo)
  unfolding merge merge_at
  merge-state x h n f [] = commit-state x (pos n)
  merge-state x h n f (frame ∷ todo) =
      if-holds (Keeps x.state) (ltb ((h + f) % x.bufframes) x.bufframes) _ _ (λ _. refl) (λ _. tt)

  child_at-Keeps :
      (x : Player T) (answer : ℤ) (q : Phase T) → Keeps x.state (child_at silence clear x answer q)
  unfolding child_at
  child_at-Keeps x answer fielding = field-state x x.requestcode
  child_at-Keeps x answer (opening file) = open_done-state x file
  child_at-Keeps x answer feeding = feed-state x
  child_at-Keeps x answer (reading h w) = read_source-state x h w answer x.ambix_t
  child_at-Keeps x answer (merging h n f todo) = merge-state x h n f todo
  child_at-Keeps x answer (returned z) = commit-state x z
  child_at-Keeps x answer closing = refl
  child_at-Keeps x answer quitting = refl
  child_at-Keeps x answer finished = refl

  pub child_at-state :
      (x : Player T) (answer : ℤ) (q : Phase T) (y : Player T)
      → child_at silence clear x answer q ≡ done y
      → y.state ≡ x.state
  child_at-state x answer q y e =
      Keeps-done x.state (child_at silence clear x answer q) (child_at-Keeps x answer q) y e

pub perform-idle : {T : Type 0} (x : Player T) → x.state ≡ idle → perform x ≡ done (x, silent)
unfolding perform
perform-idle x e =
    if-holds (λ o. o ≡ done (x, silent)) (x.f_matrix || x.f_ambix) _ _ (λ _. refl)
      (λ _.
        if-holds (λ o. o ≡ done (x, silent)) (not (is_stream x.state)) _ _ (λ _. refl)
          (λ t. absurd (ground (arith, e, t))))
