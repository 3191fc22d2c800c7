-- ===== src/Base/Loop.antt =====
-- The result of a C call: a value, the failure that it reports (NULL), or what C leaves undefined:
-- an access outside of an array, or a number converted to a type that cannot hold it.
use Prim.Native.Nat.{ℕ, zero, suc, ◌+◌, ◌≤◌, ◌<◌}
use mathlib.Core.Path.{◌≡◌, refl, ap, ◌∙◌, subst}
use mathlib.Core.Option.{Option, none, some}
use native.Mathlib.Decide.{ℕ_discrete}
use native.Mathlib.Omega.{arith}

pub data Outcome {ℓ} (A : Type ℓ) : Type ℓ where
  done : A → Outcome A
  null : Outcome A
  fault : Outcome A

infixl 5 ◌>>=◌
abbrev pub ◌>>=◌ {ℓ κ} : {A : Type ℓ} {B : Type κ} → Outcome A → (A → Outcome B) → Outcome B
done a >>= f = f a
null >>= f = null
fault >>= f = fault

-- A read from an array: out of bounds is a fault.
abbrev pub access {ℓ} : {A : Type ℓ} → Option A → Outcome A
access none = fault
access (some a) = done a

-- `for(i=lo; i<lo+left; i++) s = body(i, s);`
unfoldable pub for_loop {ℓ} : {S : Type ℓ} → ℕ → ℕ → (ℕ → S → Outcome S) → S → Outcome S
for_loop zero i body s = done s
for_loop (suc left) i body s = body i s >>= λ s'. for_loop left (i + 1) body s'

-- The rule of the loop: an invariant that each round keeps holds at the end, and the loop ends
-- with neither a failure nor a fault.
pub for_inv {ℓ κ} :
    {S : Type ℓ} (P : ℕ → S → Type κ) (body : ℕ → S → Outcome S)
    → (left i : ℕ)
    → ((j : ℕ) (s : S)
        → i ≤ j
        → j < i + left
        → P j s
        → (s' : S) × (body j s ≡ done s') × P (j + 1) s')
    → (s : S) → P i s
    → (s' : S) × (for_loop left i body s ≡ done s') × P (i + left) s'
unfolding for_loop
for_inv P body zero i keep s p = (s, refl, subst (λ k. P k s) {x = i} {y = i + 0} (omega arith) p)
for_inv {S} P body (suc left) i keep s p =
    let (t, e, q) = keep i s (omega arith) (omega arith) p in
    let (u, f, r) =
      for_inv P body left (i + 1) (λ j s' a b. keep j s' (omega arith) (omega arith)) t q in
    (u, rw e f, subst (λ k. P k u) {x = i + 1 + left} {y = i + suc left} (omega arith) r)

-- A loop whose invariant holds up to a round that does not return ends as that round does.
pub for_stop {ℓ κ} :
    {S : Type ℓ} (P : ℕ → S → Type κ) (body : ℕ → S → Outcome S) (bad : Outcome S) (stop : ℕ)
    → ((f : S → Outcome S) → (bad >>= f) ≡ bad)
    → ((s : S) → P stop s → body stop s ≡ bad)
    → (left i : ℕ)
    → ((j : ℕ) (s : S) → i ≤ j → j < stop → P j s → (s' : S) × (body j s ≡ done s') × P (j + 1) s')
    → i ≤ stop
    → stop < i + left
    → (s : S) → P i s
    → for_loop left i body s ≡ bad
unfolding for_loop
for_stop P body bad stop ends last zero i keep lo hi s p = absurd (omega arith)
for_stop P body bad stop ends last (suc left) i keep lo hi s p = elim (ℕ_discrete i stop) [
  | yes e ↦
      ap (λ x. x >>= λ s'. for_loop left (i + 1) body s')
        (ap (λ k. body k s) e ∙ last s (subst (λ k. P k s) e p))
      ∙ ends (λ s'. for_loop left (i + 1) body s')
  | no ne ↦
      let (t, f, q) = keep i s (omega arith) (omega arith) p in
      rw f (
        for_stop P body bad stop ends last left (i + 1) (λ j s' a b. keep j s' (omega arith) b)
          (omega arith) (omega arith) t q)
]
