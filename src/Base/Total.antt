-- ===== src/Base/Total.antt =====
-- Results that are returned, with what holds of them.
use libambix.Base.Loop.{Outcome, done, null, fault, ◌>>=◌}
use mathlib.Core.Path.{◌≡◌, refl}

-- A value is returned, and `P` holds of it.
abbrev pub Returns {ℓ} : {A : Type ℓ} → (A → Type 0) → Outcome A → Type 0
Returns P (done x) = P x
Returns P null = ⊥
Returns P fault = ⊥

pub bind-Returns {ℓ κ} :
    {A : Type ℓ} {C : Type κ} (P : A → Type 0) (Q : C → Type 0) (o : Outcome A)
    (next : A → Outcome C)
    → Returns P o
    → ((x : A) → P x → Returns Q (next x))
    → Returns Q (o >>= next)
bind-Returns P Q (done x) next p q = q x p
bind-Returns P Q null next p q = elim p [ ]
bind-Returns P Q fault next p q = elim p [ ]

pub Returns-done {ℓ} :
    {A : Type ℓ} (P : A → Type 0) (o : Outcome A) → Returns P o → (x : A) × (o ≡ done x) × P x
Returns-done P (done x) p = (x, refl, p)
Returns-done P null p = elim p [ ]
Returns-done P fault p = elim p [ ]
