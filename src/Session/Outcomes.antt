-- ===== src/Session/Outcomes.antt =====
-- Statements about the results of the operations that return.
use libambix.Base.{
  Option, none, some, ◌≡◌, refl, subst, Bool, true, false, if◌then◌else◌, Outcome, done, null,
  fault, ◌>>=◌,
}

-- `P` holds of the value, if one is returned.
abbrev pub OnDone {ℓ κ} : {A : Type ℓ} → (A → Type κ) → Outcome A → Type κ
OnDone P (done x) = P x
OnDone P null = Unit
OnDone P fault = Unit

pub bind-OnDone {ℓ κ μ} :
    {A : Type ℓ} {C : Type μ} (P : A → Type κ) (Q : C → Type κ) (o : Outcome A)
    (next : A → Outcome C)
    → OnDone P o
    → ((x : A) → P x → OnDone Q (next x))
    → OnDone Q (o >>= next)
bind-OnDone P Q (done x) next p q = q x p
bind-OnDone P Q null next p q = tt
bind-OnDone P Q fault next p q = tt

pub if-OnDone {ℓ κ} :
    {A : Type ℓ} (P : A → Type κ) (t : Bool) (x y : Outcome A)
    → (t ≡ true → OnDone P x)
    → (t ≡ false → OnDone P y)
    → OnDone P (if t then x else y)
if-OnDone P true x y p q = p refl
if-OnDone P false x y p q = q refl

pub done-OnDone {ℓ κ} :
    {A : Type ℓ} (P : A → Type κ) (o : Outcome A) {x : A} → o ≡ done x → OnDone P o → P x
done-OnDone P o e p = subst (OnDone P) e p

-- The value that is returned is the one that is returned.
pub self-OnDone {ℓ} : {A : Type ℓ} (o : Outcome A) → OnDone (λ x. o ≡ done x) o
self-OnDone (done x) = refl
self-OnDone null = tt
self-OnDone fault = tt

pub map-OnDone {ℓ κ μ} :
    {A : Type ℓ} (P : A → Type κ) (Q : A → Type μ) (o : Outcome A)
    → ((x : A) → P x → Q x)
    → OnDone P o
    → OnDone Q o
map-OnDone P Q (done x) f p = f x p
map-OnDone P Q null f p = tt
map-OnDone P Q fault f p = tt

pub if-holds {ℓ κ} :
    {A : Type ℓ} (P : A → Type κ) (t : Bool) (x y : A)
    → (t ≡ true → P x)
    → (t ≡ false → P y)
    → P (if t then x else y)
if-holds P true x y p q = p refl
if-holds P false x y p q = q refl

pub elim-holds {ℓ κ μ} :
    {C : Type μ} {A : Type ℓ} (P : A → Type κ) (o : Option C) (x : A) (y : C → A)
    → P x
    → ((c : C) → P (y c))
    → P (elim o [ none ↦ x | some c ↦ y c ])
elim-holds P none x y p q = p
elim-holds P (some c) x y p q = q c

-- What follows a value holds of it, whatever the value is.
pub then-OnDone {ℓ κ μ} :
    {A : Type ℓ} {C : Type μ} (Q : C → Type κ) (next : A → Outcome C) (o : Outcome A)
    → ((x : A) → OnDone Q (next x))
    → OnDone Q (o >>= next)
then-OnDone Q next (done x) q = q x
then-OnDone Q next null q = tt
then-OnDone Q next fault q = tt
