-- ===== src/Matrix/Routes/Tests.antt =====
-- Routing matrices for concrete routes.
use libambix.Base.{
  ℕ, zero, suc, ◌+◌, ◌<◌, ◌≡◌, refl, arith, if◌then◌else◌, ◌==◌, true, false, none, some, List, [],
  ◌∷◌, get_or, done, fault, ℤ, pos,
}
use libambix.Matrix.{Matrix, multiply}
use libambix.Matrix.Writes.{IsFilled}
use libambix.Matrix.Tests.{number_float, number_sums, Exact, number_sums-IsExact}
use libambix.Matrix.Routes.{router}
use libambix.Matrix.Routes.Laws.{Entries, router_overrun}
use libambix.Matrix.Routes.Inverse.{IsRoute, router-restored}

-- The route 2, 0, 1.
abbrev pub rotate : ℕ → ℕ
rotate i = get_or (2 ∷ 0 ∷ 1 ∷ []) i 0

abbrev pub rotation : List ℤ
rotation = pos 2 ∷ pos 0 ∷ pos 1 ∷ []

pub rotation-Entries : Entries rotation 3 (λ i. pos (rotate i))
rotation-Entries zero h = refl
rotation-Entries (suc zero) h = refl
rotation-Entries (suc (suc zero)) h = refl
rotation-Entries (suc (suc (suc i))) h = absurd (omega arith)

pub rotate-lt : (i : ℕ) → i < 3 → rotate i < 3
rotate-lt zero h = omega arith
rotate-lt (suc zero) h = omega arith
rotate-lt (suc (suc zero)) h = omega arith
rotate-lt (suc (suc (suc i))) h = absurd (omega arith)

-- The value that follows is two less or one more.
rotate_lem : (i : ℕ) → i < 3 → rotate i ≡ (if i == 0 then 2 else (if i == 1 then 0 else 1))
rotate_lem zero h = refl
rotate_lem (suc zero) h = refl
rotate_lem (suc (suc zero)) h = refl
rotate_lem (suc (suc (suc i))) h = absurd (omega arith)

rotate-IsRoute : IsRoute 3 rotate
rotate-IsRoute = record {
  inside = rotate-lt;
  distinct = λ i j h k e. ground (arith, rotate_lem i h, rotate_lem j k);
}

-- The matrices that the router makes of it.
abbrev pub rotation_matrix : Matrix ℕ
rotation_matrix = record { rows = 3; cols = 3; cell = λ r c. if c == rotate r then 1 else 0 }

abbrev pub rotation_back : Matrix ℕ
rotation_back = record { rows = 3; cols = 3; cell = λ r c. if r == rotate c then 1 else 0 }

abbrev three_rows : Matrix ℕ
three_rows = record { rows = 3; cols = 2; cell = λ r c. r + c }

abbrev weights : List ℕ
weights = 7 ∷ 8 ∷ []

router-restored_example :
    (p : Matrix ℕ) × (router none rotation 3 false ≡ done p)
    × (q : Matrix ℕ) × (router none rotation 3 true ≡ done q)
    × ((s : Matrix ℕ) × (multiply number_sums (some p) (some three_rows) none ≡ done s)
        × IsFilled 3 2 (λ r c. rotate r + c) s)
    × ((s : Matrix ℕ) × (multiply number_sums (some p) (some q) none ≡ done s)
        × IsFilled 3 3 (λ r c. if r == c then 1 else 0) s)
router-restored_example =
    router-restored number_sums Exact number_sums-IsExact rotation 3 rotate none three_rows none
      rotation-Entries rotate-IsRoute refl (λ i c h k. tt) tt tt

-- The route 1, 2 for two channels.
abbrev above : ℕ → ℕ
above i = i + 1

router_overrun_example : router {F = ℕ} none (pos 1 ∷ pos 2 ∷ []) 2 false ≡ fault
router_overrun_example =
    router_overrun none (pos 1 ∷ pos 2 ∷ []) 2 above entries 1 false (omega arith) refl
      (λ i h. omega arith) (λ i h. omega arith)
  where
    entries : Entries (pos 1 ∷ pos 2 ∷ []) 2 (λ i. pos (above i))
    entries zero h = refl
    entries (suc zero) h = refl
    entries (suc (suc i)) h = absurd (omega arith)
