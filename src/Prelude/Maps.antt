-- ===== src/Prelude/Maps.antt =====
-- Maps from numbers as functions, and sums over an initial segment of them.
use Prim.Native.Nat.{ℕ, zero, suc, ◌+◌, ◌≤◌, ◌<◌}
use mathlib.Core.Path.{◌≡◌, refl}
use mathlib.Core.Logic.{◌≢◌, ◌⊎◌, inl, inr}
use mathlib.Core.List.{List, [], ◌∷◌}
use native.Mathlib.Omega.{arith}
use frogop_pub.Prelude.Tests.{◌==◌, if◌then◌else◌}

-- `f` with the value at `k` replaced.
abbrev pub update {ℓ} : {A : Type ℓ} → (ℕ → A) → ℕ → A → ℕ → A
update f k v j = if k == j then v else f j

abbrev pub length {ℓ} : {A : Type ℓ} → List A → ℕ
length [] = 0
length (x ∷ xs) = suc (length xs)

-- f 0 + … + f (n - 1)
unfoldable pub sum_below : ℕ → (ℕ → ℕ) → ℕ
sum_below zero f = 0
sum_below (suc n) f = f n + sum_below n f

pub sum_below_cong :
    (n : ℕ) (f g : ℕ → ℕ) → ((i : ℕ) → i < n → f i ≡ g i) → sum_below n f ≡ sum_below n g
unfolding sum_below
sum_below_cong zero f g h = refl
sum_below_cong (suc n) f g h =
    omega (arith, h n (omega arith), sum_below_cong n f g (λ i p. h i (omega arith)))

-- Replacing one summand moves the sum by the difference.
pub sum_below_change :
    (n k : ℕ) (f g : ℕ → ℕ)
    → k < n
    → ((i : ℕ) → i ≢ k → f i ≡ g i)
    → sum_below n g + f k ≡ sum_below n f + g k
unfolding sum_below
sum_below_change zero k f g p h = absurd (omega arith)
sum_below_change (suc n) k f g p h = elim (split n k p) [
  | inl lt ↦ omega (arith, h n (omega arith), sum_below_change n k f g lt h)
  | inr e ↦ rw (← e) (omega (arith, sum_below_cong n f g (λ i q. h i (omega arith))))
]
  where
    split : (n k : ℕ) → k < suc n → (k < n) ⊎ (n ≡ k)
    split n k p = grind arith

pub le-sum_below : (n k : ℕ) (f : ℕ → ℕ) → k < n → f k ≤ sum_below n f
unfolding sum_below
le-sum_below zero k f p = absurd (omega arith)
le-sum_below (suc n) k f p = grind (arith, le-sum_below n k f)

abbrev pub take {ℓ} : {A : Type ℓ} → ℕ → List A → List A
take zero xs = []
take (suc n) [] = []
take (suc n) (x ∷ xs) = x ∷ take n xs
