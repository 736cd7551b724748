-- ===== src/Base/Pigeon.antt =====
-- The pigeonhole principle for lists of numbers.
use Prim.Native.Nat.{ℕ, zero, suc, ◌≤◌, ◌<◌}
use mathlib.Core.Path.{◌≡◌, refl, subst}
use mathlib.Core.Logic.{◌≢◌}
use mathlib.Core.List.{List, [], ◌∷◌}
use native.Mathlib.Omega.{arith}
use native.Mathlib.Decide.{ℕ_discrete}
use xmsgapi.Base.Tests.{◌==◌, if◌then◌else◌}
use xmsgapi.Base.Lists.{length, All}

abbrev pub Distinct : List ℕ → Type 0
Distinct [] = Unit
Distinct (x ∷ xs) = All (λ y. y ≢ x) xs × Distinct xs

without : ℕ → List ℕ → List ℕ
without n [] = []
without n (x ∷ xs) = let rest = without n xs in if x == n then rest else x ∷ rest

length-without_absent :
    (n : ℕ) (xs : List ℕ) → All (λ y. y ≢ n) xs → length (without n xs) ≡ length xs
unfolding without
length-without_absent n [] h = refl
length-without_absent n (x ∷ xs) (hx, h) = ground (arith, length-without_absent n xs h)

length-without : (n : ℕ) (xs : List ℕ) → Distinct xs → length xs ≤ suc (length (without n xs))
unfolding without
length-without n [] h = omega arith
length-without n (x ∷ xs) (hx, h) = elim (ℕ_discrete x n) [
  | yes e ↦
      let same = length-without_absent n xs (subst (λ v. All (λ y. y ≢ v) xs) e hx) in
      ground (arith, same)
  | no ne ↦ ground (arith, length-without n xs h)
]

without-lt : (n : ℕ) (xs : List ℕ) → All (λ y. y < suc n) xs → All (λ y. y < n) (without n xs)
unfolding without
without-lt n [] h = tt
without-lt n (x ∷ xs) (hx, h) = ground (arith, without-lt n xs h)

without-absent : (m n : ℕ) (xs : List ℕ) → All (λ y. y ≢ m) xs → All (λ y. y ≢ m) (without n xs)
unfolding without
without-absent m n [] h = tt
without-absent m n (x ∷ xs) (hx, h) = ground (arith, without-absent m n xs h)

without-Distinct : (n : ℕ) (xs : List ℕ) → Distinct xs → Distinct (without n xs)
unfolding without
without-Distinct n [] h = tt
without-Distinct n (x ∷ xs) (hx, h) =
    ground (arith, without-Distinct n xs h, without-absent x n xs hx)

-- Distinct numbers below `n` are at most `n`.
pub length-le_of_Distinct :
    (n : ℕ) (xs : List ℕ) → All (λ y. y < n) xs → Distinct xs → length xs ≤ n
length-le_of_Distinct zero [] b d = omega arith
length-le_of_Distinct zero (x ∷ xs) (bx, b) d = absurd (omega arith)
length-le_of_Distinct (suc n) xs b d = omega (
  arith,
  length-without n xs d,
  length-le_of_Distinct n (without n xs) (without-lt n xs b) (without-Distinct n xs d),
)
