-- ===== src/Hashmap/Sums.antt =====
-- Sums over the chains of a table.
use go_probe.Common.{
  ℕ, suc, zero, ◌+◌, ◌*◌, ◌≤◌, ◌≡◌, refl, some, List, [], ◌∷◌, arith, length, get_elem?, set,
  replicate,
}

module _ {ℓ} {A : Type ℓ} (f : A → ℕ) where
  unfoldable pub sum_of : List A → ℕ
  sum_of [] = 0
  sum_of (x ∷ xs) = f x + sum_of xs

  -- Writing one element changes the sum by the difference.
  pub sum_of-set :
      (xs : List A) (i : ℕ) (x y : A)
      → get_elem? xs i ≡ some x
      → sum_of (set xs i y) + f x ≡ sum_of xs + f y
  unfolding sum_of
  sum_of-set [] i x y e = absurd cc
  sum_of-set (z ∷ xs) zero x y e = ground arith
  sum_of-set (z ∷ xs) (suc i) x y e = omega (arith, sum_of-set xs i x y e)

  pub le-sum_of : (xs : List A) (i : ℕ) (x : A) → get_elem? xs i ≡ some x → f x ≤ sum_of xs
  unfolding sum_of
  le-sum_of [] i x e = absurd cc
  le-sum_of (z ∷ xs) zero x e = ground arith
  le-sum_of (z ∷ xs) (suc i) x e = omega (arith, le-sum_of xs i x e)

  pub sum_of-replicate : (n : ℕ) (x : A) → sum_of (replicate n x) ≡ n * f x
  unfolding sum_of
  sum_of-replicate zero x = omega arith
  sum_of-replicate (suc n) x = grind (arith, sum_of-replicate n x)

-- A sum that is bounded element by element.
pub sum_of-le {ℓ} :
    {A : Type ℓ} (f g : A → ℕ) (k : ℕ) (xs : List A)
    → ((i : ℕ) (x : A) → get_elem? xs i ≡ some x → f x ≤ g x + k)
    → sum_of f xs ≤ sum_of g xs + k * length xs
unfolding sum_of
sum_of-le f g k [] b = omega arith
sum_of-le f g k (x ∷ xs) b =
    let rest = sum_of-le f g k xs (λ i y e. b (suc i) y e) in let first = b 0 x refl in grind arith

pub sum_of-zero {ℓ} :
    {A : Type ℓ} (f : A → ℕ) (xs : List A)
    → ((i : ℕ) (x : A) → get_elem? xs i ≡ some x → f x ≡ 0)
    → sum_of f xs ≡ 0
unfolding sum_of
sum_of-zero f [] z = refl
sum_of-zero f (x ∷ xs) z = omega (arith, z 0 x refl, sum_of-zero f xs (λ i y e. z (suc i) y e))
