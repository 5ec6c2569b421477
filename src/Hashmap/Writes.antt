-- ===== src/Hashmap/Writes.antt =====
-- Reading a list after a write.
use go_probe.Common.{
  ℕ, suc, zero, ◌<◌, ◌≡◌, ◌≢◌, ◌⊎◌, refl, ap, inl, inr, some, List, [], ◌∷◌, arith, length,
  get_elem?, set, replicate,
}

module _ {ℓ} {A : Type ℓ} where
  pub get_elem?-set_self :
      (xs : List A) (i : ℕ) (x v : A) → get_elem? xs i ≡ some x → get_elem? (set xs i v) i ≡ some v
  get_elem?-set_self [] i x v e = absurd cc
  get_elem?-set_self (y ∷ xs) zero x v e = refl
  get_elem?-set_self (y ∷ xs) (suc i) x v e = get_elem?-set_self xs i x v e

  pub get_elem?-set_ne :
      (xs : List A) (i j : ℕ) (v : A) → j ≢ i → get_elem? (set xs i v) j ≡ get_elem? xs j
  get_elem?-set_ne [] i j v n = refl
  get_elem?-set_ne (y ∷ xs) zero zero v n = absurd (n refl)
  get_elem?-set_ne (y ∷ xs) zero (suc j) v n = refl
  get_elem?-set_ne (y ∷ xs) (suc i) zero v n = refl
  get_elem?-set_ne (y ∷ xs) (suc i) (suc j) v n = get_elem?-set_ne xs i j v (λ e. n (ap suc e))

  -- What is read was written, or stood there before.
  pub get_elem?-set_cases :
      (xs : List A) (i j : ℕ) (v c : A)
      → get_elem? (set xs i v) j ≡ some c
      → ((j ≡ i) × (c ≡ v)) ⊎ ((j ≢ i) × (get_elem? xs j ≡ some c))
  get_elem?-set_cases [] i j v c e = absurd cc
  get_elem?-set_cases (y ∷ xs) zero zero v c e = inl (refl, cc)
  get_elem?-set_cases (y ∷ xs) zero (suc j) v c e = inr (omega arith, e)
  get_elem?-set_cases (y ∷ xs) (suc i) zero v c e = inr (omega arith, e)
  get_elem?-set_cases (y ∷ xs) (suc i) (suc j) v c e = elim (get_elem?-set_cases xs i j v c e) [
    | inl p ↦ inl (ap suc p.0, p.1)
    | inr p ↦ inr (λ (q : suc j ≡ suc i). p.0 (omega arith), p.1)
  ]

  pub get_elem?-lt : (xs : List A) (i : ℕ) (x : A) → get_elem? xs i ≡ some x → i < length xs
  get_elem?-lt [] i x e = absurd cc
  get_elem?-lt (y ∷ xs) zero x e = omega arith
  get_elem?-lt (y ∷ xs) (suc i) x e = omega (arith, get_elem?-lt xs i x e)

  pub get_elem?-replicate : (n i : ℕ) (x : A) → i < n → get_elem? (replicate n x) i ≡ some x
  get_elem?-replicate zero i x l = absurd (omega arith)
  get_elem?-replicate (suc n) zero x l = refl
  get_elem?-replicate (suc n) (suc i) x l = get_elem?-replicate n i x (omega arith)

  pub get_elem?-replicate_inv : (n i : ℕ) (x c : A) → get_elem? (replicate n x) i ≡ some c → c ≡ x
  get_elem?-replicate_inv zero i x c e = absurd cc
  get_elem?-replicate_inv (suc n) zero x c e = cc
  get_elem?-replicate_inv (suc n) (suc i) x c e = get_elem?-replicate_inv n i x c e
