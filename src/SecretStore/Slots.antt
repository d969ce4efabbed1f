-- ===== src/SecretStore/Slots.antt =====
-- The table of submitted unseal keys as a list of places: how many are taken, and which.
use sigryx.Base.{
  ℕ, zero, suc, ◌≤◌, ◌<◌, ◌≡◌, refl, ap, Option, none, some, List, [], ◌∷◌, arith, length,
  get_elem?, set, replicate,
}

module _ {A : Type 0} where
  abbrev pub taken : List (Option A) → ℕ
  taken [] = 0
  taken (none ∷ xs) = taken xs
  taken (some a ∷ xs) = suc (taken xs)

  pub taken-le : (xs : List (Option A)) → taken xs ≤ length xs
  taken-le [] = omega arith
  taken-le (none ∷ xs) = omega (arith, taken-le xs)
  taken-le (some a ∷ xs) = omega (arith, taken-le xs)

  pub taken-set :
      (xs : List (Option A)) (i : ℕ) (a : A)
      → get_elem? xs i ≡ some none
      → taken (set xs i (some a)) ≡ suc (taken xs)
  taken-set [] i a h = cc
  taken-set (none ∷ xs) zero a h = refl
  taken-set (some b ∷ xs) zero a h = cc
  taken-set (none ∷ xs) (suc i) a h = taken-set xs i a h
  taken-set (some b ∷ xs) (suc i) a h = ap suc (taken-set xs i a h)

  -- Where every place is taken, each has its value.
  pub taken_full :
      (xs : List (Option A)) (i : ℕ)
      → taken xs ≡ length xs
      → i < length xs
      → (a : A) × (get_elem? xs i ≡ some (some a))
  taken_full [] i h k = elim k [ ]
  taken_full (none ∷ xs) i h k = absurd (omega (arith, taken-le xs))
  taken_full (some a ∷ xs) zero h k = (a, refl)
  taken_full (some a ∷ xs) (suc i) h k = taken_full xs i (omega arith) (omega arith)

  -- A table with an unused place 0, as the store keeps it.
  pub uncons :
      (xs : List (Option A)) (n : ℕ)
      → length xs ≡ suc n
      → get_elem? xs 0 ≡ some none
      → (ys : List (Option A)) × (xs ≡ none ∷ ys) × (length ys ≡ n)
  uncons [] n h k = absurd (omega arith)
  uncons (none ∷ ys) n h k = (ys, refl, omega arith)
  uncons (some a ∷ ys) n h k = cc

  pub get_elem?-replicate : (n i : ℕ) (a : A) → i < n → get_elem? (replicate n a) i ≡ some a
  get_elem?-replicate zero i a h = elim h [ ]
  get_elem?-replicate (suc n) zero a h = refl
  get_elem?-replicate (suc n) (suc i) a h = get_elem?-replicate n i a (omega arith)

pub taken-replicate : (A : Type 0) (n : ℕ) → taken (replicate {A = Option A} n none) ≡ 0
taken-replicate A zero = refl
taken-replicate A (suc n) = taken-replicate A n
