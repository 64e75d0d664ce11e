-- ===== src/Prelude/Lists.antt =====
-- Lists measured by native numbers, predicates on every element, and list membership as a test.
use Prim.Native.Nat.{ℕ, zero, suc, ◌+◌, ◌<◌, ◌≤◌}
use Prim.Native.Nat.add
use mathlib.Core.Path.{◌≡◌, refl, ap}
use mathlib.Core.Logic.{◌⊎◌}
use mathlib.Core.List.{List, [], ◌∷◌, ◌++◌}
use mathlib.Core.Option.{Option, none, some}
use mathlib.Core.Bool.{Bool}
use agrocylo_pip.Prelude.Tests.{if◌then◌else◌}
use native.Mathlib.Omega.{arith}

module _ {ℓ} {A : Type ℓ} where
  abbrev pub length : List A → ℕ
  length [] = 0
  length (x ∷ xs) = suc (length xs)

  abbrev pub get_elem? : List A → ℕ → Option A
  get_elem? [] i = none
  get_elem? (x ∷ xs) zero = some x
  get_elem? (x ∷ xs) (suc i) = get_elem? xs i

  abbrev pub replicate : ℕ → A → List A
  replicate zero a = []
  replicate (suc n) a = a ∷ replicate n a

  pub length-append : (xs ys : List A) → length (xs ++ ys) ≡ length xs + length ys
  length-append [] ys = omega arith
  length-append (x ∷ xs) ys = omega (arith, length-append xs ys)

abbrev pub All {ℓ κ} : {A : Type ℓ} → (A → Type κ) → List A → Type κ
All P [] = Unit
All P (x ∷ xs) = P x × All P xs

-- An element of a list, by position.
abbrev pub IsListed : {A : Type 0} → A → List A → Type 0
IsListed a [] = ⊥
IsListed a (x ∷ xs) = (x ≡ a) ⊎ IsListed a xs

module _ {ℓ} {A : Type ℓ} where
  abbrev pub take : ℕ → List A → List A
  take zero xs = []
  take (suc n) [] = []
  take (suc n) (x ∷ xs) = x ∷ take n xs

  abbrev pub drop : ℕ → List A → List A
  drop zero xs = xs
  drop (suc n) [] = []
  drop (suc n) (x ∷ xs) = drop n xs

  pub take-nil : (n : ℕ) → take n [] ≡ []
  take-nil zero = refl
  take-nil (suc n) = refl

  -- A longer front is a front and a slice behind it.
  pub take-add : (n k : ℕ) (xs : List A) → take (n + k) xs ≡ take n xs ++ take k (drop n xs)
  take-add zero k xs = rw add.zero refl
  take-add (suc n) k [] = rw (take-nil (suc n + k), take-nil k) refl
  take-add (suc n) k (x ∷ xs) = rw add.suc (ap (◌∷◌ x) (take-add n k xs))

  pub take-eq_of_length-le : (n : ℕ) (xs : List A) → length xs ≤ n → take n xs ≡ xs
  take-eq_of_length-le n [] h = take-nil n
  take-eq_of_length-le zero (x ∷ xs) h = absurd (omega arith)
  take-eq_of_length-le (suc n) (x ∷ xs) h = ap (◌∷◌ x) (take-eq_of_length-le n xs (omega arith))

pub drop-nil : {A : Type 0} (n : ℕ) → drop {A = A} n [] ≡ []
drop-nil zero = refl
drop-nil (suc n) = refl

pub drop-drop : {A : Type 0} (n k : ℕ) (xs : List A) → drop k (drop n xs) ≡ drop (n + k) xs
drop-drop zero k xs = rw add.zero refl
drop-drop (suc n) k [] = rw (drop-nil k, drop-nil (suc n + k)) refl
drop-drop (suc n) k (x ∷ xs) = rw add.suc (drop-drop n k xs)

pub drop-short : {A : Type 0} (k : ℕ) (xs : List A) → length (take k xs) < k → drop k xs ≡ []
drop-short zero xs h = absurd (omega arith)
drop-short (suc k) [] h = refl
drop-short (suc k) (x ∷ xs) h = drop-short k xs (omega arith)

pub take-drop : {A : Type 0} (k : ℕ) (xs : List A) → xs ≡ take k xs ++ drop k xs
take-drop zero xs = refl
take-drop (suc k) [] = refl
take-drop (suc k) (x ∷ xs) = ap (◌∷◌ x) (take-drop k xs)

-- `find` and `filter` with a test
abbrev pub find_by : {A : Type 0} → (A → Bool) → List A → Option A
find_by p [] = none
find_by p (x ∷ xs) = let rest = find_by p xs in if p x then some x else rest

abbrev pub filter_by : {A : Type 0} → (A → Bool) → List A → List A
filter_by p [] = []
filter_by p (x ∷ xs) = let rest = filter_by p xs in if p x then x ∷ rest else rest
