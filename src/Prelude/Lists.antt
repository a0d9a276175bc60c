-- ===== src/Prelude/Lists.antt =====
-- Lists measured by native numbers.
use Prim.Native.Nat.{ℕ, zero, suc, ◌+◌, ◌≤◌}
use mathlib.Core.Path.{◌≡◌, refl}
use mathlib.Core.Bool.{Bool, true, false}
use mathlib.Core.List.{List, [], ◌∷◌, ◌++◌}
use native.Mathlib.Omega.{arith}
use is_a_chain.Prelude.Tests.{◌==◌, if◌then◌else◌, Bool-cases, ==_iff}
use mathlib.Core.Logic.{◌⊎◌, inl, inr}

module _ {ℓ} {A : Type ℓ} where
  abbrev pub length : List A → ℕ
  length [] = 0
  length (x ∷ xs) = suc (length xs)

  abbrev pub take : ℕ → List A → List A
  take zero xs = []
  take (suc n) [] = []
  take (suc n) (x ∷ xs) = x ∷ take n xs

  -- `Vec::retain`
  abbrev pub retain : (A → Bool) → List A → List A
  retain p [] = []
  retain p (x ∷ xs) = if p x then x ∷ retain p xs else retain p xs

  abbrev pub sum_of : (A → ℕ) → List A → ℕ
  sum_of f [] = 0
  sum_of f (x ∷ xs) = f x + sum_of f xs

  abbrev pub All {κ} : (A → Type κ) → List A → Type κ
  All P [] = Unit
  All P (x ∷ xs) = P x × All P xs

  pub length-append : (xs ys : List A) → length (xs ++ ys) ≡ length xs + length ys
  length-append [] ys = omega arith
  length-append (x ∷ xs) ys = omega (arith, length-append xs ys)

  pub sum_of-append : (f : A → ℕ) (xs ys : List A) → sum_of f (xs ++ ys) ≡ sum_of f xs + sum_of f ys
  sum_of-append f [] ys = omega arith
  sum_of-append f (x ∷ xs) ys = omega (arith, sum_of-append f xs ys)

-- `slice::contains` on numbers.
abbrev pub contains : List ℕ → ℕ → Bool
contains [] a = false
contains (x ∷ xs) a = if x == a then true else contains xs a

-- `HashSet::insert` and `HashSet::remove` on a set of addresses.
abbrev pub set_insert : List ℕ → ℕ → List ℕ
set_insert xs a = if contains xs a then xs else a ∷ xs

abbrev pub set_remove : List ℕ → ℕ → List ℕ
set_remove [] a = []
set_remove (x ∷ xs) a = if x == a then set_remove xs a else x ∷ set_remove xs a

pub contains-set_insert :
    (a b : ℕ) (xs : List ℕ)
    → contains (set_insert xs a) b ≡ (if a == b then true else contains xs b)
contains-set_insert a b xs = elim (Bool-cases (a == b)) [
  | inl same ↦ let e = (==_iff a b).0 same in rw (same, ← e) (ground arith)
  | inr other ↦ ground arith
]

pub contains-set_remove :
    (a b : ℕ) (xs : List ℕ)
    → contains (set_remove xs a) b ≡ (if a == b then false else contains xs b)
contains-set_remove a b [] = ground arith
contains-set_remove a b (x ∷ xs) = ground (arith, contains-set_remove a b xs)

-- How many times a number is listed.
abbrev pub count : (wanted : ℕ) → List ℕ → ℕ
count wanted = sum_of (λ x. if x == wanted then 1 else 0)

pub count-append :
    (wanted : ℕ) (xs ys : List ℕ) → count wanted (xs ++ ys) ≡ count wanted xs + count wanted ys
count-append wanted xs ys = sum_of-append (λ x. if x == wanted then 1 else 0) xs ys

-- Without every occurrence of one number: `retain(|h| h != a)`.
pub count-set_remove :
    (a b : ℕ) (xs : List ℕ) → count b (set_remove xs a) ≡ (if a == b then 0 else count b xs)
count-set_remove a b [] = ground arith
count-set_remove a b (x ∷ xs) = ground (arith, count-set_remove a b xs)

pub List-cases {ℓ} :
    {A : Type ℓ} (xs : List A) → (xs ≡ []) ⊎ ((x : A) × (rest : List A) × (xs ≡ x ∷ rest))
List-cases [] = inl refl
List-cases (x ∷ xs) = inr (x, xs, refl)

module _ {ℓ} {A : Type ℓ} where
  abbrev pub drop : ℕ → List A → List A
  drop zero xs = xs
  drop (suc n) [] = []
  drop (suc n) (x ∷ xs) = drop n xs

  pub take-append-drop : (n : ℕ) (xs : List A) → take n xs ++ drop n xs ≡ xs
  take-append-drop zero xs = refl
  take-append-drop (suc n) [] = refl
  take-append-drop (suc n) (x ∷ xs) = rw (take-append-drop n xs)

  pub length-take-le : (n : ℕ) (xs : List A) → length (take n xs) ≤ n
  length-take-le zero xs = omega arith
  length-take-le (suc n) [] = omega arith
  length-take-le (suc n) (x ∷ xs) = omega (arith, length-take-le n xs)
