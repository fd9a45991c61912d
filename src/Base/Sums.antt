-- ===== src/Base/Sums.antt =====
-- Sums of a measure over a list.
use Prim.Native.Nat.{ℕ, ◌+◌, ◌-◌, ◌≤◌}
use mathlib.Core.Path.{◌≡◌, refl}
use mathlib.Core.List.{List, [], ◌∷◌, ◌++◌, map}
use native.Mathlib.Omega.{arith}

-- `sum(f(x) for x in xs)`
abbrev pub total {ℓ} : {A : Type ℓ} → (A → ℕ) → List A → ℕ
total f [] = 0
total f (x ∷ xs) = f x + total f xs

abbrev pub sum : List ℕ → ℕ
sum [] = 0
sum (x ∷ xs) = x + sum xs

module _ {ℓ} {A : Type ℓ} where
  pub total-append : (f : A → ℕ) (xs ys : List A) → total f (xs ++ ys) ≡ total f xs + total f ys
  total-append f [] ys = omega arith
  total-append f (x ∷ xs) ys = omega (arith, total-append f xs ys)

  pub total-le : (f g : A → ℕ) → ((x : A) → f x ≤ g x) → (xs : List A) → total f xs ≤ total g xs
  total-le f g h [] = omega arith
  total-le f g h (x ∷ xs) = omega (arith, h x, total-le f g h xs)

  pub total-eq : (f g : A → ℕ) → ((x : A) → f x ≡ g x) → (xs : List A) → total f xs ≡ total g xs
  total-eq f g h [] = refl
  total-eq f g h (x ∷ xs) = omega (arith, h x, total-eq f g h xs)

  pub total-sub :
      (f g : A → ℕ)
      → ((x : A) → g x ≤ f x)
      → (xs : List A) → total (λ x. f x - g x) xs + total g xs ≡ total f xs
  total-sub f g h [] = omega arith
  total-sub f g h (x ∷ xs) = omega (arith, h x, total-sub f g h xs)

  pub total-add : (f g : A → ℕ) (xs : List A) → total (λ x. f x + g x) xs ≡ total f xs + total g xs
  total-add f g [] = omega arith
  total-add f g (x ∷ xs) = omega (arith, total-add f g xs)

  pub total-map {κ} :
      {B : Type κ} (f : A → ℕ) (g : B → A) (xs : List B)
      → total f (map g xs) ≡ total (λ x. f (g x)) xs
  total-map f g [] = refl
  total-map f g (x ∷ xs) = omega (arith, total-map f g xs)

  pub sum-map : (f : A → ℕ) (xs : List A) → sum (map f xs) ≡ total f xs
  sum-map f [] = refl
  sum-map f (x ∷ xs) = omega (arith, sum-map f xs)

pub sum-append : (xs ys : List ℕ) → sum (xs ++ ys) ≡ sum xs + sum ys
sum-append [] ys = omega arith
sum-append (x ∷ xs) ys = omega (arith, sum-append xs ys)

pub sum-total : (xs : List ℕ) → sum xs ≡ total (λ x. x) xs
sum-total [] = refl
sum-total (x ∷ xs) = omega (arith, sum-total xs)
