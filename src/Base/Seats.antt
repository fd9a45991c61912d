-- ===== src/Base/Seats.antt =====
-- `players[i] = f(players[i])`: an update at one position, and its laws.
use Prim.Native.Nat.{ℕ, zero, suc, ◌+◌}
use mathlib.Core.Path.{◌≡◌, refl, ap}
use mathlib.Core.Logic.{◌≢◌, ◌⊎◌, inl, inr}
use mathlib.Core.List.{List, [], ◌∷◌, map}
use mathlib.Core.Option.{some}
use native.Mathlib.Omega.{arith}
use texas_holdem.Base.Lists.{length, get_elem?}
use texas_holdem.Base.Sums.{total}

module _ {ℓ} {A : Type ℓ} where
  -- An index out of range changes nothing.
  abbrev pub modify : ℕ → (A → A) → List A → List A
  modify i f [] = []
  modify zero f (x ∷ xs) = f x ∷ xs
  modify (suc i) f (x ∷ xs) = x ∷ modify i f xs

  pub length-modify : (i : ℕ) (f : A → A) (xs : List A) → length (modify i f xs) ≡ length xs
  length-modify zero f [] = refl
  length-modify zero f (x ∷ xs) = refl
  length-modify (suc i) f [] = refl
  length-modify (suc i) f (x ∷ xs) = ap suc (length-modify i f xs)

  pub total-modify :
      (m : A → ℕ) (f : A → A)
      → ((x : A) → m (f x) ≡ m x)
      → (i : ℕ) (xs : List A) → total m (modify i f xs) ≡ total m xs
  total-modify m f h zero [] = refl
  total-modify m f h zero (x ∷ xs) = omega (arith, h x)
  total-modify m f h (suc i) [] = refl
  total-modify m f h (suc i) (x ∷ xs) = omega (arith, total-modify m f h i xs)

  pub map-modify {κ} :
      {B : Type κ} (m : A → B) (f : A → A)
      → ((x : A) → m (f x) ≡ m x)
      → (i : ℕ) (xs : List A) → map m (modify i f xs) ≡ map m xs
  map-modify m f h zero [] = refl
  map-modify m f h zero (x ∷ xs) = λ i. h x i ∷ map m xs
  map-modify m f h (suc i) [] = refl
  map-modify m f h (suc i) (x ∷ xs) = λ j. m x ∷ map-modify m f h i xs j

  -- At a seat that is there, the sum changes as the measure of that seat does.
  pub total-modify_at :
      (m : A → ℕ) (f : A → A) (i : ℕ) (xs : List A) (a : A)
      → get_elem? xs i ≡ some a
      → total m (modify i f xs) + m a ≡ total m xs + m (f a)
  total-modify_at m f zero [] a h = cc
  total-modify_at m f zero (x ∷ xs) a h = ground arith
  total-modify_at m f (suc i) [] a h = cc
  total-modify_at m f (suc i) (x ∷ xs) a h = omega (arith, total-modify_at m f i xs a h)

  pub get_elem?-modify_self :
      (i : ℕ) (f : A → A) (xs : List A) (a : A)
      → get_elem? xs i ≡ some a
      → get_elem? (modify i f xs) i ≡ some (f a)
  get_elem?-modify_self zero f [] a h = cc
  get_elem?-modify_self zero f (x ∷ xs) a h = cc
  get_elem?-modify_self (suc i) f [] a h = cc
  get_elem?-modify_self (suc i) f (x ∷ xs) a h = get_elem?-modify_self i f xs a h

  pub get_elem?-modify_ne :
      (i k : ℕ) (f : A → A) (xs : List A) → i ≢ k → get_elem? (modify i f xs) k ≡ get_elem? xs k
  get_elem?-modify_ne zero k f [] h = refl
  get_elem?-modify_ne (suc i) k f [] h = refl
  get_elem?-modify_ne zero zero f (x ∷ xs) h = absurd (h refl)
  get_elem?-modify_ne zero (suc k) f (x ∷ xs) h = refl
  get_elem?-modify_ne (suc i) zero f (x ∷ xs) h = refl
  get_elem?-modify_ne (suc i) (suc k) f (x ∷ xs) h =
      get_elem?-modify_ne i k f xs (λ e. h (ap suc e))

  pub get_elem?-map {κ} :
      {B : Type κ} (f : B → A) (k : ℕ) (xs : List B) (b : B)
      → get_elem? xs k ≡ some b
      → get_elem? (map f xs) k ≡ some (f b)
  get_elem?-map f k [] b h = cc
  get_elem?-map f zero (x ∷ xs) b h = cc
  get_elem?-map f (suc k) (x ∷ xs) b h = get_elem?-map f k xs b h

  pub get_elem?-map_inv {κ} :
      {B : Type κ} (f : B → A) (k : ℕ) (xs : List B) (a : A)
      → get_elem? (map f xs) k ≡ some a
      → (b : B) × (get_elem? xs k ≡ some b) × (a ≡ f b)
  get_elem?-map_inv f k [] a h = cc
  get_elem?-map_inv f zero (x ∷ xs) a h = (x, refl, cc)
  get_elem?-map_inv f (suc k) (x ∷ xs) a h = get_elem?-map_inv f k xs a h

  -- A position of the updated list, from the list before.
  pub get_elem?-modify_inv :
      (i k : ℕ) (f : A → A) (xs : List A) (b : A)
      → get_elem? (modify i f xs) k ≡ some b
      → (a : A) × (get_elem? xs k ≡ some a) × ((b ≡ a) ⊎ (b ≡ f a))
  get_elem?-modify_inv i k f [] b h = cc
  get_elem?-modify_inv zero zero f (x ∷ xs) b h = (x, refl, inr cc)
  get_elem?-modify_inv zero (suc k) f (x ∷ xs) b h = (b, h, inl refl)
  get_elem?-modify_inv (suc i) zero f (x ∷ xs) b h = (x, refl, inl cc)
  get_elem?-modify_inv (suc i) (suc k) f (x ∷ xs) b h = get_elem?-modify_inv i k f xs b h

  pub get_elem?-modify-some :
      (i k : ℕ) (f : A → A) (xs : List A) (a : A)
      → get_elem? xs k ≡ some a
      → (b : A) × (get_elem? (modify i f xs) k ≡ some b) × ((b ≡ a) ⊎ (b ≡ f a))
  get_elem?-modify-some i k f [] a h = cc
  get_elem?-modify-some zero zero f (x ∷ xs) a h = (f x, refl, inr (ap f cc))
  get_elem?-modify-some zero (suc k) f (x ∷ xs) a h = (a, h, inl refl)
  get_elem?-modify-some (suc i) zero f (x ∷ xs) a h = (x, refl, inl cc)
  get_elem?-modify-some (suc i) (suc k) f (x ∷ xs) a h = get_elem?-modify-some i k f xs a h
