-- ===== src/Base/Sorting.antt =====
-- `sorted(xs, reverse=True)` on numbers.
use Prim.Native.Nat.{ℕ, suc}
use mathlib.Core.Path.{◌≡◌, refl, ◌∙◌, ap}
use mathlib.Core.List.{List, [], ◌∷◌}
use native.Mathlib.Omega.{arith}
use texas_holdem.Base.Tests.{leb, if◌then◌else◌}
use texas_holdem.Base.Lists.{length}

unfoldable pub insert_down : ℕ → List ℕ → List ℕ
insert_down a [] = a ∷ []
insert_down a (x ∷ xs) = if leb x a then a ∷ x ∷ xs else x ∷ insert_down a xs

unfoldable pub sort_down : List ℕ → List ℕ
unfolding insert_down
sort_down [] = []
sort_down (a ∷ xs) = insert_down a (sort_down xs)

-- The order of insertion does not matter.
pub insert_down_comm :
    (a b : ℕ) (xs : List ℕ) → insert_down a (insert_down b xs) ≡ insert_down b (insert_down a xs)
unfolding insert_down
insert_down_comm a b [] = ground arith
insert_down_comm a b (x ∷ xs) = ground (arith, insert_down_comm a b xs)

length-insert_down : (a : ℕ) (xs : List ℕ) → length (insert_down a xs) ≡ suc (length xs)
unfolding insert_down
length-insert_down a [] = refl
length-insert_down a (x ∷ xs) = ground (arith, length-insert_down a xs)

pub length-sort_down : (xs : List ℕ) → length (sort_down xs) ≡ length xs
unfolding sort_down
length-sort_down [] = refl
length-sort_down (a ∷ xs) = length-insert_down a (sort_down xs) ∙ ap suc (length-sort_down xs)
