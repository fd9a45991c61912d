-- ===== src/Base/Repeats.antt =====
-- Lists of numbers in which none stands twice.
use Prim.Native.Nat.{ℕ, zero, suc, ◌+◌, ◌<◌, ◌≤◌}
use mathlib.Core.Path.{◌≡◌, refl, sym, ap, ◌∙◌}
use mathlib.Core.Logic.{inl, inr}
use mathlib.Core.Bool.{Bool, true, false}
use mathlib.Core.List.{List, [], ◌∷◌}
use native.Mathlib.Omega.{arith}
use texas_holdem.Base.Tests.{◌==◌, ==_refl, Bool-cases}
use texas_holdem.Base.Lists.{length, mem, discard, mem-discard, keep, mem-keep}

-- No number stands twice in the list.
abbrev pub Distinct : List ℕ → Type 0
Distinct [] = Unit
Distinct (k ∷ ks) = (mem k ks ≡ false) × Distinct ks

pub discard-Distinct : (k : ℕ) (xs : List ℕ) → Distinct xs → Distinct (discard k xs)
discard-Distinct k [] d = tt
discard-Distinct k (x ∷ xs) (fresh, d) = ground (arith, mem-discard x k xs, discard-Distinct k xs d)

pub length-discard : (k : ℕ) (xs : List ℕ) → Distinct xs → length xs ≤ suc (length (discard k xs))
length-discard k [] d = omega arith
length-discard k (x ∷ xs) (fresh, d) = elim (Bool-cases (x == k)) [
  | inl here ↦
      let same : x ≡ k = ground arith in
      rw here (omega (arith, all_stay k xs (ap (λ (j : ℕ). mem j xs) (sym same) ∙ fresh)))
  | inr there ↦ rw there (omega (arith, length-discard k xs d))
]
  where
    all_stay : (k : ℕ) (xs : List ℕ) → mem k xs ≡ false → length (discard k xs) ≡ length xs
    all_stay k [] out = refl
    all_stay k (x ∷ xs) out = ground (arith, all_stay k xs)

-- Different numbers of a range of `n` are at most `n`.
pub length-Distinct :
    (lo n : ℕ) (xs : List ℕ)
    → Distinct xs
    → ((k : ℕ) → mem k xs ≡ true → (lo ≤ k) × (k < lo + n))
    → length xs ≤ n
length-Distinct lo zero [] d inside = omega arith
length-Distinct lo zero (x ∷ xs) d inside =
    absurd (omega (arith, inside x (ground (arith, ==_refl x))))
length-Distinct lo (suc n) xs d inside = omega (
  arith,
  length-discard (lo + n) xs d,
  length-Distinct lo n (discard (lo + n) xs) (discard-Distinct (lo + n) xs d)
      (λ k there. ground (arith, mem-discard k (lo + n) xs, inside k)),
)

pub keep-Distinct : (p : ℕ → Bool) (xs : List ℕ) → Distinct xs → Distinct (keep p xs)
keep-Distinct p [] d = tt
keep-Distinct p (x ∷ xs) (fresh, d) = ground (arith, mem-keep x p xs, keep-Distinct p xs d)
