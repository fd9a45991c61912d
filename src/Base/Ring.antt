-- ===== src/Base/Ring.antt =====
-- Walking round a table of `n` seats: `(j + 1) % n`.
use native.Mathlib.Nat.{mod-lt, mod-eq_of_lt, mod-eq-sub-mod}
use Prim.Native.Nat.{ℕ, suc, ◌+◌, ◌-◌, ◌%◌, ◌<◌, ◌≤◌}
use mathlib.Core.Path.{◌≡◌}
use mathlib.Core.Logic.{◌⊎◌, inl, inr, ◌≢◌}
use native.Mathlib.Omega.{arith}
use texas_holdem.Base.Tests.{ltb, if◌then◌else◌, Bool-cases}

mod-self_lem : (n : ℕ) → 0 < n → n % n ≡ 0
mod-self_lem n h = grind (arith, mod-eq-sub-mod {n = n} {m = n}, mod-eq_of_lt {n = 0} {m = n})

pub next-lt : (n j : ℕ) → 0 < n → (j + 1) % n < n
next-lt n j h = mod-lt (j + 1) h

pub next_cases :
    (n j : ℕ) → j < n → ((suc j < n) × ((j + 1) % n ≡ suc j)) ⊎ ((suc j ≡ n) × ((j + 1) % n ≡ 0))
next_cases n j h = elim (Bool-cases (ltb (suc j) n)) [
  | inl inside ↦ inl (ground arith, grind (arith, mod-eq_of_lt {n = suc j} {m = n}))
  | inr last ↦
      inr (ground arith, let e : j + 1 ≡ n = ground arith in rw e (mod-self_lem n (omega arith)))
]

-- The steps from seat `j` on to seat `w`, a full lap if they are the same.
abbrev pub steps_to : ℕ → ℕ → ℕ → ℕ
steps_to n w j = if ltb j w then w - j else w + n - j

pub steps_to-le : (n w j : ℕ) → w < n → j < n → steps_to n w j ≤ n
steps_to-le n w j hw hj = ground arith

-- A step that does not arrive comes one nearer.
pub steps_to-next :
    (n w j : ℕ)
    → w < n
    → j < n
    → (j + 1) % n ≢ w
    → suc (steps_to n w ((j + 1) % n)) ≡ steps_to n w j
steps_to-next n w j hw hj ne = ground (arith, next_cases n j hj)

pub steps_to-pos : (n w j : ℕ) → w < n → j < n → 0 < steps_to n w j
steps_to-pos n w j hw hj = ground arith
