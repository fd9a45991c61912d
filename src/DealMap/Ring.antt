-- ===== src/DealMap/Ring.antt =====
-- Walking once round a ring of seats from the button.
use native.Mathlib.Nat.{mod-eq_of_lt, mod_self}
use mathlib.Core.List.{append-nil}
use texas_holdem.Base.{
  ℕ, zero, suc, ◌+◌, ◌-◌, ◌%◌, ◌≤◌, ◌<◌, ◌≡◌, refl, sym, ap, ◌∙◌, Bool, false, List, [], ◌∷◌, ◌++◌,
  if◌then◌else◌, arith, Bool-cases, inl, inr,
}

-- The seats with `test` on the way round, `rounds` steps from `j`.
unfoldable pub walk : ℕ → (ℕ → Bool) → ℕ → ℕ → List ℕ
walk n test j zero = []
walk n test j (suc rounds) =
    let next = (j + 1) % n in
    let rest = walk n test next rounds in if test next then next ∷ rest else rest

-- The `k` numbers from `lo` on that have `test`.
abbrev pub between : (ℕ → Bool) → ℕ → ℕ → List ℕ
between test lo zero = []
between test lo (suc k) = let rest = between test (suc lo) k in if test lo then lo ∷ rest else rest

module _ (n : ℕ) (test : ℕ → Bool) where
  walk-between :
      (k m j : ℕ)
      → j + k < n
      → walk n test j (k + m) ≡ between test (suc j) k ++ walk n test (j + k) m
  unfolding walk
  walk-between zero m j h =
      let e : j + 0 ≡ j = omega arith in let e' : zero + m ≡ m = omega arith in rw (e, e') refl
  walk-between (suc k) m j h =
      let next : (j + 1) % n ≡ suc j = mod-eq_of_lt (omega arith) ∙ omega arith in
      let e : j + suc k ≡ suc j + k = omega arith in
      let e' : suc k + m ≡ suc (k + m) = omega arith in
      let later = walk-between k m (suc j) (omega arith) in
      rw (e, e', walk)
        (rw next (elim (Bool-cases (test (suc j))) [
          | inl here ↦ rw (here, later) refl
          | inr away ↦ rw (away, later) refl
        ]))

  -- Round the corner.
  walk-wrap : (m : ℕ) → m < n → walk n test (n - 1) (suc m) ≡ between test 0 (suc m)
  unfolding walk
  walk-wrap m h =
      let next : (n - 1 + 1) % n ≡ 0 = ap (λ (k : ℕ). k % n) (omega arith) ∙ mod_self n in
      let e : m + 0 ≡ m = omega arith in
      let later : walk n test 0 m ≡ between test 1 m =
        ap (walk n test 0) (sym e)
        ∙ walk-between m 0 0 (omega arith)
        ∙ append-nil (between test 1 m) in
      rw (next, walk)
        (elim (Bool-cases (test 0)) [
          | inl here ↦ rw (here, later) refl
          | inr away ↦ rw (away, later) refl
        ])

  -- Once round the ring from the button: first the seats after it, then those up to it.
  pub walk-ring :
      (button : ℕ)
      → button < n
      → walk n test button n
        ≡ between test (suc button) (n - suc button) ++ between test 0 (suc button)
  walk-ring button h =
      let k = n - suc button in
      let e : n ≡ k + suc button = omega arith in
      let last : button + k ≡ n - 1 = omega arith in
      ap (walk n test button) e
      ∙ walk-between k (suc button) button (omega arith)
      ∙ ap (λ (j : ℕ). between test (suc button) k ++ walk n test j (suc button)) last
      ∙ ap (λ (xs : List ℕ). between test (suc button) k ++ xs) (walk-wrap button (omega arith))

-- A longer ring with no more seats in it has the same way round.
pub between-add :
    (test : ℕ → Bool) (k l lo : ℕ)
    → between test lo (k + l) ≡ between test lo k ++ between test (lo + k) l
between-add test zero l lo =
    let e : lo + 0 ≡ lo = omega arith in let e' : zero + l ≡ l = omega arith in rw (e, e') refl
between-add test (suc k) l lo =
    let e : suc k + l ≡ suc (k + l) = omega arith in
    let e' : lo + suc k ≡ suc lo + k = omega arith in
    let later = between-add test k l (suc lo) in
    rw (e, e')
      (elim (Bool-cases (test lo)) [
        | inl here ↦ rw (here, later) refl
        | inr away ↦ rw (away, later) refl
      ])

pub between-none :
    (test : ℕ → Bool) (k lo : ℕ) → ((j : ℕ) → lo ≤ j → test j ≡ false) → between test lo k ≡ []
between-none test zero lo out = refl
between-none test (suc k) lo out =
    rw (out lo (omega arith)) (between-none test k (suc lo) (λ j from. out j (omega arith)))

between-cong :
    (test other : ℕ → Bool) (k lo : ℕ)
    → ((j : ℕ) → j < lo + k → test j ≡ other j)
    → between test lo k ≡ between other lo k
between-cong test other zero lo same = refl
between-cong test other (suc k) lo same =
    rw (same lo (omega arith), between-cong test other k (suc lo) (λ j below. same j (omega arith)))
      refl

pub walk-shorter :
    (n ring button : ℕ) (test other : ℕ → Bool)
    → button < ring
    → ring ≤ n
    → ((j : ℕ) → ring ≤ j → other j ≡ false)
    → ((j : ℕ) → j < n → test j ≡ other j)
    → walk n test button n ≡ walk ring other button ring
walk-shorter n ring button test other inside shorter out same =
    let split : n - suc button ≡ (ring - suc button) + (n - ring) = omega arith in
    walk-ring n test button (omega arith)
    ∙ (λ i.
        between-cong test other (n - suc button) (suc button) (λ j below. same j (omega arith)) i
        ++ between-cong test other (suc button) 0 (λ j below. same j (omega arith)) i)
    ∙ ap (λ (xs : List ℕ). xs ++ between other 0 (suc button))
        (ap (between other (suc button)) split
          ∙ between-add other (ring - suc button) (n - ring) (suc button)
          ∙ ap (λ (xs : List ℕ). between other (suc button) (ring - suc button) ++ xs)
              (between-none other (n - ring) (suc button + (ring - suc button))
                (λ j from. out j (omega arith)))
          ∙ append-nil (between other (suc button) (ring - suc button)))
    ∙ sym (walk-ring ring other button inside)

pub walk-none : (n j rounds : ℕ) → walk n (λ k. false) j rounds ≡ []
unfolding walk
walk-none n j zero = refl
walk-none n j (suc rounds) = walk-none n ((j + 1) % n) rounds
