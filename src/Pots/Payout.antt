-- ===== src/Pots/Payout.antt =====
-- Dividing one pot: `settle` step 5 and its copy in `settle_forfeit`.
use mathlib.Core.Option
use native.Mathlib.Nat.{div-add-mod}
use texas_holdem.Base.{
  ℕ, ◌+◌, ◌*◌, ◌/◌, ◌%◌, ◌≤◌, ◌<◌, ◌≡◌, refl, true, Option, none, some, List, [], ◌∷◌, map, arith,
  mem, length, All, total, steps_to-le,
}
use texas_holdem.Pots.{bump, bump_all, payout}
use texas_holdem.Pots.Walk.{Finds, odd_seats-Finds}

abbrev pub paid : List (ℕ × ℕ) → ℕ
paid = total λ (entry : ℕ × ℕ). entry.1

abbrev pub payees : List (ℕ × ℕ) → List ℕ
payees = map λ (entry : ℕ × ℕ). entry.0

payees-bump : (j : ℕ) (ps : List (ℕ × ℕ)) → payees (bump j ps) ≡ payees ps
unfolding bump
payees-bump j [] = refl
payees-bump j ((i, x) ∷ ps) = ground (arith, payees-bump j ps)

paid-bump : (j : ℕ) (ps : List (ℕ × ℕ)) → mem j (payees ps) ≡ true → paid (bump j ps) ≡ paid ps + 1
unfolding bump
paid-bump j [] h = cc
paid-bump j ((i, x) ∷ ps) h = ground (arith, paid-bump j ps)

payees-bump_all : (js : List ℕ) (ps : List (ℕ × ℕ)) → payees (bump_all js ps) ≡ payees ps
unfolding bump_all
payees-bump_all [] ps = refl
payees-bump_all (j ∷ js) ps = rw (payees-bump_all js (bump j ps)) (payees-bump j ps)

paid-bump_all :
    (js : List ℕ) (ps : List (ℕ × ℕ))
    → All (λ j. mem j (payees ps) ≡ true) js
    → paid (bump_all js ps) ≡ paid ps + length js
unfolding bump_all
paid-bump_all [] ps h = omega arith
paid-bump_all (j ∷ js) ps h =
    omega (arith, paid-bump j ps h.0, paid-bump_all js (bump j ps) (rw (payees-bump j ps) h.1))

-- A seat's payout is the equal share, or more by odd chips.
AllAtLeast-bump :
    (s j : ℕ) (ps : List (ℕ × ℕ))
    → All (λ (entry : ℕ × ℕ). s ≤ entry.1) ps
    → All (λ (entry : ℕ × ℕ). s ≤ entry.1) (bump j ps)
unfolding bump
AllAtLeast-bump s j [] h = h
AllAtLeast-bump s j ((i, x) ∷ ps) h = ground (arith, AllAtLeast-bump s j ps h.1)

AllAtLeast-bump_all :
    (s : ℕ) (js : List ℕ) (ps : List (ℕ × ℕ))
    → All (λ (entry : ℕ × ℕ). s ≤ entry.1) ps
    → All (λ (entry : ℕ × ℕ). s ≤ entry.1) (bump_all js ps)
unfolding bump_all
AllAtLeast-bump_all s [] ps h = h
AllAtLeast-bump_all s (j ∷ js) ps h =
    AllAtLeast-bump_all s js (bump j ps) (AllAtLeast-bump s j ps h)

abbrev equal_shares : ℕ → List ℕ → List (ℕ × ℕ)
equal_shares share = map λ i. (i, share)

paid-equal_shares : (share : ℕ) (ws : List ℕ) → paid (equal_shares share ws) ≡ length ws * share
paid-equal_shares share [] = omega arith
paid-equal_shares share (w ∷ ws) = omega (arith, paid-equal_shares share ws)

payees-equal_shares : (share : ℕ) (ws : List ℕ) → payees (equal_shares share ws) ≡ ws
payees-equal_shares share [] = refl
payees-equal_shares share (w ∷ ws) = rw (payees-equal_shares share ws)

AllAtLeast-equal_shares :
    (share : ℕ) (ws : List ℕ) → All (λ (entry : ℕ × ℕ). share ≤ entry.1) (equal_shares share ws)
AllAtLeast-equal_shares share [] = tt
AllAtLeast-equal_shares share (w ∷ ws) = (omega arith, AllAtLeast-equal_shares share ws)

-- How one pot comes to be divided.
abbrev pub Divides : ℕ → List ℕ → Option (List (ℕ × ℕ)) → Type 0
Divides amount winners none = ⊥
Divides amount winners (some ps) =
    (paid ps ≡ amount)
    × (payees ps ≡ winners)
    × All (λ (entry : ℕ × ℕ). amount / length winners ≤ entry.1) ps

payout-after :
    (amount : ℕ) (winners : List ℕ) (found : Option (List ℕ))
    → Finds winners (amount % length winners) found
    → Divides amount winners (
        Option.map (λ seats. bump_all seats (equal_shares (amount / length winners) winners)) found)
payout-after amount winners none h = h
payout-after amount winners (some seats) h =
    let share = amount / length winners in
    let start = equal_shares share winners in
    (
      omega (
        arith,
        paid-bump_all seats start (rw (payees-equal_shares share winners) h.1),
        paid-equal_shares share winners,
        h.0,
        div-add-mod amount (length winners),
      ),
      rw (payees-bump_all seats start) (payees-equal_shares share winners),
      AllAtLeast-bump_all share seats start (AllAtLeast-equal_shares share winners),
    )

-- Whatever the pot, the odd-chip walk ends; the payouts add up to the pot exactly, each winner has
-- one entry and nobody else has, and no entry is below the equal share.
pub payout-Divides :
    (n button amount : ℕ) (winners : List ℕ) (w : ℕ)
    → button < n
    → w < n
    → mem w winners ≡ true
    → Divides amount winners (payout n button amount winners)
unfolding payout
payout-Divides n button amount winners w hb hw wins = payout-after amount winners _ (
    odd_seats-Finds n w winners hw wins (amount % length winners * n) button
      (amount % length winners) hb (omega (arith, steps_to-le n w button hw hb)))
