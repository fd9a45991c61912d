-- ===== src/Pots.antt =====
-- The money of one hand: `_pot_layers` of holdem/engine.py, the uncalled-bet refund that `settle`
-- and `settle_forfeit` make before it, and the division of one pot among its winners.
-- Chip counts are natural numbers; a seat is its index in the table's list.
pub mod Layers
pub mod Claims
pub mod Refund
pub mod Tight
pub mod Sole
pub mod Eligible
pub mod Walk
pub mod Payout
use mathlib.Core.Option
unfoldable pub use texas_holdem.Base.Sorting.{insert_down, sort_down}
use texas_holdem.Base.{
  ℕ, zero, suc, ◌+◌, ◌-◌, ◌*◌, ◌/◌, ◌%◌, min, Bool, true, false, ◌&&◌, Option, none, some, List, [],
  ◌∷◌, map, reverse, ltb, leb, ◌==◌, if◌then◌else◌, length, get_or, keep, mem, total, sum,
}

-- `{"amount": …, "eligible": …}`
pub record Pot : Type 0 where
  pub amount : ℕ
  pub eligible : List ℕ

-- `sorted({amount for amount in live if amount > 0})`
unfoldable pub insert_level : ℕ → List ℕ → List ℕ
insert_level a [] = a ∷ []
insert_level a (x ∷ xs) =
    if ltb a x then a ∷ x ∷ xs else if a == x then x ∷ xs else x ∷ insert_level a xs

unfoldable pub levels : List ℕ → List ℕ
unfolding insert_level
levels [] = []
levels (a ∷ live) = if ltb 0 a then insert_level a (levels live) else levels live

-- `sorted(set(seats))`
unfoldable pub seat_set : List ℕ → List ℕ
unfolding insert_level
seat_set [] = []
seat_set (i ∷ seats) = insert_level i (seat_set seats)

-- What the stakes put between the levels `previous` and `level`.
abbrev pub layer : List ℕ → ℕ → ℕ → ℕ
layer live previous level = total (λ stake. min stake level - min stake previous) live

-- `[seat for seat in contenders if live[seat] >= level]`; contenders are seats of the table.
abbrev pub reaching : List ℕ → List ℕ → ℕ → List ℕ
reaching live contenders level = keep (λ seat. leb level (get_or live seat 0)) contenders

abbrev pub same_seats : List ℕ → List ℕ → Bool
same_seats [] [] = true
same_seats [] (y ∷ ys) = false
same_seats (x ∷ xs) [] = false
same_seats (x ∷ xs) (y ∷ ys) = (x == y) && same_seats xs ys

-- The list of pots is kept in reverse while it grows, so `pots[-1]` is its head.
unfoldable pub add_layer : List Pot → ℕ → List ℕ → List Pot
add_layer [] amount eligible = record { amount = amount; eligible = eligible } ∷ []
add_layer (pot ∷ pots) amount eligible =
    if same_seats pot.eligible eligible
    then record pot { amount = pot.amount + amount } ∷ pots
    else record { amount = amount; eligible = eligible } ∷ pot ∷ pots

-- A layer that no contender reaches makes no pot.
unfoldable pub layer_pots : List Pot → ℕ → List ℕ → List Pot
unfolding add_layer
layer_pots pots amount [] = pots
layer_pots pots amount (seat ∷ seats) = add_layer pots amount (seat ∷ seats)

-- The loop over the levels.
unfoldable pub layers : List ℕ → List ℕ → ℕ → List ℕ → List Pot → List Pot
unfolding layer_pots
layers live contenders previous [] pots = pots
layers live contenders previous (level ∷ rest) pots =
    layers live contenders level rest
      (layer_pots pots (layer live previous level) (reaching live contenders level))

abbrev pub pots_total : List Pot → ℕ
pots_total = total λ (pot : Pot). pot.amount

-- The shared dead money comes first, and every contender may win it.
unfoldable pub dead_pot : ℕ → List ℕ → List Pot
dead_pot zero contenders = []
dead_pot (suc n) contenders = record { amount = suc n; eligible = contenders } ∷ []

-- Unmatched forfeited chips join `pots[-1]`.
unfoldable pub add_remaining : ℕ → List ℕ → List Pot → List Pot
add_remaining zero contenders pots = pots
add_remaining (suc n) contenders [] = record { amount = suc n; eligible = contenders } ∷ []
add_remaining (suc n) contenders (pot ∷ pots) = record pot { amount = pot.amount + suc n } ∷ pots

-- The pots, the last one first.
unfoldable pub stacked_pots : List ℕ → List ℕ → List ℕ → List Pot
unfolding levels layers dead_pot
stacked_pots live dead contenders =
    layers live contenders 0 (levels live) (dead_pot (sum dead) contenders)

-- `_pot_layers`
unfoldable pub pot_layers : List ℕ → List ℕ → List ℕ → List Pot
unfolding stacked_pots add_remaining
pot_layers live dead contenders =
    let pots = stacked_pots live dead contenders in
    reverse (add_remaining (sum live + sum dead - pots_total pots) contenders pots)

-- `[i for i in range(n) if live[i] == top]`
abbrev pub seats_at : ℕ → ℕ → List ℕ → List ℕ
seats_at top i [] = []
seats_at top i (x ∷ xs) = if x == top then i ∷ seats_at top (suc i) xs else seats_at top (suc i) xs

abbrev pub sole_seat : List ℕ → ℕ → Option (ℕ × ℕ)
sole_seat (i ∷ []) back = some (i, back)
sole_seat _ back = none

abbrev pub top_gap : List ℕ → List ℕ → Option (ℕ × ℕ)
top_gap live (a ∷ b ∷ rest) = if ltb b a then sole_seat (seats_at a 0 live) (a - b) else none
top_gap live _ = none

-- The uncalled part of the highest live bet: the seat that made it, and the chips that go back.
unfoldable pub uncalled : List ℕ → Option (ℕ × ℕ)
unfolding sort_down
uncalled live = top_gap live (sort_down (keep (ltb 0) live))

-- `while rem > 0`: the seats that an odd chip goes to, walking from `j` round `n` seats. `none` when
-- the fuel runs out.
unfoldable pub odd_seats : ℕ → List ℕ → ℕ → ℕ → ℕ → Option (List ℕ)
odd_seats n winners fuel j zero = some []
odd_seats n winners zero j (suc rem) = none
odd_seats n winners (suc fuel) j (suc rem) =
    let next = (j + 1) % n in
    elim (mem next winners) [
      | true ↦ Option.map (λ seats. next ∷ seats) (odd_seats n winners fuel next rem)
      | false ↦ odd_seats n winners fuel next (suc rem)
    ]

-- `payouts[j] += 1`
unfoldable pub bump : ℕ → List (ℕ × ℕ) → List (ℕ × ℕ)
bump j [] = []
bump j ((i, paid) ∷ rest) = if j == i then (i, paid + 1) ∷ rest else (i, paid) ∷ bump j rest

unfoldable pub bump_all : List ℕ → List (ℕ × ℕ) → List (ℕ × ℕ)
unfolding bump
bump_all [] payouts = payouts
bump_all (j ∷ seats) payouts = bump_all seats (bump j payouts)

-- One pot divided among its winners: equal shares, the odd chips to the first winners left of the
-- button. The fuel is a lap of the table for each odd chip.
unfoldable pub payout : ℕ → ℕ → ℕ → List ℕ → Option (List (ℕ × ℕ))
unfolding odd_seats bump_all
payout n button amount winners =
    let share = amount / length winners in
    let rem = amount % length winners in
    Option.map (λ seats. bump_all seats (map (λ i. (i, share)) winners))
      (odd_seats n winners (rem * n) button rem)
