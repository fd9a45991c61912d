-- ===== src/Pots/Eligible.antt =====
-- Who may win the pots of `_pot_layers`.
use texas_holdem.Base.{
  ℕ, zero, suc, ◌+◌, ◌-◌, ◌≡◌, true, List, [], ◌∷◌, arith, leb, mem, mem-keep, All, All-reverse,
  sum, get_or, inl, inr, Bool-cases, ==_refl,
}
use texas_holdem.Pots.{
  Pot, levels, layer, reaching, add_layer, layer_pots, layers, pots_total, dead_pot, add_remaining,
  stacked_pots, pot_layers, same_seats,
}

-- Somebody can win the pot, and whoever can is a contender.
abbrev pub IsOpen : List ℕ → Pot → Type 0
IsOpen contenders pot =
    ((k : ℕ) × (mem k pot.eligible ≡ true))
    × ((k : ℕ) → mem k pot.eligible ≡ true → mem k contenders ≡ true)

abbrev AllOpen : List ℕ → List Pot → Type 0
AllOpen contenders = All (IsOpen contenders)

add_layer-IsOpen :
    (contenders : List ℕ) (pots : List Pot) (amount : ℕ) (eligible : List ℕ)
    → AllOpen contenders pots
    → IsOpen contenders (record { amount = amount; eligible = eligible })
    → AllOpen contenders (add_layer pots amount eligible)
unfolding add_layer
add_layer-IsOpen contenders [] amount eligible h o = (o, tt)
add_layer-IsOpen contenders (pot ∷ pots) amount eligible h o =
    elim (Bool-cases (same_seats pot.eligible eligible)) [
      | inl same ↦ rw same h
      | inr apart ↦ rw apart (o, h)
    ]

layer_pots-IsOpen :
    (contenders : List ℕ) (pots : List Pot) (amount : ℕ) (eligible : List ℕ)
    → AllOpen contenders pots
    → ((k : ℕ) → mem k eligible ≡ true → mem k contenders ≡ true)
    → AllOpen contenders (layer_pots pots amount eligible)
unfolding layer_pots
layer_pots-IsOpen contenders pots amount [] h inside = h
layer_pots-IsOpen contenders pots amount (seat ∷ seats) h inside =
    add_layer-IsOpen contenders pots amount (seat ∷ seats) h ((seat, rw (==_refl seat)), inside)

layers-IsOpen :
    (live contenders : List ℕ) (previous : ℕ) (ls : List ℕ) (pots : List Pot)
    → AllOpen contenders pots
    → AllOpen contenders (layers live contenders previous ls pots)
unfolding layers
layers-IsOpen live contenders previous [] pots h = h
layers-IsOpen live contenders previous (level ∷ rest) pots h =
    layers-IsOpen live contenders level rest _ (
      layer_pots-IsOpen contenders pots (layer live previous level) (reaching live contenders level)
        h
        (λ k member.
          ground (arith, mem-keep k (λ seat. leb level (get_or live seat 0)) contenders)))

dead_pot-IsOpen :
    (n seat : ℕ) (contenders : List ℕ)
    → mem seat contenders ≡ true
    → AllOpen contenders (dead_pot n contenders)
unfolding dead_pot
dead_pot-IsOpen zero seat contenders h = tt
dead_pot-IsOpen (suc n) seat contenders h = (((seat, h), λ k member. member), tt)

add_remaining-IsOpen :
    (n seat : ℕ) (contenders : List ℕ) (pots : List Pot)
    → mem seat contenders ≡ true
    → AllOpen contenders pots
    → AllOpen contenders (add_remaining n contenders pots)
unfolding add_remaining
add_remaining-IsOpen zero seat contenders pots h o = o
add_remaining-IsOpen (suc n) seat contenders [] h o = (((seat, h), λ k member. member), tt)
add_remaining-IsOpen (suc n) seat contenders (pot ∷ pots) h o = o

-- As long as somebody contends, every pot has a seat that can win it, and only contenders can.
pub pot_layers-IsOpen :
    (live dead contenders : List ℕ) (seat : ℕ)
    → mem seat contenders ≡ true
    → All (IsOpen contenders) (pot_layers live dead contenders)
unfolding pot_layers stacked_pots
pot_layers-IsOpen live dead contenders seat h =
    let pots = stacked_pots live dead contenders in
    let left = sum live + sum dead - pots_total pots in
    All-reverse (IsOpen contenders) (add_remaining left contenders pots) (
      add_remaining-IsOpen left seat contenders pots h (
        layers-IsOpen live contenders 0 (levels live) (dead_pot (sum dead) contenders)
          (dead_pot-IsOpen (sum dead) seat contenders h)))
