-- ===== src/Cashout/Kept.antt =====
-- The eligible seats of a pot, by a property that holds of all contenders and of those who reach a level.
use texas_holdem.Base.{
  ℕ, zero, suc, ◌+◌, ◌-◌, List, [], ◌∷◌, All, All-reverse, sum, inl, inr, Bool-cases,
}
use texas_holdem.Pots.{
  Pot, levels, layer, reaching, add_layer, layer_pots, layers, pots_total, dead_pot, add_remaining,
  stacked_pots, pot_layers, same_seats,
}

module _ (P : List ℕ → Type 0) (live contenders : List ℕ) (of_all : P contenders)
    (of_level : (level : ℕ) → P (reaching live contenders level)) where
  abbrev AllKept : List Pot → Type 0
  AllKept = All λ (pot : Pot). P pot.eligible

  layer_pots-AllKept :
      (pots : List Pot) (amount : ℕ) (eligible : List ℕ)
      → AllKept pots
      → P eligible
      → AllKept (layer_pots pots amount eligible)
  unfolding layer_pots add_layer
  layer_pots-AllKept pots amount [] h kept = h
  layer_pots-AllKept [] amount (seat ∷ seats) h kept = (kept, tt)
  layer_pots-AllKept (pot ∷ pots) amount (seat ∷ seats) h kept =
      elim (Bool-cases (same_seats pot.eligible (seat ∷ seats))) [
        | inl same ↦ rw same h
        | inr apart ↦ rw apart (kept, h)
      ]

  layers-AllKept :
      (previous : ℕ) (ls : List ℕ) (pots : List Pot)
      → AllKept pots
      → AllKept (layers live contenders previous ls pots)
  unfolding layers
  layers-AllKept previous [] pots h = h
  layers-AllKept previous (level ∷ rest) pots h = layers-AllKept level rest _ (
      layer_pots-AllKept pots (layer live previous level) (reaching live contenders level) h
        (of_level level))

  dead_pot-AllKept : (n : ℕ) → AllKept (dead_pot n contenders)
  unfolding dead_pot
  dead_pot-AllKept zero = tt
  dead_pot-AllKept (suc n) = (of_all, tt)

  add_remaining-AllKept :
      (n : ℕ) (pots : List Pot) → AllKept pots → AllKept (add_remaining n contenders pots)
  unfolding add_remaining
  add_remaining-AllKept zero pots h = h
  add_remaining-AllKept (suc n) [] h = (of_all, tt)
  add_remaining-AllKept (suc n) (pot ∷ pots) h = h

  pub pot_layers-AllKept : (dead : List ℕ) → AllKept (pot_layers live dead contenders)
  unfolding pot_layers stacked_pots
  pot_layers-AllKept dead =
      let pots = stacked_pots live dead contenders in
      let left = sum live + sum dead - pots_total pots in
      All-reverse (λ (pot : Pot). P pot.eligible) (add_remaining left contenders pots)
        (add_remaining-AllKept left pots (
          layers-AllKept 0 (levels live) (dead_pot (sum dead) contenders)
            (dead_pot-AllKept (sum dead))))
