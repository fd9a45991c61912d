-- ===== src/Examples/Cashouts.antt =====
-- A hand of four all-in seats that the first one cashes out.
use texas_holdem.Base.{ℕ, ◌*◌, ◌/◌, ◌≡◌, refl, none, List, [], ◌∷◌, arith, sum}
use texas_holdem.Base.Int.{pos, negsuc, ◌+ℤ◌}
use texas_holdem.Pots.{Pot}
use texas_holdem.Cashout.{Cashout, cashout_split, hero_parts}
use texas_holdem.Cashout.Parts.{hero_parts-sum}
use texas_holdem.Examples.Table.{value}

abbrev stakes : List ℕ
stakes = 35 ∷ 35 ∷ 20 ∷ 10 ∷ []

abbrev four : List ℕ
four = 0 ∷ 1 ∷ 2 ∷ 3 ∷ []

-- An equity of 1, and a fee of a hundredth.
abbrev certain : ℕ → ℕ
certain pot = pot

abbrev less_fee : ℕ → ℕ
less_fee gross = gross * 99 / 100

abbrev pots : List Pot
pots =
    record { amount = 40; eligible = four }
    ∷ record { amount = 30; eligible = 0 ∷ 1 ∷ 2 ∷ [] }
    ∷ record { amount = 30; eligible = 0 ∷ 1 ∷ [] }
    ∷ []

hero_parts-sum_example : sum (hero_parts 99 100 pots) ≡ 99
hero_parts-sum_example = hero_parts-sum 99 pots (omega arith)

abbrev no_split : Cashout
no_split = record { payouts = []; refund = none; eligible_pot = 0; gross = 0; net = 0; fee = pos 0 }

-- The hero takes 41 chips for its part of a pot of 40, and the last seat pays one.
cashout_run :
    (value no_split (cashout_split certain less_fee stakes [] 0 four)).payouts
    ≡ pos 99 ∷ pos 2 ∷ pos 0 ∷ negsuc 0 ∷ []
unfolding cashout_split ◌+ℤ◌
cashout_run = refl
