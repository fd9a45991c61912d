-- ===== src/Examples/Money.antt =====
-- Pots, refunds and forfeits: seats 0 and 2 contend for 100 and 60 live chips, seat 1 has folded
-- after 80, and seat 3 has put in an ante of 5 only.
use texas_holdem.Base.{ℕ, ◌≡◌, refl, some, List, [], ◌∷◌, arith, All, total}
use texas_holdem.Pots.{Pot, pot_layers, uncalled, payout}
use texas_holdem.Pots.Claims.{claim, pot_layers-claim}
use texas_holdem.Pots.Eligible.{IsOpen, pot_layers-IsOpen}
use texas_holdem.Pots.Layers.{pot_layers-total}
use texas_holdem.Pots.Payout.{Divides, payout-Divides}
use texas_holdem.Pots.Tight.{IsExcess, uncalled-IsExcess}
use texas_holdem.Forfeit.{settle_forfeit}
use texas_holdem.Forfeit.Laws.{Settles, settle_forfeit-Settles}

abbrev live : List ℕ
live = 100 ∷ 80 ∷ 60 ∷ 0 ∷ []

abbrev dead : List ℕ
dead = 0 ∷ 0 ∷ 0 ∷ 5 ∷ []

pots_run :
    pot_layers live dead (0 ∷ 2 ∷ 3 ∷ [])
    ≡ record { amount = 5; eligible = 0 ∷ 2 ∷ 3 ∷ [] }
      ∷ record { amount = 180; eligible = 0 ∷ 2 ∷ [] }
      ∷ record { amount = 60; eligible = 0 ∷ [] }
      ∷ []
unfolding pot_layers
pots_run = refl

uncalled_run : uncalled live ≡ some (0, 20)
unfolding uncalled
uncalled_run = refl

payout_run : payout 4 2 11 (0 ∷ 2 ∷ 3 ∷ []) ≡ some ((0, 4) ∷ (2, 3) ∷ (3, 4) ∷ [])
unfolding payout
payout_run = refl

pot_layers-total_example :
    total (λ (pot : Pot). pot.amount) (pot_layers live dead (0 ∷ 2 ∷ [])) ≡ 245
pot_layers-total_example = pot_layers-total live dead (0 ∷ 2 ∷ [])

pot_layers-claim_example : claim 2 (pot_layers live dead (0 ∷ 2 ∷ 3 ∷ [])) ≡ 185
pot_layers-claim_example = pot_layers-claim live dead (0 ∷ 2 ∷ 3 ∷ []) 2 0 refl refl (omega arith)

pot_layers-IsOpen_example : All (IsOpen (0 ∷ 2 ∷ [])) (pot_layers live dead (0 ∷ 2 ∷ []))
pot_layers-IsOpen_example = pot_layers-IsOpen live dead (0 ∷ 2 ∷ []) 2 refl

uncalled-IsExcess_example : IsExcess live (uncalled live)
uncalled-IsExcess_example = uncalled-IsExcess live

payout-Divides_example : Divides 11 (0 ∷ 2 ∷ 3 ∷ []) (payout 4 2 11 (0 ∷ 2 ∷ 3 ∷ []))
payout-Divides_example = payout-Divides 4 2 11 (0 ∷ 2 ∷ 3 ∷ []) 3 (omega arith) (omega arith) refl

settle_forfeit-Settles_example :
    Settles 645
      (100 ∷ 100 ∷ 100 ∷ 100 ∷ [])
      0
      (settle_forfeit (100 ∷ 100 ∷ 100 ∷ 100 ∷ []) live dead (0 ∷ 2 ∷ 3 ∷ []) 0 1)
settle_forfeit-Settles_example =
    settle_forfeit-Settles (100 ∷ 100 ∷ 100 ∷ 100 ∷ []) live dead (0 ∷ 2 ∷ 3 ∷ []) 0 1 2 refl refl
      (omega arith) (omega arith) refl refl (omega arith)
