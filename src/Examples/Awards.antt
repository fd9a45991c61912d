-- ===== src/Examples/Awards.antt =====
-- Pots awarded on the three-handed table: seats 0 and 2 contend, and tie in both runs.
use texas_holdem.Base.{ℕ, ◌≡◌, refl, Option, some, List, [], ◌∷◌}
use texas_holdem.Pots.{Pot}
use texas_holdem.Award.{run_shares}

abbrev tie : ℕ → List ℕ → Option (List ℕ)
tie r eligible = some eligible

abbrev pots : List Pot
pots =
    record { amount = 91; eligible = 0 ∷ 2 ∷ [] } ∷ record { amount = 30; eligible = 0 ∷ [] } ∷ []

shares_run : run_shares 91 2 ≡ 46 ∷ 45 ∷ []
unfolding run_shares
shares_run = refl
