-- ===== src/Examples/Settlement.antt =====
-- A hand that ends on the turn with two seats all-in: the river is run twice.
use texas_holdem.Base.{ℕ, ◌≡◌, refl, true, false, some, List, [], ◌∷◌, arith, Result, ok, err}
use texas_holdem.Cards.{Card}
use texas_holdem.Table.{Player, Engine, turn}
use texas_holdem.Table.Seats.{Seated}
use texas_holdem.Evaluate.{
  evaluate, flush_suit, tally_from, group_score, group_ranks, ranks_down, straight_high, pair_score,
  best_five, best_of, combinations, score_lt,
}
use texas_holdem.Pots.{uncalled, payout}
use texas_holdem.Settle.{Error, Outcome, settle}
use texas_holdem.Settle.Ending.{stacks}
use texas_holdem.Examples.Table.{player, table, AllFrom-at}

abbrev pub first_hole : List Card
first_hole = record { v = 14; s = 3 } ∷ record { v = 14; s = 2 } ∷ []

abbrev pub second_hole : List Card
second_hole = record { v = 13; s = 1 } ∷ record { v = 13; s = 0 } ∷ []

abbrev pub turn_board : List Card
turn_board =
    record { v = 2; s = 3 }
    ∷ record { v = 7; s = 1 }
    ∷ record { v = 9; s = 0 }
    ∷ record { v = 11; s = 2 }
    ∷ []

abbrev rivers : List Card
rivers = record { v = 13; s = 2 } ∷ record { v = 4; s = 3 } ∷ []

-- Seat 0 has put in 120 and seat 2 all of its 100; seat 1 has folded after 30.
abbrev pub seats : List Player
seats =
    record (player 0 80 0) { hole = first_hole; total_live = 120 }
    ∷ record (player 1 170 0) { folded = true; total_live = 30 }
    ∷ record (player 2 0 0) { hole = second_hole; total_live = 100; all_in = true }
    ∷ []

abbrev pub over : Engine
over = record table { players = seats; deck = some rivers; board = turn_board; street = turn }

pub seats-Seated : Seated seats
seats-Seated k p at =
    omega (arith, AllFrom-at (λ i q. q.idx ≡ i) 0 k seats p (refl, (refl, (refl, tt))) at)

abbrev stacks_after : Result Error (Outcome × Engine) → List ℕ
stacks_after (err reason) = []
stacks_after (ok (outcome, f)) = stacks f.players

-- The aces win the first run and the kings the second, 115 chips each.
settle_run : stacks_after (settle 2 false over) ≡ 215 ∷ 170 ∷ 115 ∷ []
unfolding settle uncalled evaluate flush_suit tally_from group_score group_ranks ranks_down
    straight_high pair_score best_five best_of combinations score_lt payout
settle_run = refl
