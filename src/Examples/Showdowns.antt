-- ===== src/Examples/Showdowns.antt =====
-- A replica between the streets and at its showdown.
use texas_holdem.Base.{
  ℕ, ◌≡◌, ◌≤◌, refl, true, false, some, none, Option, List, [], ◌∷◌, ◌++◌, arith, ok, sum,
}
use texas_holdem.Cards.{Card}
use texas_holdem.Table.{river}
use texas_holdem.Betting.Turns.{Inv}
use texas_holdem.Showdown.Scores.{IsHand}
use texas_holdem.Settle.{Outcome}
use texas_holdem.Settle.Dealing.{from_total}
use texas_holdem.Settle.Whole.{IsOver, Settled}
use texas_holdem.Replica.{street_over, showdown, Replica, is_settled, set_own_hole, stacks_of}
use texas_holdem.Replica.Showdown.{advance_street, set_all_holes, state_digest, finish_hand}
use texas_holdem.Replica.Digests.{holes-digest}
use texas_holdem.Replica.Streets.{advance_street-Deals}
use texas_holdem.Replica.Money.{playing}
use texas_holdem.Replica.Ending.{finish_hand-Settled}
use texas_holdem.Examples.Table.{AllFrom-at, value}
use texas_holdem.Examples.Settlement.{
  first_hole, second_hole, turn_board, seats, over, seats-Seated,
}

-- The dummy deck still has cards of the real deal.
abbrev dummies : List Card
dummies = record { v = 14; s = 3 } ∷ record { v = 4; s = 3 } ∷ []

abbrev river_card : Card
river_card = record { v = 13; s = 2 }

abbrev on_turn : Replica
on_turn = record {
  live = record {
    engine = record over { deck = some dummies; round = record over.round { current_bet = 0 } };
    phase = street_over;
  };
  hand_no = 1;
  start_total = 500;
  next_seq = 7;
  pending = [];
  result = none;
  real_holes = 0 ∷ [];
}

advance_street-Deals_example :
    (f : Replica) × (advance_street (some river_card ∷ []) on_turn ≡ ok f)
    × (f.engine.board ≡ turn_board ++ river_card ∷ [])
    × (f.engine.deck ≡ some dummies)
    × (f.engine.street ≡ river)
    × (f.next_seq ≡ 7)
advance_street-Deals_example =
    advance_street-Deals (some river_card ∷ []) on_turn 1 (river_card ∷ []) dummies refl refl refl
      refl (omega arith)

abbrev at_showdown : Replica
at_showdown = record on_turn {
  live = record {
    engine = record on_turn.engine { board = turn_board ++ river_card ∷ []; street = river };
    phase = showdown;
  };
  real_holes = 2 ∷ 0 ∷ [];
}

at_showdown-Inv : Inv at_showdown.engine
at_showdown-Inv = record {
  blinds = omega arith;
  opened = record {
    seated = seats-Seated;
    covered = λ k p at. AllFrom-at (λ i q. q.bet ≤ 0) 0 k seats p (omega arith) at;
    movers = λ k h. cc;
    pending = λ k p at able less. absurd (omega arith);
    least = omega arith;
  };
  turn = λ k below. refl;
}

first-IsHand : IsHand (first_hole ++ (turn_board ++ river_card ∷ []))
first-IsHand = record {
  deck = from_total (first_hole ++ (turn_board ++ river_card ∷ [])) refl;
  five = omega arith;
  four_suits = λ v. ground arith;
}

second-IsHand : IsHand (second_hole ++ (turn_board ++ river_card ∷ []))
second-IsHand = record {
  deck = from_total (second_hole ++ (turn_board ++ river_card ∷ [])) refl;
  five = omega arith;
  four_suits = λ v. ground arith;
}

at_showdown-IsOver : IsOver at_showdown.engine dummies
at_showdown-IsOver = record {
  seated = seats-Seated;
  has_button = omega arith;
  some_left = omega arith;
  has_deck = refl;
  has_board = λ several. (refl, omega arith);
  hands = λ several. (first-IsHand, (second-IsHand, tt));
}

finish_hand-Settled_example :
    (f : Replica) × (outcome : Outcome) × (finish_hand false at_showdown ≡ ok f)
    × (is_settled f.phase ≡ true)
    × (f.result ≡ some outcome)
    × (sum (stacks_of f.engine) ≡ 500)
    × Settled at_showdown.engine [] outcome f.engine
finish_hand-Settled_example =
    finish_hand-Settled false at_showdown dummies (playing refl at_showdown-Inv refl) refl
      at_showdown-IsOver (λ several. (omega arith, (refl, (refl, tt))))

abbrev own : List (Option Card)
own = some record { v = 14; s = 3 } ∷ some record { v = 14; s = 2 } ∷ []

abbrev others : List (ℕ × List (Option Card))
others = (2, some record { v = 13; s = 1 } ∷ some record { v = 13; s = 0 } ∷ []) ∷ []

abbrev owned : Replica
owned = value at_showdown (set_own_hole 0 own at_showdown)

abbrev revealed : Replica
revealed = value owned (set_all_holes others owned)

holes-digest_example :
    (state_digest owned ≡ state_digest at_showdown)
    × (state_digest revealed ≡ state_digest at_showdown)
unfolding set_own_hole set_all_holes
holes-digest_example = holes-digest at_showdown owned revealed 0 own others refl refl
