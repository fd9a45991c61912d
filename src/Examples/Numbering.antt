-- ===== src/Examples/Numbering.antt =====
-- The seven of hearts, label 31, is card 22 of the engine.
use texas_holdem.Base.{ℕ, ◌+◌, ◌≡◌, refl, false, some, List, [], ◌∷◌, arith, get_elem?, ok, ◌>>=◌}
use texas_holdem.Cards.{full_deck}
use texas_holdem.Table.{Player}
use texas_holdem.Table.Seats.{Seated}
use texas_holdem.Hand.{deal_order}
use texas_holdem.DealMap.Agreement.{seat_deal_order-engine}
use texas_holdem.DealMap.{seat_deal_order, deal_map, position_of, board_positions}
use texas_holdem.Examples.Table.{player, AllFrom-at}
use texas_holdem.DealMap.{elgamal_to_engine_index, engine_to_elgamal_index, card_label}
use texas_holdem.DealMap.Numbering.{translations-inverse, elgamal_to_engine_index-card}

seven_of_hearts : elgamal_to_engine_index 31 ≡ ok 22
unfolding elgamal_to_engine_index
seven_of_hearts = refl

translations-inverse_example :
    ((elgamal_to_engine_index 31 >>= engine_to_elgamal_index) ≡ ok 31)
    × ((engine_to_elgamal_index 31 >>= elgamal_to_engine_index) ≡ ok 31)
translations-inverse_example = translations-inverse 31 (omega arith)

elgamal_to_engine_index-card_example :
    (at : ℕ) × (rank : ℕ) × (suit : ℕ) × (elgamal_to_engine_index 31 ≡ ok at)
    × (card_label 31 ≡ ok (rank, suit))
    × (get_elem? full_deck at ≡ some (record { v = 2 + rank; s = suit }))
elgamal_to_engine_index-card_example = elgamal_to_engine_index-card 31 (omega arith)

-- The button is at seat 1 of four, and seat 3 is empty.
abbrev three_of_four : List Player
three_of_four =
    player 0 100 0
    ∷ player 1 100 0
    ∷ player 2 100 0
    ∷ record (player 3 0 0) { in_seat = false }
    ∷ []

three_of_four-Seated : Seated three_of_four
three_of_four-Seated k p at =
    omega (
      arith,
      AllFrom-at (λ i q. q.idx ≡ i) 0 k three_of_four p (refl, (refl, (refl, (refl, tt)))) at,
    )

seat_deal_order-engine_example : seat_deal_order 1 (0 ∷ 1 ∷ 2 ∷ []) ≡ deal_order three_of_four 1 4
seat_deal_order-engine_example =
    seat_deal_order-engine three_of_four three_of_four-Seated 1 (omega arith)

seat_deal_order_run : seat_deal_order 1 (0 ∷ 1 ∷ 2 ∷ []) ≡ 2 ∷ 0 ∷ 1 ∷ []
unfolding seat_deal_order
seat_deal_order_run = refl

board_positions_run :
    board_positions 1 (0 ∷ 1 ∷ 2 ∷ []) ≡ some 8 ∷ some 7 ∷ some 6 ∷ some 9 ∷ some 10 ∷ []
unfolding deal_map position_of
board_positions_run = refl
