-- ===== src/Streets.antt =====
-- From one street to the next, and the cards that would have come: `next_street` and `peek_runout`
-- of holdem/engine.py, and the loop of `settle` that completes the board.
pub mod Board
pub mod Runout
use texas_holdem.Base.{
  ℕ, zero, suc, ◌+◌, ◌-◌, ◌%◌, min, Bool, true, false, ◌||◌, Option, none, some, List, [], ◌∷◌,
  ◌++◌, map, ltb, if◌then◌else◌, length, drop, take, Result, ok, err, ◌>>=◌, or_raise,
}
use texas_holdem.Cards.{Card, deal}
use texas_holdem.Table.{
  Player, Engine, Round, Street, idle, preflop, flop, turn, river, showdown, Event, blank, emit,
}
use texas_holdem.Betting.{open_round}
use texas_holdem.Positions.{Fault, no_seat, short_deck}

-- The bets are in the pot: a seat starts the street without one.
abbrev pub clear_bet : Player → Player
clear_bet p =
    if p.folded || p.all_in then record p { bet = 0 } else record p { bet = 0; last_action = blank }

abbrev pub clear_street : Engine → Engine
clear_street e = record e {
  players = map clear_bet e.players;
  round = record e.round { current_bet = 0; min_raise = e.bb; raises_this_street = 0 };
}

-- The end of `next_street`: the board is shown, and the seat after the button opens the round. A
-- table without seats raises.
unfoldable pub show_board : Engine → Result Fault Engine
unfolding open_round emit
show_board e =
    if ltb 0 (length e.players)
    then ok (open_round ((e.button + 1) % length e.players) (emit (Event.deal_board 1 e.board) e))
    else err no_seat

-- `self.board += self.deck.deal(n)`, with the street that these cards open.
unfoldable pub deal_street : ℕ → Street → Engine → Result Fault Engine
unfolding show_board deal
deal_street n street e = do
  cards ← or_raise e.deck short_deck
  elim (deal n cards) [
    | err short ↦ err short_deck
    | ok (dealt, left) ↦
        show_board (record e { deck = some left; board = e.board ++ dealt; street = street })
  ]

-- `next_street`
unfoldable pub next_street : Engine → Result Fault Engine
unfolding deal_street show_board
next_street e = elim e.street [
  | preflop ↦ deal_street 3 flop (clear_street e)
  | flop ↦ deal_street 1 turn (clear_street e)
  | turn ↦ deal_street 1 river (clear_street e)
  | river ↦ ok (record (clear_street e) { street = showdown })
  | idle ↦ show_board (clear_street e)
  | showdown ↦ show_board (clear_street e)
]

-- `while len(self.board) < 5: self.next_street()`; `none` when the fuel runs out.
unfoldable pub complete_board : ℕ → Engine → Option (Result Fault Engine)
unfolding next_street
complete_board zero e = if ltb (length e.board) 5 then none else some (ok e)
complete_board (suc fuel) e =
    if ltb (length e.board) 5
    then elim (next_street e) [
      | err fault ↦ some (err fault)
      | ok after ↦ complete_board fuel after
    ]
    else some (ok e)

-- The loop of `peek_runout`: `count` cards from the end of the deck, then one card at a time. The
-- first argument is fuel, and `need` is enough of it.
unfoldable pub peek_cards : ℕ → ℕ → ℕ → List Card → List Card
peek_cards zero count need cards = []
peek_cards (suc fuel) count need cards =
    let rest = peek_cards fuel 1 (need - count) (take (length cards - count) cards) in
    if ltb 0 need then drop (length cards - count) cards ++ rest else []

abbrev pub first_count : List Card → ℕ
first_count [] = 3
first_count (c ∷ board) = 1

-- `peek_runout`
unfoldable pub peek_runout : Engine → List Card
unfolding peek_cards
peek_runout e = peek (5 - length e.board) e.deck
  where
    peek : ℕ → Option (List Card) → List Card
    peek zero deck = []
    peek (suc more) none = []
    peek (suc more) (some cards) =
        peek_cards (suc more) (min (first_count e.board) (suc more)) (suc more) cards
