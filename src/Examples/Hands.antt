-- ===== src/Examples/Hands.antt =====
-- Hands from their start: three seats before the deal, and the streets after it.
use texas_holdem.Base.{
  ℕ, ◌+◌, ◌≡◌, refl, true, some, none, List, [], ◌∷◌, ◌++◌, take, length, total, arith, ok,
}
use texas_holdem.Cards.{Card, full_deck}
use texas_holdem.Table.{Engine, idle, flop}
use texas_holdem.Table.Seats.{Seated}
use texas_holdem.Betting.{open_round}
use texas_holdem.Betting.Turns.{Inv}
use texas_holdem.Betting.Chips.{bank}
use texas_holdem.Betting.Opening.{Opens, open_round-Opens}
use texas_holdem.Hand.{start_hand}
use texas_holdem.Hand.Posting.{held}
use texas_holdem.Hand.Start.{start_hand-Inv}
use texas_holdem.Streets.{next_street, complete_board, peek_runout}
use texas_holdem.Streets.Board.{Continues, next_street-Continues}
use texas_holdem.Streets.Runout.{complete_board-peek_runout}
use texas_holdem.Examples.Table.{player, table, AllFrom-at, value}
use texas_holdem.Examples.Rounds.{table-Ready}

abbrev cards : List Card
unfolding full_deck
cards = take 12 full_deck

abbrev waiting : Engine
waiting = record table {
  players = player 0 200 0 ∷ player 1 100 0 ∷ player 2 45 0 ∷ [];
  street = idle;
}

abbrev second {ℓ} : {A : Type 0} {B : Type ℓ} → A × B → B
second p = p.1

abbrev started : Engine
started = second (value (true, waiting) (start_hand (some (λ i. true)) none cards waiting))

waiting-Seated : Seated waiting.players
waiting-Seated =
    λ k p at. omega (arith, AllFrom-at (λ i q. q.idx ≡ i) 0 k waiting.players p (omega arith) at)

start_hand-Inv_example :
    Inv started
    × (bank started ≡ 345)
    × ((left : List Card) × (started.deck ≡ some left)
        × ((m : Card → ℕ) → total m left + held m started.players ≡ total m cards))
unfolding start_hand full_deck
start_hand-Inv_example =
    start_hand-Inv (some (λ i. true)) none cards waiting started (omega arith) (omega arith)
      waiting-Seated refl

open_round-Opens_example : Inv (open_round 1 table) × Opens 1 table (open_round 1 table)
open_round-Opens_example = open_round-Opens 1 table table-Ready

started-Inv : Inv started
unfolding start_hand full_deck
started-Inv =
    (start_hand-Inv (some (λ i. true)) none cards waiting started (omega arith) (omega arith)
      waiting-Seated refl).0

abbrev on_flop : Engine
on_flop = value started (next_street started)

flop_run : (length on_flop.board ≡ 3) × (on_flop.street ≡ flop)
unfolding start_hand next_street full_deck
flop_run = (refl, refl)

next_street-Continues_example : Continues started on_flop
unfolding start_hand next_street full_deck
next_street-Continues_example = next_street-Continues started on_flop started-Inv refl

complete_board-peek_runout_example :
    (f : Engine) × (complete_board 3 started ≡ some (ok f)) × (f.board ≡ [] ++ peek_runout started)
unfolding start_hand full_deck
complete_board-peek_runout_example =
    complete_board-peek_runout (take 6 cards) started (omega arith) refl refl (omega arith)
