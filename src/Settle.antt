-- ===== src/Settle.antt =====
-- `settle` of holdem/engine.py, in the order of its numbered steps. `runs` and `force_tabled` are its
-- parameters, and the Boolean `tabled` is `result["tabled"]`.
pub mod Rolling
pub mod RunOuts
pub mod Paying
pub mod Ending
pub mod Best
pub mod Dealing
pub mod Returned
pub mod Finish
pub mod Whole
pub mod Shown
use texas_holdem.Base.{
  ℕ, zero, suc, ◌+◌, ◌-◌, Bool, true, false, ◌&&◌, ◌||◌, not, Option, none, some, List, [], ◌∷◌,
  ◌++◌, map, ltb, ◌==◌, if◌then◌else◌, length, get_elem?, modify, Result, ok, err, ◌>>=◌, or_raise,
  max,
}
use texas_holdem.Cards.{Card, deal}
use texas_holdem.Cards
use texas_holdem.Table.{
  Player, Engine, Street, idle, showdown, Event, pot, contested, is_contesting, next_seat, emit,
}
use texas_holdem.Evaluate.{Score}
use texas_holdem.Pots.{uncalled, pot_layers, seat_set}
use texas_holdem.Positions.{Fault}
use texas_holdem.Streets.{complete_board}
use texas_holdem.Award.{AwardedPot, PotRun, award_pots, all_winners}
use texas_holdem.Award
use texas_holdem.Showdown.{
  Run, Hand, lookup, score_runs, winners_in, show_order, first_to_show, show_hands, seats_shown,
}

pub data Error : Type 0 where
  fault : Fault → Error
  -- The deck is too short for the run-outs.
  short_deck : Error
  -- `while len(self.board) < 5` ran out of its fuel.
  endless_board : Error
  award : Award.Error → Error
  unscored : Error
  no_seat : Error

-- What `settle` returns.
pub record Outcome : Type 0 where
  pub pots : List AwardedPot
  pub refund : Option (ℕ × ℕ)
  pub winners : List ℕ
  pub runs : List Run
  pub order : List ℕ
  pub hands : List Hand
  pub tabled : Bool

-- Step 1: the uncalled live bet goes back.
abbrev pub refunded : ℕ → Player → Player
refunded back p = record p {
  total_live = p.total_live - back;
  stack = p.stack + back;
  all_in = p.stack + back == 0;
}

abbrev pub live_stakes : List Player → List ℕ
live_stakes = map λ (p : Player). p.total_live

unfoldable pub give_refund : Option (ℕ × ℕ) → Engine → Engine
unfolding emit
give_refund none e = e
give_refund (some (i, back)) e =
    let players = modify i (refunded back) e.players in
    emit (Event.refund i back (pot players)) (record e { players = players })

-- Step 2: the table, its boards, and whether the hands are tabled.
pub record Boards : Type 0 where
  pub table : Engine
  pub boards : List (List Card)
  pub tabled : Bool

-- `self.deck.deal(need)` twice, for two run-outs of the board.
abbrev pub or_short {ℓ} : {A : Type ℓ} → Result Cards.Error A → Result Error A
or_short (err reason) = err short_deck
or_short (ok dealt) = ok dealt

unfoldable pub run_twice : Engine → Result Error Boards
unfolding emit deal
run_twice e = do
  let need = 5 - length e.board
  cards ← or_raise e.deck short_deck
  (one, left) ← or_short (deal need cards)
  (two, rest) ← or_short (deal need left)
  let first = e.board ++ one
  let second = e.board ++ two
  let dealt = record e { deck = some rest; board = first; board2 = some second }
  ok (record {
    table = emit (Event.deal_board 2 second) (emit (Event.deal_board 1 first) dealt);
    boards = first ∷ second ∷ [];
    tabled = true;
  })

abbrev pub at_showdown : Bool → Engine → Boards
at_showdown tabled e = record {
  table = record e { street = showdown };
  boards = e.board ∷ [];
  tabled = tabled;
}

-- The board is run out once, in three streets at most.
unfoldable pub run_once : Bool → Engine → Result Error Boards
unfolding complete_board
run_once force_tabled e = elim (complete_board 3 e) [
  | none ↦ err endless_board
  | some (err f) ↦ err (fault f)
  | some (ok after) ↦ ok (at_showdown (force_tabled || ltb (length e.board) 5) after)
]

unfoldable pub run_boards : ℕ → Bool → Engine → Result Error Boards
unfolding run_twice run_once
run_boards runs force_tabled e =
    if ltb 1 (length (contested e.players))
    then (if (runs == 2) && ltb (length e.board) 5 then run_twice e else run_once force_tabled e)
    else ok (record { table = e; boards = e.board ∷ []; tabled = force_tabled })

-- Step 3: the runs are scored if more than one player is left.
unfoldable pub scored : List Player → List (List Card) → Result Error (List Run)
unfolding score_runs
scored alive boards =
    if ltb 1 (length alive) then or_raise (score_runs boards alive) unscored else ok []

-- `max(1, len(result["runs"])) if len(alive) > 1 else 1`
abbrev pub count_runs : List Run → ℕ
count_runs runs = max 1 (length runs)

abbrev pub pot_winners : List AwardedPot → List ℕ
pot_winners [] = []
pot_winners (p ∷ pots) = p.winners ++ pot_winners pots

-- Steps 4 and 5 on the table `e`.
unfoldable pub award_table :
    List Player → List Run → Engine → Result Error (Engine × List AwardedPot)
unfolding award_pots winners_in pot_layers
award_table alive runs e =
    elim (award_pots (winners_in alive runs) e.button (count_runs runs)
      (pot_layers (live_stakes e.players) (map (λ p. p.total_dead) e.players)
        (map (λ p. p.idx) alive))
      e.players) [
        | err reason ↦ err (award reason)
        | ok (players, pots) ↦ ok (record e { players = players }, pots)
      ]

-- Step 6: the hands are shown or mucked in turn.
abbrev pub best_cards : List Run → ℕ → List Card
best_cards [] j = []
best_cards (run ∷ runs) j = elim (lookup j run.best) [ none ↦ [] | some five ↦ five ]

unfoldable pub emit_hands : List Run → List Hand → Engine → Engine
unfolding emit
emit_hands runs [] e = e
emit_hands runs (h ∷ hands) e = emit_hands runs hands (
    emit
      (if h.shown
        then Event.shown h.seat h.score.category h.score.tiebreak (best_cards runs h.seat)
        else Event.mucked h.seat)
      e)

unfoldable pub hands_of : Bool → List ℕ → List Run → List ℕ → Result Error (List Hand)
unfolding show_hands
hands_of tabled winners [] order = err unscored
hands_of tabled winners (run ∷ runs) order =
    or_raise (show_hands tabled winners run.scores none order) unscored

unfoldable pub show_table :
    List Player → Bool → List ℕ → List Run → Engine → Result Error (List ℕ × List Hand × Engine)
unfolding first_to_show show_order hands_of emit_hands
show_table alive tabled winners runs e =
    if ltb 1 (length alive)
    then (do
      start ← or_raise (first_to_show e.river_aggr tabled e.players e.button) no_seat
      let order = show_order e.players start 0 (length e.players)
      hands ← hands_of tabled winners runs order
      ok (order, hands, emit_hands runs hands e))
    else ok ([], [], e)

-- Step 7: the pots are reported. The label of the winning hand is display text.
unfoldable pub emit_runs : ℕ → ℕ → List PotRun → Engine → Engine
unfolding emit
emit_runs k r [] e = e
emit_runs k r (run ∷ runs) e =
    emit_runs k (suc r) runs (emit (Event.award k r run.amount run.winners run.payouts false) e)

-- Everyone else has folded, so the pot has one run.
abbrev pub emit_alone : ℕ → ℕ → List PotRun → Engine → Engine
emit_alone k amount [] e = e
emit_alone k amount (run ∷ runs) e = emit (Event.award k 1 amount run.winners run.payouts true) e

unfoldable pub emit_pot : Bool → ℕ → AwardedPot → Engine → Engine
unfolding emit_runs
emit_pot true k p e = emit_runs k 1 p.runs e
emit_pot false k p e = emit_alone k p.amount p.runs e

unfoldable pub emit_pots : Bool → ℕ → List AwardedPot → Engine → Engine
unfolding emit_pot
emit_pots contest k [] e = e
emit_pots contest k (p ∷ pots) e = emit_pots contest (suc k) pots (emit_pot contest k p e)

abbrev pub clear_pot : Player → Player
clear_pot p = record p { total_live = 0; total_dead = 0; bet = 0 }

abbrev pub go_idle : Engine → Engine
go_idle e = record e { players = map clear_pot e.players; street = idle }

-- Steps 3 to 7, for the players that are left, on the boards of step 2.
unfoldable pub settle_boards :
    Option (ℕ × ℕ) → List Player → Boards → Result Error (Outcome × Engine)
unfolding scored award_table show_table emit_pots
settle_boards refund alive b = do
  runs ← scored alive b.boards
  (paid, pots) ← award_table alive runs b.table
  let winners = seat_set (pot_winners pots)
  (order, hands, shown) ← show_table alive b.tabled winners runs paid
  ok (
    record {
      pots = pots;
      refund = refund;
      winners = winners;
      runs = runs;
      order = order;
      hands = hands;
      tabled = b.tabled;
    },
    go_idle (emit_pots (ltb 1 (length alive)) 0 pots shown),
  )

-- `settle`
unfoldable pub settle : ℕ → Bool → Engine → Result Error (Outcome × Engine)
unfolding give_refund run_boards settle_boards
settle runs force_tabled e = do
  let refund = uncalled (live_stakes e.players)
  let returned = give_refund refund e
  boards ← run_boards runs force_tabled returned
  settle_boards refund (contested returned.players) boards
