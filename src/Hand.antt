-- ===== src/Hand.antt =====
-- Starting a hand: `start_hand`, `_post` and `_post_dead` of holdem/engine.py.
pub mod Posting
pub mod Deals
pub mod Start
use texas_holdem.Base.{
  ℕ, zero, suc, ◌+◌, ◌-◌, ◌*◌, ◌%◌, min, max, Bool, true, false, ◌&&◌, ◌||◌, not, Option, none,
  some, List, [], ◌∷◌, ◌++◌, map, ltb, leb, ◌==◌, if◌then◌else◌, length, get_elem?, keep, mem,
  modify, total, Result, ok, err, ◌>>=◌, or_raise, drop, take,
}
use texas_holdem.Cards.{Card, deal}
use texas_holdem.Table.{
  Player, Engine, Config, Round, Positions, Structure, fixed_limit, Street, idle, preflop, flop,
  turn, river, showdown, Event, Blind, LastAction, blank, pot, seated, idx_where, next_seat,
  holds_at, emit, commit,
}
use texas_holdem.Table
use texas_holdem.Betting.{open_round}
use texas_holdem.Positions.{Fault, no_seat, short_deck, is_dealt, advance_positions}

-- Player `i` has become `p`, and an event reports the post.
abbrev pub post_event : ℕ → Blind → ℕ → Bool → Player → Engine → Engine
post_event i label amount dead p e =
    let players = modify i (λ _. p) e.players in
    emit (Table.Event.post_blind i label amount p.all_in dead (pot players))
      (record e { players = players })

-- `_post`; `none` is an IndexError.
unfoldable pub post : ℕ → ℕ → Blind → Engine → Result Fault Engine
unfolding commit emit
post i amount label e = do
  p ← or_raise (get_elem? e.players i) no_seat
  let paid = min amount p.stack
  ok (
      post_event i label paid false
        (record (commit p paid) { last_action = LastAction.posted label paid }) e)

-- The dead money of `_post_dead`.
unfoldable pub pay_dead : Player → ℕ → Player
pay_dead p amount =
    let paid = min amount p.stack in
    record p {
      stack = p.stack - paid;
      total_dead = p.total_dead + paid;
      all_in = p.all_in || (p.stack - paid == 0);
    }

-- `_post_dead`
unfoldable pub post_dead : ℕ → ℕ → Blind → Engine → Result Fault Engine
unfolding pay_dead emit
post_dead i amount label e = do
  p ← or_raise (get_elem? e.players i) no_seat
  ok (post_event i label (min amount p.stack) true (pay_dead p amount) e)

-- The loop at the head of `start_hand`.
abbrev pub reset_player : Bool → Player → Player
reset_player out p = record p {
  in_seat = is_dealt out p;
  hole = [];
  folded = not (is_dealt out p);
  all_in = false;
  bet = 0;
  total_live = 0;
  total_dead = 0;
  last_action = blank;
  won = 0;
}

unfoldable pub new_hand : List Card → List Player → Engine → Engine
unfolding emit
new_hand cards players e =
    emit (Table.Event.hand_started e.sb e.bb (if e.bb_ante then e.bb else 0)) (record e {
      players = players;
      deck = some cards;
      board = [];
      board2 = none;
      street = preflop;
      round = record e.round {
        current_bet = 0;
        min_raise = e.bb;
        raises_this_street = 0;
        river_aggr = none;
      };
      positions = record e.positions { straddler = none; sb_i = none };
      public_events = [];
      event_seq = 0;
      hand_no = e.hand_no + 1;
    })

-- The small blind, which is dead on a seat that is not in the hand.
unfoldable pub post_small : ℕ → Engine → Result Fault Engine
unfolding post
post_small seat e = do
  p ← or_raise (get_elem? e.players seat) no_seat
  if p.in_seat
      then (do
        after ← post seat e.sb Table.Blind.sb e
        ok (record after { positions = record after.positions { sb_i = some seat } }))
      else ok (emit Table.Event.dead_small_blind e)

-- The big blind, and its ante.
unfoldable pub post_big : ℕ → Engine → Result Fault Engine
unfolding post post_dead
post_big seat e = do
  after ←
      post seat e.bb Table.Blind.bb
        (record e { positions = record e.positions { bb_i = some seat } })
  if e.bb_ante then post_dead seat e.bb Table.Blind.ante after else ok after

abbrev pub entered : Player → Player
entered p = record p { post_entry = false; owes_bb = false; owes_sb = false; wait_for_bb = false }

abbrev pub clear_entry : ℕ → Engine → Engine
clear_entry i e = record e { players = modify i entered e.players }

-- The posts of a seat that enters or returns, at a seat that is in the hand.
unfoldable pub entry_post : ℕ → ℕ → ℕ → Engine → Result Fault Engine
unfolding post post_dead
entry_post sb_seat bb_seat i e = do
  p ← or_raise (get_elem? e.players i) no_seat
  if p.post_entry && not (i == sb_seat || i == bb_seat)
      then (do
        posted ← post i e.bb Table.Blind.entry_post e
        after ← if p.owes_sb then post_dead i e.sb Table.Blind.dead_sb posted else ok posted
        ok (clear_entry i after))
      else ok (clear_entry i e)

unfoldable pub entry_posts : ℕ → ℕ → List ℕ → Engine → Result Fault Engine
unfolding entry_post
entry_posts sb_seat bb_seat [] e = ok e
entry_posts sb_seat bb_seat (i ∷ seats) e =
    entry_post sb_seat bb_seat i e >>= entry_posts sb_seat bb_seat seats

-- `max(p.bet for p in self.players)`
abbrev pub highest_bet : List Player → ℕ
highest_bet [] = 0
highest_bet (p ∷ players) = max p.bet (highest_bet players)

-- Callers owe the full big blind, however short the big blind is.
abbrev pub bring_in : Engine → Engine
bring_in e = record e { round = record e.round { current_bet = max e.bb (highest_bet e.players) } }

abbrev pub big_bet : Structure → Bool
big_bet fixed_limit = false
big_bet _ = true

-- The straddle that the seat `utg` has decided on; the second result is the first seat to act.
unfoldable pub post_straddle : ℕ → Engine → Result Fault (Engine × Option ℕ)
unfolding post emit
post_straddle utg e = do
  posted ← post utg (2 * e.bb) Table.Blind.str e
  u ← or_raise (get_elem? posted.players utg) no_seat
  let raised = record posted {
    positions = record posted.positions { straddler = some utg };
    round = record posted.round {
      current_bet = max posted.current_bet u.bet;
      min_raise = max posted.min_raise (2 * e.bb);
    };
  }
  ok (
    emit (Table.Event.post_blind utg Table.Blind.straddle u.bet u.all_in false (pot raised.players))
        raised,
    next_seat raised.players utg (λ q. q.in_seat),
  )

-- The optional straddle left of the big blind. `straddles` is the callback, if there is one.
unfoldable pub straddle : Option (ℕ → Bool) → ℕ → ℕ → Engine → Result Fault (Engine × Option ℕ)
unfolding post_straddle next_seat
straddle none live bb_seat e = ok (e, none)
straddle (some straddles) live bb_seat e =
    if leb 3 live && big_bet e.structure
    then (do
      utg ← or_raise (next_seat e.players bb_seat (λ q. q.in_seat)) no_seat
      u ← or_raise (get_elem? e.players utg) no_seat
      if ltb 0 u.stack && not u.all_in && straddles utg then post_straddle utg e else ok (e, none))
    else ok (e, none)

-- The seats of the hand in the order of the deal, from the left of the button.
unfoldable pub deal_order : List Player → ℕ → ℕ → List ℕ
deal_order players j zero = []
deal_order players j (suc rounds) =
    let next = (j + 1) % length players in
    let rest = deal_order players next rounds in
    if holds_at players (λ p. p.in_seat) next then next ∷ rest else rest

-- One card to each seat of the order.
unfoldable pub deal_round :
    List ℕ → List Card → List Player → Result Fault (List Card × List Player)
unfolding deal
deal_round [] cards players = ok (cards, players)
deal_round (i ∷ order) cards players = elim (deal 1 cards) [
  | err short ↦ err short_deck
  | ok (dealt, left) ↦
      deal_round order left (modify i (λ p. record p { hole = p.hole ++ dealt }) players)
]

-- Two rounds of hole cards.
unfoldable pub deal_holes : Engine → Result Fault Engine
unfolding deal_round deal_order
deal_holes e = do
  cards ← or_raise e.deck short_deck
  let order = deal_order e.players e.button (length e.players)
  (left, once) ← deal_round order cards e.players
  (rest, twice) ← deal_round order left once
  ok (record e { deck = some rest; players = twice })

-- Who acts first before the flop, where no straddle has decided it.
unfoldable pub first_to_act : Option ℕ → ℕ → ℕ → Engine → Option ℕ
unfolding next_seat
first_to_act (some i) live bb_seat e = some i
first_to_act none live bb_seat e =
    if live == 2 then some e.button else next_seat e.players bb_seat (λ q. q.in_seat)

-- The posts of `start_hand`: the blinds, the posts of returning seats, and the straddle.
unfoldable pub post_all :
    Option (ℕ → Bool) → ℕ → ℕ → List ℕ → Engine → Result Fault (Engine × Option ℕ)
unfolding post_small post_big entry_posts straddle
post_all straddles sb_seat bb_seat live e = do
  small ← post_small sb_seat e
  big ← post_big bb_seat small
  entries ← entry_posts sb_seat bb_seat live big
  straddle straddles (length live) bb_seat (bring_in entries)

-- The hole cards, and the first betting round.
unfoldable pub deal_in : Option ℕ → ℕ → ℕ → Engine → Result Fault Engine
unfolding deal_holes first_to_act open_round
deal_in straddled live bb_seat e = do
  dealt ← deal_holes e
  first ← or_raise (first_to_act straddled live bb_seat dealt) no_seat
  ok (open_round first dealt)

-- `start_hand` once at least two players are dealt in.
unfoldable pub begin_hand :
    Option (ℕ → Bool) → List Card → List Player → Engine → Result Fault Engine
unfolding new_hand post_all deal_in
begin_hand straddles cards players e = do
  let live = idx_where (λ p. p.in_seat) players
  sb_seat ← or_raise e.sb_seat no_seat
  bb_seat ← or_raise e.bb_seat no_seat
  (opened, straddled) ← post_all straddles sb_seat bb_seat live (new_hand cards players e)
  deal_in straddled (length live) bb_seat opened

-- `deck if deck is not None else Deck(self.rng)`
abbrev pub chosen_deck : Option (List Card) → List Card → List Card
chosen_deck none fresh = fresh
chosen_deck (some deck) fresh = deck

-- `start_hand`. `given` is the caller's deck and `fresh` the one that the table would shuffle.
unfoldable pub start_hand :
    Option (ℕ → Bool) → Option (List Card) → List Card → Engine → Result Fault (Bool × Engine)
unfolding begin_hand advance_positions
start_hand straddles given fresh e = do
  moved ← advance_positions e
  let players = map (reset_player e.deal_sitting_out) moved.players
  if ltb (length (seated players)) 2 then ok (false, record moved { players = players }) else (do
    begun ← begin_hand straddles (chosen_deck given fresh) players moved
    ok (true, begun))
