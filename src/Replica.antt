-- ===== src/Replica.antt =====
-- `ReplicaTable` of holdem/p2p/replica_table.py: one peer's copy of the engine for a hand, its state,
-- its first hand and the hole cards of its own seat.
pub mod Actions
pub mod Buffer
pub mod Script
pub mod Order
pub mod Arrivals
pub mod Showdown
pub mod Calls
pub mod Steps
pub mod Started
pub mod Ending
pub mod Verdicts
pub mod Streets
pub mod Digests
pub mod Money
use texas_holdem.Base.{
  ℕ, zero, suc, ◌+◌, ◌-◌, Bool, true, false, ◌&&◌, ◌||◌, not, Option, none, some, List, [], ◌∷◌,
  ◌++◌, map, ltb, leb, ◌==◌, if◌then◌else◌, any, all, length, get_elem?, keep, modify, mem, sum,
  range_from, Result, ok, err, ◌>>=◌, ◌>>◌, guard, or_raise,
}
use texas_holdem.Base.Int.{ℤ, pos, negsuc}
use texas_holdem.Cards.{Card, from_indices}
use texas_holdem.Table.{
  Player, Engine, Config, Structure, Street, idle, preflop, flop, turn, river, blank, contested,
  is_contesting, seated, idx_where,
}
use texas_holdem.Betting.{Action, fold, call, raise, unknown, Amount, legal, act}
use texas_holdem.Positions.{Fault}
use texas_holdem.Hand.{start_hand}
use texas_holdem.Streets.{next_street}
use texas_holdem.Settle.{Outcome, settle}
use texas_holdem.Settle
use texas_holdem.Pots.{seat_set}

pub data Phase : Type 0 where
  betting street_over showdown hand_over settled : Phase

-- An action as it is broadcast; its amount is an `int`.
pub record Entry : Type 0 where
  pub seat : ℕ
  pub action : Action
  pub amount : ℤ

-- What an action changes: `self.engine` and `self.phase`.
pub record Live : Type 0 where
  pub engine : Engine
  pub phase : Phase

pub record Replica : Type 0 where
  pub live : Live
  pub open live use *
  pub hand_no : ℕ
  pub start_total : ℕ
  pub next_seq : ℕ
  pub pending : List (ℕ × Entry)
  pub result : Option Outcome
  pub real_holes : List ℕ

-- What a method raises. `fault` is an error of the engine.
pub data Error : Type 0 where
  wrong_phase no_street wrong_cards no_such_seat dealt_twice : Error
  incomplete_board unverified not_conserved no_deck bad_indices : Error
  fault : Fault → Error
  settling : Settle.Error → Error

-- `Player(i, name, stack, human=True)`
abbrev pub fresh_player : ℕ → ℕ → Player
fresh_player i stack = record {
  idx = i;
  stack = stack;
  hole = [];
  folded = false;
  all_in = false;
  in_seat = true;
  bet = 0;
  total_live = 0;
  total_dead = 0;
  last_action = blank;
  won = 0;
  sitting_out = false;
  owes_bb = false;
  owes_sb = false;
  wait_for_bb = false;
  post_entry = false;
}

unfoldable pub fresh_players : ℕ → List ℕ → List Player
fresh_players i [] = []
fresh_players i (stack ∷ stacks) = fresh_player i stack ∷ fresh_players (suc i) stacks

-- `Engine(players, sb=sb, bb=bb, structure=structure)`. With no player the source's button is -1.
abbrev pub fresh_engine : ℕ → ℕ → Structure → List Player → Engine
fresh_engine sb bb structure players = record {
  config = record {
    sb = sb;
    bb = bb;
    structure = structure;
    bb_ante = false;
    deal_sitting_out = false;
  };
  players = players;
  positions = record {
    button = length players - 1;
    bb_seat = none;
    sb_seat = none;
    sb_i = none;
    bb_i = none;
    straddler = none;
  };
  round = record {
    current_bet = 0;
    min_raise = bb;
    need_to_act = [];
    actor = none;
    raises_this_street = 0;
    no_raise = [];
    acted_at = [];
    river_aggr = none;
  };
  deck = none;
  board = [];
  board2 = none;
  street = idle;
  hand_no = 0;
  events = [];
  public_events = [];
  event_seq = 0;
}

-- `ReplicaTable.__init__`
unfoldable pub new_replica : ℕ → List ℕ → ℕ → ℕ → Structure → Replica
unfolding fresh_players
new_replica hand_no stacks sb bb structure = record {
  live = record { engine = fresh_engine sb bb structure (fresh_players 0 stacks); phase = betting };
  hand_no = hand_no;
  start_total = sum stacks;
  next_seq = 0;
  pending = [];
  result = none;
  real_holes = [];
}

-- `_recompute_phase`
abbrev pub is_last : Street → Bool
is_last river = true
is_last Street.showdown = true
is_last _ = false

abbrev pub is_settled : Phase → Bool
is_settled settled = true
is_settled _ = false

abbrev pub nonempty {ℓ} : {A : Type ℓ} → List A → Bool
nonempty [] = false
nonempty (x ∷ xs) = true

unfoldable pub phase_of : Engine → Phase
phase_of e =
    if leb (length (contested e.players)) 1
    then hand_over
    else if nonempty e.need_to_act
    then betting
    else if is_last e.street
    then showdown
    else street_over

unfoldable pub recompute_phase : Live → Live
unfolding phase_of
recompute_phase l = if is_settled l.phase then l else record l { phase = phase_of l.engine }

-- `start_hand`, on the unshuffled deck.
abbrev pub seat_or : Option ℕ → Option ℕ → Option ℕ
seat_or none old = old
seat_or (some seat) old = some seat

abbrev pub seeded : ℕ → Option ℕ → Option ℕ → Engine → Engine
seeded button bb_seat sb_seat e = record e {
  positions = record e.positions {
    button = button;
    bb_seat = seat_or bb_seat e.bb_seat;
    sb_seat = seat_or sb_seat e.sb_seat;
  };
}

abbrev pub dummy_deck : Result Error (List Card)
dummy_deck = elim (from_indices (range_from 0 52)) [
  | err bad ↦ err bad_indices
  | ok cards ↦ ok cards
]

abbrev pub engine_result {ℓ} : {A : Type ℓ} → Result Fault A → Result Error A
engine_result (err f) = err (fault f)
engine_result (ok a) = ok a

unfoldable pub start_replica : ℕ → Option ℕ → Option ℕ → Replica → Result Error (Bool × Replica)
unfolding recompute_phase
start_replica button bb_seat sb_seat r = do
  dummy ← dummy_deck
  (dealt, after) ←
      engine_result (start_hand none (some dummy) [] (seeded button bb_seat sb_seat r.engine))
  ok (dealt, record r { live = recompute_phase (record r.live { engine = after }) })

-- The properties `stacks` and `seats_dealt`.
abbrev pub stacks_of : Engine → List ℕ
stacks_of e = map (λ (p : Player). p.stack) e.players

abbrev pub seats_dealt : Engine → List ℕ
seats_dealt e = idx_where (λ p. p.in_seat) e.players

-- Cards that may be `None`: all of them, if none is missing.
abbrev pub recovered : List (Option Card) → Option (List Card)
recovered [] = some []
recovered (none ∷ cards) = none
recovered (some c ∷ cards) = elim (recovered cards) [ none ↦ none | some rest ↦ some (c ∷ rest) ]

-- `n` cards, none of them missing.
abbrev pub exactly : ℕ → List (Option Card) → Option (List Card)
exactly n cards = if length cards == n then recovered cards else none

abbrev pub with_hole : List Card → Player → Player
with_hole cards p = record p { hole = cards }

abbrev pub put_hole : ℕ → List Card → Replica → Replica
put_hole seat cards r = record r {
  live = record r.live {
    engine = record r.engine { players = modify seat (with_hole cards) r.engine.players };
  };
  real_holes = seat ∷ r.real_holes;
}

-- `set_own_hole`
unfoldable pub set_own_hole : ℕ → List (Option Card) → Replica → Result Error Replica
set_own_hole seat cards r = do
  hole ← or_raise (exactly 2 cards) wrong_cards
  guard (ltb seat (length r.engine.players)) no_such_seat
  ok (put_hole seat hole r)
