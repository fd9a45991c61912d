-- ===== src/Examples/Table.antt =====
-- A three-handed table before the flop: the button owes the blinds of 10 and 20.
use texas_holdem.Base.{
  ℕ, zero, suc, ◌+◌, ◌≡◌, false, true, none, some, List, [], ◌∷◌, get_elem?, arith, Result, ok, err,
}
use texas_holdem.Table.{Player, Engine, no_limit, preflop, blank}

abbrev pub player : ℕ → ℕ → ℕ → Player
player i stack bet = record {
  idx = i;
  stack = stack;
  hole = [];
  folded = false;
  all_in = false;
  in_seat = true;
  bet = bet;
  total_live = bet;
  total_dead = 0;
  last_action = blank;
  won = 0;
  sitting_out = false;
  owes_bb = false;
  owes_sb = false;
  wait_for_bb = false;
  post_entry = false;
}

abbrev pub trio : List Player
trio = player 0 200 0 ∷ player 1 190 10 ∷ player 2 45 20 ∷ []

abbrev pub table : Engine
table = record {
  config = record {
    sb = 10;
    bb = 20;
    structure = no_limit;
    bb_ante = false;
    deal_sitting_out = false;
  };
  players = trio;
  positions = record {
    button = 0;
    bb_seat = some 2;
    sb_seat = some 1;
    sb_i = some 1;
    bb_i = some 2;
    straddler = none;
  };
  round = record {
    current_bet = 20;
    min_raise = 20;
    need_to_act = [];
    actor = none;
    raises_this_street = 0;
    no_raise = [];
    acted_at = [];
    river_aggr = none;
  };
  deck = none;
  board = [];
  board2 = none;
  street = preflop;
  hand_no = 1;
  events = [];
  public_events = [];
  event_seq = 0;
}

-- A property of the players and the seats that they stand in, checked player by player.
abbrev pub AllFrom : (ℕ → Player → Type 0) → ℕ → List Player → Type 0
AllFrom P i [] = Unit
AllFrom P i (p ∷ ps) = P i p × AllFrom P (suc i) ps

pub AllFrom-at :
    (P : ℕ → Player → Type 0) (i k : ℕ) (ps : List Player) (p : Player)
    → AllFrom P i ps
    → get_elem? ps k ≡ some p
    → P (k + i) p
AllFrom-at P i k [] p all at = absurd (ground arith)
AllFrom-at P i zero (q ∷ ps) p all at =
    let e : i ≡ zero + i = omega arith in let same : q ≡ p = cc in rw (← e, ← same) all.0
AllFrom-at P i (suc k) (q ∷ ps) p all at =
    let e : k + suc i ≡ suc k + i = omega arith in rw e at (AllFrom-at P (suc i) k ps p all.1 at)

abbrev pub value {ℓ} : {E : Type 0} {A : Type ℓ} → A → Result E A → A
value d (ok a) = a
value d (err e) = d
