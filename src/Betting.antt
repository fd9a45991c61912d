-- ===== src/Betting.antt =====
-- A betting round: `_open_round`, `legal` and `act` of `Engine` in holdem/engine.py.
pub mod Bounds
pub mod Chips
pub mod Turns
pub mod Kept
pub mod Opening
pub mod Progress
pub mod Refusals
use texas_holdem.Base.{
  ℕ, zero, suc, ◌+◌, ◌-◌, ◌*◌, ◌%◌, min, max, Bool, true, false, ◌&&◌, ◌||◌, not, Option, none,
  some, List, [], ◌∷◌, ◌++◌, ltb, leb, ◌==◌, if◌then◌else◌, length, get_elem?, keep, all, mem,
  discard, modify, Result, ok, err, ◌>>=◌, ◌>>◌, guard, or_raise,
}
use texas_holdem.Table.{
  Player, Engine, Config, Round, Structure, no_limit, pot_limit, fixed_limit, Street, preflop, flop,
  river, Event, Move, LastAction, pot, can_act, idx_where, seek, emit, commit,
}
use texas_holdem.Table

-- `Engine._open_round`
unfoldable pub open_round : ℕ → Engine → Engine
unfolding seek
open_round first e =
    let actors = keep can_act e.players in
    let closed = ltb (length actors) 2 && all (λ p. p.bet == e.current_bet) actors in
    let need = idx_where can_act e.players in
    record e {
      round = record e.round {
        no_raise = [];
        acted_at = [];
        need_to_act = if closed then [] else need;
        actor = if closed then none else seek e.players need (first % length e.players);
      };
    }

-- The dict that `legal` returns.
pub record Legal : Type 0 where
  pub to_call : ℕ
  pub can_check : Bool
  pub can_raise : Bool
  pub min_to : ℕ
  pub max_to : ℕ
  pub pot : ℕ
  pub your_bet : ℕ

-- The smallest and the largest target of a raise, and whether the structure allows one.
pub record Range : Type 0 where
  pub low : ℕ
  pub high : ℕ
  pub allowed : Bool

abbrev pub is_early : Street → Bool
is_early preflop = true
is_early flop = true
is_early _ = false

-- The three betting structures. `stack_to` is the seat's bet with its whole stack.
unfoldable pub raise_range : Structure → Engine → Player → Range
raise_range structure e p = bounds structure
  where
    stack_to : ℕ
    stack_to = p.bet + p.stack

    base : ℕ
    base = min (if e.current_bet == 0 then p.bet + e.bb else e.current_bet + e.min_raise) stack_to

    unit : ℕ
    unit = if is_early e.street then e.bb else 2 * e.bb

    bounds : Structure → Range
    bounds no_limit = record { low = base; high = stack_to; allowed = true }
    bounds fixed_limit = record {
      low = min (e.current_bet + unit) stack_to;
      high = min (e.current_bet + unit) stack_to;
      allowed = ltb e.raises_this_street 4;
    }
    bounds pot_limit = record {
      low = base;
      high = min stack_to (max (e.current_bet + (pot e.players + (e.current_bet - p.bet))) base);
      allowed = true;
    }

-- `Engine.legal` for the player `p` in seat `i`.
unfoldable pub legal_for : Engine → ℕ → Player → Legal
unfolding raise_range
legal_for e i p =
    let to_call = min (e.current_bet - p.bet) p.stack in
    let range = raise_range e.structure e p in
    record {
      to_call = to_call;
      can_check = to_call == 0;
      can_raise =
          ltb to_call p.stack
          && not (mem i e.no_raise)
          && range.allowed
          && ltb e.current_bet range.high;
      min_to = min range.low range.high;
      max_to = range.high;
      pot = pot e.players;
      your_bet = p.bet;
    }

-- `Engine.legal`; `none` is an IndexError.
unfoldable pub legal : Engine → ℕ → Option Legal
unfolding legal_for
legal e i = elim (get_elem? e.players i) [ none ↦ none | some p ↦ some (legal_for e i p) ]

-- The word of an action; every word that is none of the three has a number of its own.
pub data Action : Type 0 where
  fold call raise : Action
  unknown : ℕ → Action

-- The `amount` of a raise: a whole number, a number below zero, a value that is no whole number but
-- that `int` makes one of (a fraction, a bool), or a value that `int` refuses.
pub data Amount : Type 0 where
  whole : ℕ → Amount
  negative : Amount
  inexact : ℕ → Amount
  unusable : Amount

-- Why `act` raises.
pub data Refusal : Type 0 where
  unknown_action no_such_seat out_of_turn cannot_act may_not_raise : Refusal
  not_whole outside_range not_a_number : Refusal

abbrev pub is_known : Action → Bool
is_known (unknown word) = false
is_known _ = true

abbrev pub is_turn : Option ℕ → ℕ → Bool
is_turn none i = false
is_turn (some j) i = i == j

-- A raise that is no fixed-limit raise names its target exactly.
abbrev pub check_amount : Structure → Legal → Amount → Result Refusal (Unit {0})
check_amount fixed_limit lg amount = ok tt
check_amount _ lg (whole n) = guard (leb lg.min_to n && leb n lg.max_to) outside_range
check_amount _ lg negative = err outside_range
check_amount _ lg (inexact n) = err not_whole
check_amount _ lg unusable = err not_whole

-- `int(amount)`; below zero counts as zero, since the target is raised to `min_to` next.
abbrev pub to_int : Amount → Result Refusal ℕ
to_int (whole n) = ok n
to_int negative = ok 0
to_int (inexact n) = ok n
to_int unusable = err not_a_number

-- A player who has moved, with the event that reports it.
abbrev pub moved : ℕ → Player → Event → Engine → Engine
moved i p event e = emit event (record e { players = modify i (λ _. p) e.players })

unfoldable pub do_fold : ℕ → Player → Engine → Engine
do_fold i p e =
    moved i (record p { folded = true; last_action = LastAction.folded })
      (Table.Event.action i Move.fold 0 p.bet (pot e.players) false false) e

unfoldable pub do_call : ℕ → Player → Legal → Engine → Engine
do_call i p lg e = elim (lg.to_call == 0) [
  | true ↦
      moved i (record p { last_action = LastAction.checked })
        (Table.Event.action i Move.check 0 p.bet (pot e.players) false false) e
  | false ↦
      let paid = commit p lg.to_call in
      let label =
        if paid.all_in then LastAction.all_in_for paid.bet else LastAction.called lg.to_call in
      moved i (record paid { last_action = label })
        (Table.Event.action i Move.call lg.to_call paid.bet (pot (modify i (λ _. paid) e.players))
          paid.all_in false)
        e
]

-- `acted_at[q]`
abbrev pub acted_level : ℕ → List (ℕ × ℕ) → Option ℕ
acted_level q [] = none
acted_level q ((seat, level) ∷ rest) = if q == seat then some level else acted_level q rest

-- One seat behind a short all-in: `current_bet - acted_at[q] >= min_raise` reopens its raise.
abbrev pub restrict_seat : ℕ → ℕ → Option ℕ → ℕ → List ℕ → List ℕ
restrict_seat current least none q no_raise = no_raise
restrict_seat current least (some level) q no_raise =
    if leb (level + least) current then discard q no_raise else q ∷ no_raise

unfoldable pub restrict : ℕ → ℕ → List (ℕ × ℕ) → List ℕ → List ℕ → List ℕ
restrict current least acted [] no_raise = no_raise
restrict current least acted (q ∷ behind) no_raise =
    restrict current least acted behind
      (restrict_seat current least (acted_level q acted) q no_raise)

-- Seats that a short all-in leaves behind.
abbrev pub is_behind : ℕ → ℕ → Player → Bool
is_behind i current q = can_act q && not (q.idx == i) && ltb q.bet current

abbrev pub aggressor : Street → ℕ → Option ℕ → Option ℕ
aggressor river i old = some i
aggressor _ i old = old

-- What a bet of `bet` by seat `i` does to the round; `players` is the table after it.
unfoldable pub raised_round : Street → ℕ → ℕ → List Player → Round → Round
unfolding restrict
raised_round street i bet players r =
    if ltb r.current_bet bet
    then (if leb (r.current_bet + r.min_raise) bet
        then record r {
          current_bet = bet;
          raises_this_street = r.raises_this_street + 1;
          river_aggr = aggressor street i r.river_aggr;
          min_raise = bet - r.current_bet;
          no_raise = [];
          need_to_act = idx_where can_act players;
        }
        else record r {
          current_bet = bet;
          raises_this_street = r.raises_this_street + 1;
          river_aggr = aggressor street i r.river_aggr;
          no_raise =
              restrict bet r.min_raise r.acted_at (idx_where (is_behind i bet) players) r.no_raise;
          need_to_act = idx_where (is_behind i bet) players ++ r.need_to_act;
        })
    else r

-- The body of a raise to `target`.
unfoldable pub do_raise : ℕ → Player → ℕ → Engine → Engine
unfolding raised_round
do_raise i p target e =
    let add = target - p.bet in
    let opening = e.current_bet == 0 in
    let paid = commit p add in
    let label =
      if paid.all_in
      then LastAction.all_in_for paid.bet
      else if opening
      then LastAction.made_bet add
      else LastAction.raised_to paid.bet in
    let players = modify i (λ _. record paid { last_action = label }) e.players in
    emit
      (Table.Event.action i (if opening then Move.bet else Move.raise) add paid.bet (pot players)
        paid.all_in (leb (e.current_bet + e.min_raise) paid.bet))
      (record e { players = players; round = raised_round e.street i paid.bet players e.round })

abbrev pub bet_at : List Player → ℕ → ℕ
bet_at players i = elim (get_elem? players i) [ none ↦ 0 | some p ↦ p.bet ]

-- The last three lines of `act`.
unfoldable pub finish : ℕ → Engine → Engine
finish i e =
    let need = discard i e.need_to_act in
    record e {
      round = record e.round {
        acted_at = (i, bet_at e.players i) ∷ e.acted_at;
        need_to_act = need;
        actor = seek e.players need ((i + 1) % length e.players);
      };
    }

abbrev pub clamp_target : Legal → ℕ → ℕ
clamp_target lg n =
    let target = min n lg.max_to in if ltb target lg.min_to then lg.min_to else target

-- A degenerate raise that adds nothing is a call: it passes the same guards again.
unfoldable pub raise_to : ℕ → Player → Legal → ℕ → Engine → Engine
unfolding do_raise do_call
raise_to i p lg target e = if leb target p.bet then do_call i p lg e else do_raise i p target e

unfoldable pub perform : ℕ → Player → Legal → Action → Amount → Engine → Result Refusal Engine
unfolding do_fold do_call raise_to
perform i p lg fold amount e = ok (do_fold i p e)
perform i p lg call amount e = ok (do_call i p lg e)
perform i p lg raise amount e = do
  guard lg.can_raise may_not_raise
  check_amount e.structure lg amount
  n ← to_int amount
  ok (raise_to i p lg (clamp_target lg n) e)
perform i p lg (unknown word) amount e = err unknown_action

-- `Engine.act`. A refusal carries no engine: the source raises before it changes anything.
unfoldable pub act : ℕ → Action → Amount → Engine → Result Refusal Engine
unfolding legal_for perform finish seek emit commit
act i action amount e = do
  guard (is_known action) unknown_action
  p ← or_raise (get_elem? e.players i) no_such_seat
  guard (is_turn e.actor i) out_of_turn
  guard (can_act p) cannot_act
  after ← perform i p (legal_for e i p) action amount e
  ok (finish i after)
