-- ===== src/Table.antt =====
-- The state of holdem/engine.py: `Player` and `Engine`, and the queries on them. Names, playing
-- styles and the text of events are for display, and are left out; `last_action` and the events are
-- data in place of their text.
mod Log
pub use Log.*
pub mod Seats
use texas_holdem.Base.{
  ℕ, zero, suc, ◌+◌, ◌-◌, ◌%◌, min, Bool, true, false, ◌&&◌, ◌||◌, not, Option, none, some, List,
  [], ◌∷◌, ◌++◌, ltb, leb, ◌==◌, if◌then◌else◌, length, get_elem?, keep, map, mem, total,
}
use texas_holdem.Cards.{Card}

-- `last_action`, which the source keeps as text.
pub data LastAction : Type 0 where
  blank : LastAction
  posted : Blind → ℕ → LastAction
  folded checked : LastAction
  called : ℕ → LastAction
  all_in_for : ℕ → LastAction
  made_bet : ℕ → LastAction
  raised_to : ℕ → LastAction

pub record Player : Type 0 where
  pub idx : ℕ
  pub stack : ℕ
  pub hole : List Card
  pub folded : Bool
  pub all_in : Bool
  pub in_seat : Bool
  pub bet : ℕ
  pub total_live : ℕ
  pub total_dead : ℕ
  pub last_action : LastAction
  pub won : ℕ
  pub sitting_out : Bool
  pub owes_bb : Bool
  pub owes_sb : Bool
  pub wait_for_bb : Bool
  pub post_entry : Bool

pub data Structure : Type 0 where
  no_limit pot_limit fixed_limit : Structure

pub record Config : Type 0 where
  pub sb : ℕ
  pub bb : ℕ
  pub structure : Structure
  pub bb_ante : Bool
  pub deal_sitting_out : Bool

-- The fields of `Engine` that a betting round changes.
pub record Round : Type 0 where
  pub current_bet : ℕ
  pub min_raise : ℕ
  pub need_to_act : List ℕ
  pub actor : Option ℕ
  pub raises_this_street : ℕ
  pub no_raise : List ℕ
  pub acted_at : List (ℕ × ℕ)
  pub river_aggr : Option ℕ

-- The fields that place the button and the blinds.
pub record Positions : Type 0 where
  pub button : ℕ
  pub bb_seat : Option ℕ
  pub sb_seat : Option ℕ
  pub sb_i : Option ℕ
  pub bb_i : Option ℕ
  pub straddler : Option ℕ

pub record Engine : Type 0 where
  pub config : Config
  pub open config use *
  pub players : List Player
  pub positions : Positions
  pub open positions use *
  pub round : Round
  pub open round use *
  pub deck : Option (List Card)
  pub board : List Card
  pub board2 : Option (List Card)
  pub street : Street
  pub hand_no : ℕ
  pub events : List Event
  pub public_events : List PublicEvent
  pub event_seq : ℕ

-- `Player.total`
abbrev pub in_pot : Player → ℕ
in_pot p = p.total_live + p.total_dead

-- `Engine.pot`
abbrev pub pot : List Player → ℕ
pot = total in_pot

-- `Engine.seated` and `Engine.contested`
abbrev pub seated : List Player → List Player
seated = keep λ p. p.in_seat

abbrev pub is_contesting : Player → Bool
is_contesting p = p.in_seat && not p.folded

abbrev pub contested : List Player → List Player
contested = keep is_contesting

-- `Engine.can_act`
abbrev pub can_act : Player → Bool
can_act p = p.in_seat && not p.folded && not p.all_in && ltb 0 p.stack

-- `Engine.betting_locked`
abbrev pub betting_locked : Engine → Bool
betting_locked e =
    ltb 1 (length (contested e.players))
    && leb (length (keep (λ p. not p.all_in && ltb 0 p.stack) (contested e.players))) 1
    && nobody e.actor
  where
    nobody : Option ℕ → Bool
    nobody none = true
    nobody (some i) = false

-- `pred(self.players[j])`
abbrev pub holds_at : List Player → (Player → Bool) → ℕ → Bool
holds_at players pred j = elim (get_elem? players j) [ none ↦ false | some p ↦ pred p ]

-- `for k in …: j = (i + k) % n; if test(j): return j`, over `rounds` values of `k`.
unfoldable pub find_seat : ℕ → (ℕ → Bool) → ℕ → ℕ → ℕ → Option ℕ
find_seat n test i k zero = none
find_seat n test i k (suc rounds) =
    let j = (i + k) % n in if test j then some j else find_seat n test i (k + 1) rounds

-- `Engine._next`
unfoldable pub next_seat : List Player → ℕ → (Player → Bool) → Option ℕ
unfolding find_seat
next_seat players i pred = find_seat (length players) (holds_at players pred) i 1 (length players)

-- `Engine._seek`
unfoldable pub seek : List Player → List ℕ → ℕ → Option ℕ
unfolding find_seat
seek players need_to_act start =
    find_seat (length players) (λ j. mem j need_to_act) start 0 (length players)

-- `{q.idx for q in self.players if pred(q)}`
abbrev pub idx_where : (Player → Bool) → List Player → List ℕ
idx_where pred players = map (λ (q : Player). q.idx) (keep pred players)

-- `Engine.emit`
unfoldable pub emit : Event → Engine → Engine
emit event e = record e {
  events = e.events ++ event ∷ [];
  public_events =
      e.public_events
      ++ record { seq = e.event_seq + 1; event = event; hand_num = e.hand_no; street = e.street }
        ∷ [];
  event_seq = e.event_seq + 1;
}

-- `Engine.drain`
unfoldable pub drain : Engine → List Event × Engine
drain e = (e.events, record e { events = [] })

-- `Engine._commit`
unfoldable pub commit : Player → ℕ → Player
commit p amount =
    let paid = min amount p.stack in
    record p {
      stack = p.stack - paid;
      bet = p.bet + paid;
      total_live = p.total_live + paid;
      all_in = p.all_in || (p.stack - paid == 0);
    }
