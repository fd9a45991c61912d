-- ===== src/Table/Log.antt =====
-- The structured events of `Engine.emit`, without their display text.
use texas_holdem.Base.{ℕ, Bool, List}
use texas_holdem.Cards.{Card}

pub data Street : Type 0 where
  idle preflop flop turn river showdown : Street

-- The `label` of `_post` and `_post_dead`.
pub data Blind : Type 0 where
  sb bb str entry_post ante dead_sb straddle : Blind

pub data Move : Type 0 where
  fold check call bet raise : Move

pub data Event : Type 0 where
  hand_started : (small big ante : ℕ) → Event
  dead_small_blind : Event
  post_blind : (seat : ℕ) → Blind → (amount : ℕ) (all_in dead : Bool) (pot_after : ℕ) → Event
  action : (seat : ℕ) → Move → (amount to pot_after : ℕ) (all_in full_raise : Bool) → Event
  deal_board : (run : ℕ) → List Card → Event
  refund : (seat amount pot_after : ℕ) → Event
  shown : (seat category : ℕ) (tiebreak : List ℕ) → (best : List Card) → Event
  mucked : (seat : ℕ) → Event
  award :
      (pot_index run amount : ℕ) (winners : List ℕ) (payouts : List (ℕ × ℕ)) (uncontested : Bool)
      → Event

pub record PublicEvent : Type 0 where
  pub seq : ℕ
  pub event : Event
  pub hand_num : ℕ
  pub street : Street
