-- ===== src/Examples/Replicas.antt =====
-- Two replicas of a three-handed table that receive the same actions in different orders.
use texas_holdem.Base.{ℕ, ◌≡◌, refl, false, none, List, [], ◌∷◌, All, arith}
use texas_holdem.Base.Int.{pos}
use texas_holdem.Cards.{from_indices}
use texas_holdem.Table.{no_limit}
use texas_holdem.Betting.{fold, call, raise, act, open_round, legal}
use texas_holdem.Hand.{start_hand}
use texas_holdem.Replica.{betting, Entry, Replica, new_replica, start_replica}
use texas_holdem.Replica.Actions.{overflow, apply_now, apply_action}
use texas_holdem.Replica.Showdown.{state_digest}
use texas_holdem.Replica.Script.{play, AllApply}
use texas_holdem.Replica.Arrivals.{
  OfScript, receive, leading, receive-leading, receive-agree, receive-whole,
}
use texas_holdem.Replica.Steps.{arrives, none_yet, then}
use texas_holdem.Replica.Money.{Tracked}
use texas_holdem.Replica.Started.{started-Tracked}
use texas_holdem.Examples.Table.{table, value}

abbrev at_start : Replica
at_start = record {
  live = record { engine = open_round 0 table; phase = betting };
  hand_no = 1;
  start_total = 465;
  next_seq = 0;
  pending = [];
  result = none;
  real_holes = [];
}

abbrev raises : Entry
raises = record { seat = 0; action = raise; amount = pos 60 }

abbrev folds : Entry
folds = record { seat = 1; action = fold; amount = pos 0 }

abbrev calls : Entry
calls = record { seat = 2; action = call; amount = pos 0 }

abbrev script : List Entry
script = raises ∷ folds ∷ calls ∷ []

abbrev jumbled : List (ℕ × Entry)
jumbled = (2, calls) ∷ (0, raises) ∷ (0, raises) ∷ (2, calls) ∷ (1, folds) ∷ []

abbrev in_order : List (ℕ × Entry)
in_order = (0, raises) ∷ (1, folds) ∷ (2, calls) ∷ []

abbrev with_gap : List (ℕ × Entry)
with_gap = (2, calls) ∷ (0, raises) ∷ []

script-AllApply : AllApply script at_start.live
unfolding apply_now act legal open_round
script-AllApply = (refl, (refl, (refl, tt)))

jumbled-OfScript : All (OfScript script at_start) jumbled
jumbled-OfScript = (
  (2, refl, refl),
  ((0, refl, refl), ((0, refl, refl), ((2, refl, refl), ((1, refl, refl), tt)))),
)

in_order-OfScript : All (OfScript script at_start) in_order
in_order-OfScript = ((0, refl, refl), ((1, refl, refl), ((2, refl, refl), tt)))

receive-leading_example : (receive with_gap at_start).next_seq ≡ 1
unfolding leading
receive-leading_example =
    (receive-leading script at_start with_gap (omega arith) script-AllApply refl
      ((2, refl, refl), ((0, refl, refl), tt))).1

receive-agree_example :
    state_digest (receive jumbled at_start) ≡ state_digest (receive in_order at_start)
receive-agree_example =
    receive-agree script at_start jumbled in_order (omega arith) script-AllApply refl
      jumbled-OfScript in_order-OfScript (λ k. ground arith)

receive-whole_example :
    ((receive jumbled at_start).live ≡ play script at_start.live)
    × ((receive jumbled at_start).next_seq ≡ 3)
    × ((receive jumbled at_start).pending ≡ [])
receive-whole_example =
    receive-whole script at_start jumbled (omega arith) script-AllApply refl jumbled-OfScript
      (λ i below. ground arith)

abbrev second : {A : Type 0} {B : Type 0} → A × B → B
second p = p.1

abbrev fresh : Replica
fresh = new_replica 1 (200 ∷ 100 ∷ 45 ∷ []) 10 20 no_limit

abbrev dealt : Replica
dealt = second (value (false, fresh) (start_replica 0 none none fresh))

abbrev acted : Replica
acted = (apply_action 0 calls dealt).1

started-Tracked_example : (acted.start_total ≡ 345) × Tracked 345 acted.live
unfolding start_replica start_hand new_replica from_indices
started-Tracked_example =
    started-Tracked 1 (200 ∷ 100 ∷ 45 ∷ []) 10 20 no_limit 0 none none dealt acted (omega arith)
      (omega arith) refl (then none_yet (arrives 0 calls))

overflow_run : (apply_action 65 calls at_start).0 ≡ overflow
unfolding apply_action
overflow_run = refl
