-- ===== src/Examples/Rounds.antt =====
-- A betting round at the three-handed table.
use texas_holdem.Base.{ℕ, ◌+◌, ◌≤◌, ◌≡◌, refl, true, none, List, [], ◌∷◌, arith, ok, ◌↔◌}
use texas_holdem.Table.{Engine, Player, no_limit}
use texas_holdem.Betting.{Action, fold, call, raise, Amount, whole, act, open_round, legal_for}
use texas_holdem.Betting.Bounds.{IsSound, legal-IsSound}
use texas_holdem.Betting.Chips.{bank, act-bank}
use texas_holdem.Betting.Turns.{Inv, Passes}
use texas_holdem.Betting.Kept.{act-Passes}
use texas_holdem.Betting.Opening.{Ready, open_round-Inv}
use texas_holdem.Betting.Progress.{play, play-ends, measure}
use texas_holdem.Betting.Refusals.{act-raise_iff, MayAct, IsSize}
use texas_holdem.Examples.Table.{player, table, trio, AllFrom-at, value}

pub table-Ready : Ready table
table-Ready = record {
  some_seat = omega arith;
  blinds = omega arith;
  least = omega arith;
  seated = λ k p at. omega (arith, AllFrom-at (λ i q. q.idx ≡ i) 0 k trio p (omega arith) at);
  covered = λ k p at. AllFrom-at (λ i q. q.bet ≤ 20) 0 k trio p (omega arith) at;
}

abbrev opened : Engine
opened = open_round 0 table

opened-Inv : Inv opened
opened-Inv = open_round-Inv 0 table table-Ready

-- The button raises to 60, the small blind folds and the big blind calls all-in: the round closes.
abbrev moves : List (ℕ × Action × Amount)
moves = (0, raise, whole 60) ∷ (1, fold, whole 0) ∷ (2, call, whole 0) ∷ []

abbrev last : Engine
last = value table (play moves opened)

abbrev raised : Engine
raised = value table (act 0 raise (whole 60) opened)

play_run : (last.actor ≡ none) × (last.current_bet ≡ 60) × (bank last ≡ 465)
unfolding play act open_round
play_run = (refl, refl, refl)

legal-IsSound_example : IsSound opened (player 0 200 0) (legal_for opened 0 (player 0 200 0))
unfolding open_round
legal-IsSound_example = legal-IsSound opened 0 (player 0 200 0) (omega arith) (omega arith)

act-bank_example : bank raised ≡ bank opened
unfolding act open_round
act-bank_example = (act-bank 0 raise (whole 60) opened raised refl).0

act-Passes_example : Passes 0 opened raised
unfolding act open_round
act-Passes_example = act-Passes 0 raise (whole 60) opened raised opened-Inv refl

play-ends_example : 3 + measure last ≤ measure opened
unfolding play act open_round
play-ends_example = play-ends moves opened last opened-Inv refl

act-raise_iff_example : ((f : Engine) × (act 0 raise (whole 60) opened ≡ ok f)) ↔ (
    (p : Player) × MayAct opened 0 p
    × ((legal_for opened 0 p).can_raise ≡ true)
    × IsSize no_limit (legal_for opened 0 p) 60)
unfolding open_round
act-raise_iff_example = act-raise_iff 0 60 opened
