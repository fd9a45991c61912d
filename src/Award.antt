-- ===== src/Award.antt =====
-- Step 5 of `settle` in holdem/engine.py: the pots are divided between the runs, and each share among
-- the winners of its run. `winners_in` says who wins a run among the eligible seats.
pub mod Chips
pub mod Shared
pub mod Decided
pub mod Paid
use texas_holdem.Base.{
  ℕ, zero, suc, ◌+◌, ◌-◌, ◌*◌, ◌/◌, Option, none, some, List, [], ◌∷◌, ◌++◌, map, length, modify,
  Result, ok, err, ◌>>=◌, or_raise, sum,
}
use texas_holdem.Table.{Player}
use texas_holdem.Pots.{Pot, payout, seat_set}

pub data Error : Type 0 where
  -- A score that is missing, so a KeyError or the maximum of nothing.
  unscored : Error
  -- The odd-chip walk ran out of its fuel.
  endless_walk : Error

-- `run_result`
pub record PotRun : Type 0 where
  pub winners : List ℕ
  pub amount : ℕ
  pub payouts : List (ℕ × ℕ)

pub record AwardedPot : Type 0 where
  pub amount : ℕ
  pub eligible : List ℕ
  pub runs : List PotRun
  pub winners : List ℕ

abbrev pub replicate : ℕ → ℕ → List ℕ
replicate zero q = []
replicate (suc k) q = q ∷ replicate k q

abbrev pub add_first : ℕ → List ℕ → List ℕ
add_first odd [] = []
add_first odd (q ∷ qs) = (q + odd) ∷ qs

-- Equal shares of a pot for the runs; the odd chips go to the first run.
unfoldable pub run_shares : ℕ → ℕ → List ℕ
run_shares amount runs =
    let shares = replicate runs (amount / runs) in add_first (amount - sum shares) shares

-- `players[i].won += paid; players[i].stack += paid`
abbrev pub win : ℕ → Player → Player
win paid p = record p { stack = p.stack + paid; won = p.won + paid }

unfoldable pub pay_winners : List (ℕ × ℕ) → List Player → List Player
pay_winners [] players = players
pay_winners ((i, paid) ∷ payouts) players = pay_winners payouts (modify i (win paid) players)

-- The loop over the runs of one pot, from run `r` on.
unfoldable pub award_runs :
    (ℕ → List ℕ → Option (List ℕ))
    → ℕ
    → List ℕ
    → ℕ
    → List ℕ
    → List Player
    → Result Error (List Player × List PotRun)
unfolding pay_winners
award_runs winners_in button eligible r [] players = ok (players, [])
award_runs winners_in button eligible r (share ∷ shares) players = do
  winners ← or_raise (winners_in r eligible) unscored
  payouts ← or_raise (payout (length players) button share winners) endless_walk
  (after, runs) ← award_runs winners_in button eligible (suc r) shares (pay_winners payouts players)
  ok (after, record { winners = winners; amount = share; payouts = payouts } ∷ runs)

abbrev pub all_winners : List PotRun → List ℕ
all_winners [] = []
all_winners (run ∷ runs) = run.winners ++ all_winners runs

-- The loop over the pots.
unfoldable pub award_pots :
    (ℕ → List ℕ → Option (List ℕ))
    → ℕ
    → ℕ
    → List Pot
    → List Player
    → Result Error (List Player × List AwardedPot)
unfolding award_runs run_shares
award_pots winners_in button nruns [] players = ok (players, [])
award_pots winners_in button nruns (pot ∷ pots) players = do
  (paid, runs) ← award_runs winners_in button pot.eligible 0 (run_shares pot.amount nruns) players
  (after, awarded) ← award_pots winners_in button nruns pots paid
  ok (
    after,
    record {
      amount = pot.amount;
      eligible = pot.eligible;
      runs = runs;
      winners = seat_set (all_winners runs);
    }
        ∷ awarded,
  )
