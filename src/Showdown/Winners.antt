-- ===== src/Showdown/Winners.antt =====
-- Lemmas on who wins a pot in each run.
use texas_holdem.Base.{
  ℕ, zero, suc, ◌<◌, ◌≡◌, refl, sym, ap, subst, true, some, List, [], ◌∷◌, ◌++◌, arith, length, mem,
  All, ==_refl,
}
use texas_holdem.Cards.{Card}
use texas_holdem.Table.{Player}
use texas_holdem.Pots.{Pot}
use texas_holdem.Pots.Eligible.{IsOpen}
use texas_holdem.Award.Chips.{Wins}
use texas_holdem.Showdown.{Run, score_runs, best_score, nth_run, run_winners, winners_in}
use texas_holdem.Showdown.Scores.{IsHand, Scored, idxs, score_run-Scored, run_winners-IsWinners}

abbrev pub HandsOn : List Player → List Card → Type 0
HandsOn alive board = All (λ (p : Player). IsHand (p.hole ++ board)) alive

-- Every run has the score of every player that is left.
abbrev pub Complete : List Player → List Run → Type 0
Complete alive runs =
    (r : ℕ)
    → r < length runs
    → (run : Run) × (nth_run r runs ≡ some run)
      × ((k : ℕ) → mem k (idxs alive) ≡ true → Scored run.scores k)

pub score_runs-Complete :
    (boards : List (List Card)) (alive : List Player)
    → All (HandsOn alive) boards
    → (runs : List Run) × (score_runs boards alive ≡ some runs)
      × (length runs ≡ length boards)
      × Complete alive runs
unfolding score_runs
score_runs-Complete [] alive hands = ([], refl, refl, λ r below. absurd (omega arith))
score_runs-Complete (board ∷ boards) alive (hand, hands) =
    let (run, scored, all_scored) = score_run-Scored board alive hand in
    let (runs, rest, same, complete) = score_runs-Complete boards alive hands in
    (
      run ∷ runs,
      rw (scored, rest) refl,
      ap suc same,
      λ r below. pick run runs all_scored complete r below,
    )
  where
    pick :
        (run : Run) (runs : List Run)
        → ((k : ℕ) → mem k (idxs alive) ≡ true → Scored run.scores k)
        → Complete alive runs
        → Complete alive (run ∷ runs)
    pick run runs here later zero below = (run, refl, here)
    pick run runs here later (suc r) below = later r (omega arith)

pub some_run :
    (p q : Player) (alive : List Player) (runs : List Run) (r : ℕ) (run : Run) (eligible : List ℕ)
    → nth_run r runs ≡ some run
    → winners_in (p ∷ q ∷ alive) runs r eligible
      ≡ run_winners run.scores eligible (best_score run.scores eligible)
unfolding winners_in
some_run p q alive runs r run eligible found = rw (found, winners_in) refl

-- Of several players, each with a score.
pub winners_in-Wins :
    (p q : Player) (alive : List Player) (runs : List Run) (r : ℕ) (pot : Pot)
    → Complete (p ∷ q ∷ alive) runs
    → r < length runs
    → IsOpen (idxs (p ∷ q ∷ alive)) pot
    → Wins pot.eligible (winners_in (p ∷ q ∷ alive) runs r pot.eligible)
winners_in-Wins p q alive runs r pot complete below (someone, only) =
    let (run, found, scored) = complete r below in
    rw (some_run p q alive runs r run pot.eligible found) (go run scored pot.eligible someone only)
  where
    go :
        (run : Run)
        → ((k : ℕ) → mem k (idxs (p ∷ q ∷ alive)) ≡ true → Scored run.scores k)
        → (eligible : List ℕ) → (k : ℕ) × (mem k eligible ≡ true)
        → ((k : ℕ) → mem k eligible ≡ true → mem k (idxs (p ∷ q ∷ alive)) ≡ true)
        → Wins eligible (run_winners run.scores eligible (best_score run.scores eligible))
    go run scored [] (k, there) only = cc
    go run scored (i ∷ eligible) someone only =
        let (ws, found, is) =
          run_winners-IsWinners run.scores i eligible (λ k there. scored k (only k there)) in
        (ws, found, is.some_winner, is.may)

-- One player left wins every pot.
pub winners_in-alone :
    (p : Player) (runs : List Run) (r : ℕ) (pot : Pot)
    → IsOpen (p.idx ∷ []) pot
    → Wins pot.eligible (winners_in (p ∷ []) runs r pot.eligible)
unfolding winners_in
winners_in-alone p runs r pot ((k, there), only) =
    let is : k ≡ p.idx = ground (arith, only k there) in
    (
      p.idx ∷ [],
      refl,
      (p.idx, ground (arith, ==_refl p.idx)),
      λ j wins.
          let same : j ≡ k = ground arith in
          subst (λ x. mem x pot.eligible ≡ true) (sym same) there,
    )
