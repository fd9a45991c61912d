-- ===== src/Settle/Best.antt =====
-- Lemmas on who wins the pots that `settle` awards: the best hands of each run.
use texas_holdem.Base.{
  ℕ, zero, suc, ◌<◌, ◌≡◌, refl, sym, ap, subst, ◌∙◌, true, Option, none, some, List, [], ◌∷◌, arith,
  length, mem, All,
}
use texas_holdem.Cards.{Card}
use texas_holdem.Table.{Player, Engine}
use texas_holdem.Settle.RunOuts.{IsRunOut}
use texas_holdem.Pots.{Pot}
use texas_holdem.Pots.Eligible.{IsOpen}
use texas_holdem.Award.{PotRun, AwardedPot}
use texas_holdem.Award.Decided.{Decided}
use texas_holdem.Award.Shared.{AllAwarded}
use texas_holdem.Showdown.{Run, nth_run, winners_in, score_run, score_runs, add_run}
use texas_holdem.Showdown.Scores.{Scored, idxs, IsWinners, run_winners-IsWinners}
use texas_holdem.Showdown.Winners.{Complete, some_run}

-- The runs of a pot, from run `r` on, are won by the best hands among the eligible seats.
abbrev pub Won : List Run → List ℕ → ℕ → List PotRun → Type 0
Won runs eligible r [] = Unit
Won runs eligible r (pot_run ∷ pot_runs) =
    ((run : Run) × (nth_run r runs ≡ some run) × IsWinners run.scores eligible pot_run.winners)
    × Won runs eligible (suc r) pot_runs

-- The runs are the scores of the players `alive`, a run for each board.
abbrev pub FromBoards : List Player → List (List Card) → List Run → Type 0
FromBoards alive [] [] = Unit
FromBoards alive (board ∷ boards) (run ∷ runs) =
    (score_run board alive ≡ some run) × FromBoards alive boards runs
FromBoards alive _ _ = ⊥

pub score_runs-FromBoards :
    (alive : List Player) (boards : List (List Card)) (runs : List Run)
    → score_runs boards alive ≡ some runs
    → FromBoards alive boards runs
unfolding score_runs
score_runs-FromBoards alive [] [] h = tt
score_runs-FromBoards alive [] (run ∷ runs) h = cc
score_runs-FromBoards alive (board ∷ boards) runs h =
    go (score_run board alive) refl (score_runs boards alive) (score_runs-FromBoards alive boards)
      runs h
  where
    go :
        (first : Option Run)
        → score_run board alive ≡ first
        → (later : Option (List Run))
        → ((rest : List Run) → later ≡ some rest → FromBoards alive boards rest)
        → (runs : List Run) → add_run first later ≡ some runs
        → FromBoards alive (board ∷ boards) runs
    go none at later rest runs e = cc
    go (some run) at none rest runs e = cc
    go (some run) at (some others) rest [] e = cc
    go (some run) at (some others) rest (x ∷ xs) e =
        let same : run ≡ x = cc in
        let same_rest : others ≡ xs = cc in
        (
          at ∙ ap (λ (y : Run). some y) same,
          subst (FromBoards alive boards) same_rest (rest others refl),
        )

nth_run-lt : (r : ℕ) (runs : List Run) (run : Run) → nth_run r runs ≡ some run → r < length runs
nth_run-lt r [] run h = cc
nth_run-lt zero (x ∷ runs) run h = omega arith
nth_run-lt (suc r) (x ∷ runs) run h = omega (arith, nth_run-lt r runs run h)

module _ (p q : Player) (left : List Player) (runs : List Run)
    (complete : Complete (p ∷ q ∷ left) runs) where
  best_seats :
      (r : ℕ) (run : Run) (eligible ws : List ℕ)
      → ((k : ℕ) × (mem k eligible ≡ true))
      → ((k : ℕ) → mem k eligible ≡ true → mem k (idxs (p ∷ q ∷ left)) ≡ true)
      → nth_run r runs ≡ some run
      → winners_in (p ∷ q ∷ left) runs r eligible ≡ some ws
      → IsWinners run.scores eligible ws
  best_seats r run [] ws (k, none_there) only found wins = cc
  best_seats r run (i ∷ eligible) ws someone only found wins =
      let (same, is_same, scored) = complete r (nth_run-lt r runs run found) in
      let equal : same ≡ run = cc in
      let run_scored = λ (k : ℕ) (there : mem k (i ∷ eligible) ≡ true).
        subst (λ (x : Run). Scored x.scores k) equal (scored k (only k there)) in
      let (ws', is, best) = run_winners-IsWinners run.scores i eligible run_scored in
      let agrees : some ws' ≡ some ws =
        sym is ∙ sym (some_run p q left runs r run (i ∷ eligible) found) ∙ wins in
      let equal_ws : ws' ≡ ws = cc in subst (IsWinners run.scores (i ∷ eligible)) equal_ws best

  Decided-Won :
      (eligible : List ℕ) (r : ℕ) (pot_runs : List PotRun)
      → ((k : ℕ) × (mem k eligible ≡ true))
      → ((k : ℕ) → mem k eligible ≡ true → mem k (idxs (p ∷ q ∷ left)) ≡ true)
      → Decided (winners_in (p ∷ q ∷ left) runs) eligible r pot_runs
      → Won runs eligible r pot_runs
  unfolding winners_in
  Decided-Won eligible r [] someone only decided = tt
  Decided-Won eligible r (pot_run ∷ pot_runs) someone only (wins, later) =
      (go (nth_run r runs) refl, Decided-Won eligible (suc r) pot_runs someone only later)
    where
      go :
          (found : Option Run)
          → nth_run r runs ≡ found
          → (run : Run) × (nth_run r runs ≡ some run)
            × IsWinners run.scores eligible pot_run.winners
      go (some run) at = (run, at, best_seats r run eligible pot_run.winners someone only at wins)
      go none at = absurd (never (rw (at, winners_in) at wins))
        where
          never : ◌≡◌ {A = Option (List ℕ)} none (some pot_run.winners) → ⊥
          never e = cc

  pub all-Won :
      (pots : List Pot) (awarded : List AwardedPot)
      → All (IsOpen (idxs (p ∷ q ∷ left))) pots
      → AllAwarded pots awarded
      → All
          (λ (a : AwardedPot). Decided (winners_in (p ∷ q ∷ left) runs) a.eligible 0 a.runs)
          awarded
      → All (λ (a : AwardedPot). Won runs a.eligible 0 a.runs) awarded
  all-Won [] [] open_pots all decided = tt
  all-Won (pot ∷ pots) [] open_pots all decided = tt
  all-Won [] (a ∷ awarded) open_pots all decided = elim all [ ]
  all-Won (pot ∷ pots) (a ∷ awarded) (((k, there), only), open_pots) (is, all) (decided, rest) = (
    Decided-Won a.eligible 0 a.runs (k, ap (λ (ks : List ℕ). mem k ks) is.same_seats ∙ there)
        (λ j inside. only j (ap (λ (ks : List ℕ). mem j ks) (sym is.same_seats) ∙ inside)) decided,
    all-Won pots awarded open_pots all rest,
  )

-- Every run of the showdown scores the players `alive` on a board of the table's cards.
abbrev pub ScoredRuns : Engine → List Card → List Player → List Run → Type 0
ScoredRuns e cards alive =
    All λ (run : Run).
      (board : List Card) × IsRunOut e cards board × (score_run board alive ≡ some run)

pub runs-ScoredRuns :
    (e : Engine) (cards : List Card) (alive : List Player) (boards : List (List Card))
    (runs : List Run)
    → All (IsRunOut e cards) boards
    → FromBoards alive boards runs
    → ScoredRuns e cards alive runs
runs-ScoredRuns e cards alive [] [] outs from = tt
runs-ScoredRuns e cards alive [] (run ∷ runs) outs from = elim from [ ]
runs-ScoredRuns e cards alive (board ∷ boards) [] outs from = elim from [ ]
runs-ScoredRuns e cards alive (board ∷ boards) (run ∷ runs) (out, outs) (scored, from) =
    ((board, out, scored), runs-ScoredRuns e cards alive boards runs outs from)
