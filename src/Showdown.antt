-- ===== src/Showdown.antt =====
-- Steps 3 and 6 of `settle` in holdem/engine.py: the scores of the players still in, who wins a pot
-- in a run, and the order in which hands are shown or mucked.
pub mod Scores
pub mod Winners
use texas_holdem.Base.{
  ℕ, zero, suc, ◌+◌, ◌%◌, Bool, true, false, ◌&&◌, ◌||◌, not, Option, none, some, List, [], ◌∷◌,
  ◌++◌, map, ◌==◌, if◌then◌else◌, length, mem, keep,
}
use texas_holdem.Cards.{Card}
use texas_holdem.Table.{Player, is_contesting, holds_at, next_seat}
use texas_holdem.Evaluate.{Score, evaluate, best_five, score_lt, same_score}

-- One run: the board, the score of each player and the five cards that make it.
pub record Run : Type 0 where
  pub board : List Card
  pub scores : List (ℕ × Score)
  pub best : List (ℕ × List Card)

abbrev pub lookup {ℓ} : {A : Type ℓ} → ℕ → List (ℕ × A) → Option A
lookup i [] = none
lookup i ((k, a) ∷ rest) = if k == i then some a else lookup i rest

abbrev pub add_scored : ℕ → Option Score → Option (Score × List Card) → Option Run → Option Run
add_scored i (some score) (some (top, five)) (some run) =
    some (record run { scores = (i, score) ∷ run.scores; best = (i, five) ∷ run.best })
add_scored i _ _ _ = none

-- `scores` and `best` of one board; `none` is a Python error.
unfoldable pub score_run : List Card → List Player → Option Run
score_run board [] = some (record { board = board; scores = []; best = [] })
score_run board (p ∷ alive) =
    add_scored p.idx (evaluate (p.hole ++ board)) (best_five (p.hole ++ board))
      (score_run board alive)

abbrev pub add_run : Option Run → Option (List Run) → Option (List Run)
add_run (some run) (some runs) = some (run ∷ runs)
add_run _ _ = none

unfoldable pub score_runs : List (List Card) → List Player → Option (List Run)
unfolding score_run
score_runs [] alive = some []
score_runs (board ∷ boards) alive = add_run (score_run board alive) (score_runs boards alive)

-- `max(sc[i] for i in elig)`, which raises on a seat without a score and on no seat.
abbrev pub higher : Option Score → Option Score → Option Score
higher (some a) (some b) = some (if score_lt a b then b else a)
higher _ _ = none

unfoldable pub best_score : List (ℕ × Score) → List ℕ → Option Score
best_score scores [] = none
best_score scores (i ∷ []) = lookup i scores
best_score scores (i ∷ j ∷ eligible) = higher (lookup i scores) (best_score scores (j ∷ eligible))

-- `sc[i] == best`
abbrev pub ties : Score → Option Score → Bool
ties best none = false
ties best (some score) = same_score score best

unfoldable pub run_winners : List (ℕ × Score) → List ℕ → Option Score → Option (List ℕ)
run_winners scores eligible none = none
run_winners scores eligible (some best) = some (keep (λ i. ties best (lookup i scores)) eligible)

abbrev pub nth_run : ℕ → List Run → Option Run
nth_run r [] = none
nth_run zero (run ∷ runs) = some run
nth_run (suc r) (run ∷ runs) = nth_run r runs

-- The winners of run `r` among the eligible seats. One player left wins without a score.
unfoldable pub winners_in : List Player → List Run → ℕ → List ℕ → Option (List ℕ)
unfolding best_score run_winners
winners_in (p ∷ []) runs r eligible = some (p.idx ∷ [])
winners_in alive runs r eligible = elim (nth_run r runs) [
  | none ↦ none
  | some run ↦ run_winners run.scores eligible (best_score run.scores eligible)
]

-- The seats of the showdown, from `start` round the table.
unfoldable pub show_order : List Player → ℕ → ℕ → ℕ → List ℕ
show_order players start k zero = []
show_order players start k (suc rounds) =
    let j = (start + k) % length players in
    let rest = show_order players start (k + 1) rounds in
    if holds_at players is_contesting j then j ∷ rest else rest

-- The last aggressor on the river shows first, unless the hands are tabled.
unfoldable pub first_to_show : Option ℕ → Bool → List Player → ℕ → Option ℕ
unfolding next_seat
first_to_show (some i) false players button = some i
first_to_show _ _ players button = next_seat players button is_contesting

-- A hand at the showdown, shown or mucked.
pub record Hand : Type 0 where
  pub seat : ℕ
  pub score : Score
  pub shown : Bool

abbrev pub beats_so_far : Option Score → Score → Bool
beats_so_far none score = true
beats_so_far (some best) score = not (score_lt score best)

abbrev pub raise_best : Option Score → Score → Option Score
raise_best none score = some score
raise_best (some best) score = if score_lt best score then some score else some best

-- One seat of the loop: shown or mucked, and the best score shown so far.
unfoldable pub must_show : Bool → List ℕ → Option Score → ℕ → Score → Bool
must_show tabled winners best j score = tabled || mem j winners || beats_so_far best score

abbrev pub then_hand : Hand → Option (List Hand) → Option (List Hand)
then_hand hand none = none
then_hand hand (some rest) = some (hand ∷ rest)

-- The loop of the showdown; `none` is a seat without a score.
unfoldable pub show_hands :
    Bool → List ℕ → List (ℕ × Score) → Option Score → List ℕ → Option (List Hand)
unfolding must_show
show_hands tabled winners scores best [] = some []
show_hands tabled winners scores best (j ∷ order) = elim (lookup j scores) [
  | none ↦ none
  | some score ↦
      let shown = must_show tabled winners best j score in
      then_hand (record { seat = j; score = score; shown = shown })
        (show_hands tabled winners scores (if shown then raise_best best score else best) order)
]

-- `result["shown"]`, and with `false` `result["mucked"]`.
abbrev pub seats_shown : Bool → List Hand → List ℕ
seats_shown shown hands =
    map (λ (h : Hand). h.seat) (keep (λ (h : Hand). if shown then h.shown else not h.shown) hands)
