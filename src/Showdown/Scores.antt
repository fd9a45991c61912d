-- ===== src/Showdown/Scores.antt =====
-- Theorems on the scores of a showdown and the winners of a run.
use texas_holdem.Base.{
  ℕ, ◌≤◌, ◌≡◌, refl, sym, ap, ◌∙◌, Bool, true, false, ◌&&◌, some, List, [], ◌∷◌, ◌++◌, map, ◌==◌,
  arith, Bool-cases, inl, inr, length, mem, mem-keep, keep, All, ==_refl,
}
use texas_holdem.Cards.{Card}
use texas_holdem.Table.{Player}
use texas_holdem.Evaluate.{Score, score_lt, same_score}
use texas_holdem.Evaluate.Counts.{IsCard, count_rank}
use texas_holdem.Evaluate.Shape.{evaluate-Scores}
use texas_holdem.Evaluate.BestFive.{best_five-IsBestFive}
use texas_holdem.Evaluate.Ordering.{
  score_lt_trans, score_lt_irrefl, score_lt-cotrans, score_lt-total, same_score_refl, same_score-eq,
}
use texas_holdem.Showdown.{Run, lookup, score_run, best_score, ties, run_winners}

-- A hand of five cards of the deck or more, no five of them of one rank.
pub record IsHand (cards : List Card) : Type 0 where
  pub deck : All IsCard cards
  pub five : 5 ≤ length cards
  pub four_suits : (v : ℕ) → count_rank cards v ≤ 4

abbrev pub Scored : List (ℕ × Score) → ℕ → Type 0
Scored scores k = (s : Score) × (lookup k scores ≡ some s)

abbrev pub idxs : List Player → List ℕ
idxs = map λ (p : Player). p.idx

pub score_run-Scored :
    (board : List Card) (alive : List Player)
    → All (λ (p : Player). IsHand (p.hole ++ board)) alive
    → (run : Run) × (score_run board alive ≡ some run)
      × ((k : ℕ) → mem k (idxs alive) ≡ true → Scored run.scores k)
unfolding score_run
score_run-Scored board [] hands = (_, refl, λ k there. cc)
score_run-Scored board (p ∷ alive) (hand, hands) =
    let (run, scored, all_scored) = score_run-Scored board alive hands in
    let (s, found, shape) = evaluate-Scores (p.hole ++ board) hand.deck hand.five hand.four_suits in
    let (t, five, best, is_best) =
      best_five-IsBestFive (p.hole ++ board) hand.deck hand.five hand.four_suits in
    (
      record run { scores = (p.idx, s) ∷ run.scores; best = (p.idx, five) ∷ run.best },
      rw (found, best, scored) refl,
      λ k there. elim (Bool-cases (p.idx == k)) [
        | inl same ↦ (s, rw same refl)
        | inr other ↦ let (s', at) = all_scored k (ground arith) in (s', rw other at)
      ],
    )

-- The highest score among seats that all have one.
pub record IsBest (scores : List (ℕ × Score)) (eligible : List ℕ) (best : Score) : Type 0 where
  pub of_seat : (w : ℕ) × (mem w eligible ≡ true) × (lookup w scores ≡ some best)
  pub highest :
      (k : ℕ) (s : Score)
      → mem k eligible ≡ true
      → lookup k scores ≡ some s
      → score_lt best s ≡ false

here : (k : ℕ) (xs : List ℕ) → mem k (k ∷ xs) ≡ true
here k xs = ground (arith, ==_refl k)

later : (k x : ℕ) (xs : List ℕ) → mem k xs ≡ true → mem k (x ∷ xs) ≡ true
later k x xs there = ground arith

-- A seat has one score.
lookup-low :
    (scores : List (ℕ × Score)) (i k : ℕ) (best s other : Score)
    → lookup i scores ≡ some s
    → lookup k scores ≡ some other
    → k ≡ i
    → score_lt best s ≡ false
    → score_lt best other ≡ false
lookup-low scores i k best s other at found same low =
    let equal : lookup k scores ≡ lookup i scores = ap (λ x. lookup x scores) same in
    let scores_equal : s ≡ other = cc in rw (← scores_equal) low

not_lower : (a b c : Score) → score_lt a b ≡ false → score_lt b c ≡ false → score_lt a c ≡ false
not_lower a b c h k = ground (arith, score_lt-cotrans a b c)

not_above : (a b : Score) → score_lt a b ≡ true → score_lt b a ≡ false
not_above a b h = ground (arith, score_lt_trans a b a, score_lt_irrefl a)

pub best_score-IsBest :
    (scores : List (ℕ × Score)) (i : ℕ) (eligible : List ℕ)
    → ((k : ℕ) → mem k (i ∷ eligible) ≡ true → Scored scores k)
    → (best : Score) × (best_score scores (i ∷ eligible) ≡ some best)
      × IsBest scores (i ∷ eligible) best
unfolding best_score
best_score-IsBest scores i [] scored =
    let (s, at) = scored i (here i []) in
    (
      s,
      at,
      record {
        of_seat = (i, here i [], at);
        highest = λ k other there found.
            lookup-low scores i k s s other at found (ground arith) (score_lt_irrefl s);
      },
    )
best_score-IsBest scores i (j ∷ eligible) scored =
    let (s, at) = scored i (here i (j ∷ eligible)) in
    let (b, found, best) =
      best_score-IsBest scores j eligible (λ k there. scored k (later k i (j ∷ eligible) there)) in
    elim (Bool-cases (score_lt s b)) [
      | inl lower ↦
          let (w, inside, scored_b) = best.of_seat in
          (
            b,
            rw (at, found, lower) refl,
            record {
              of_seat = (w, later w i (j ∷ eligible) inside, scored_b);
              highest = λ k other there is. elim (Bool-cases (k == i)) [
                | inl same ↦
                    lookup-low scores i k b s other at is (ground arith) (not_above s b lower)
                | inr apart ↦ best.highest k other (ground arith) is
              ];
            },
          )
      | inr higher_hand ↦ (
        s,
        rw (at, found, higher_hand) refl,
        record {
          of_seat = (i, here i (j ∷ eligible), at);
          highest = λ k other there is. elim (Bool-cases (k == i)) [
            | inl same ↦ lookup-low scores i k s s other at is (ground arith) (score_lt_irrefl s)
            | inr apart ↦ not_lower s b other higher_hand (best.highest k other (ground arith) is)
          ];
        },
      )
    ]

-- Who wins a pot in a run: the eligible seats that no eligible seat outscores.
pub record IsWinners (scores : List (ℕ × Score)) (eligible winners : List ℕ) : Type 0 where
  pub some_winner : (w : ℕ) × (mem w winners ≡ true)
  pub may : (k : ℕ) → mem k winners ≡ true → mem k eligible ≡ true
  pub unbeaten :
      (k j : ℕ) (s other : Score)
      → mem k winners ≡ true
      → mem j eligible ≡ true
      → lookup k scores ≡ some s
      → lookup j scores ≡ some other
      → score_lt s other ≡ false
  pub all_best :
      (k : ℕ) (s : Score)
      → mem k eligible ≡ true
      → lookup k scores ≡ some s
      → ((j : ℕ) (other : Score)
          → mem j eligible ≡ true
          → lookup j scores ≡ some other
          → score_lt s other ≡ false)
      → mem k winners ≡ true

abbrev winners_of : List (ℕ × Score) → List ℕ → Score → List ℕ
winners_of scores eligible best = keep (λ k. ties best (lookup k scores)) eligible

both : (a b : Bool) → (a && b) ≡ true → (a ≡ true) × (b ≡ true)
both a b h = ground arith

module _ (scores : List (ℕ × Score)) (eligible : List ℕ) (best : Score)
    (is_best : IsBest scores eligible best) where
  in_winners :
      (k : ℕ) (s : Score)
      → mem k eligible ≡ true
      → lookup k scores ≡ some s
      → same_score s best ≡ true
      → mem k (winners_of scores eligible best) ≡ true
  in_winners k s inside at same =
      rw (mem-keep k (λ j. ties best (lookup j scores)) eligible, inside, at) same

  from_winners :
      (k : ℕ)
      → mem k (winners_of scores eligible best) ≡ true
      → (mem k eligible ≡ true) × (ties best (lookup k scores) ≡ true)
  from_winners k wins =
      both (mem k eligible) (ties best (lookup k scores))
        (sym (mem-keep k (λ j. ties best (lookup j scores)) eligible) ∙ wins)

  winner_score :
      (k : ℕ) (s : Score)
      → mem k (winners_of scores eligible best) ≡ true
      → lookup k scores ≡ some s
      → s ≡ best
  winner_score k s wins at = same_score-eq s best (rw at at (from_winners k wins).1)

  winners_of-IsWinners : IsWinners scores eligible (winners_of scores eligible best)
  winners_of-IsWinners =
      let (w, inside, at) = is_best.of_seat in
      record {
        some_winner = (w, in_winners w best inside at (same_score_refl best));
        may = λ k wins. (from_winners k wins).0;
        unbeaten = λ k j s other wins there ks js.
            rw (winner_score k s wins ks) (is_best.highest j other there js);
        all_best = λ k s there ks beats.
            in_winners k s there ks
              (score_lt-total s best (beats w best inside at) (is_best.highest k s there ks));
      }

-- In a run in which every seat that is eligible for a pot has a score, the winners of the pot are
-- eligible, there is at least one, and they are exactly the eligible seats that no eligible seat
-- outscores.
pub run_winners-IsWinners :
    (scores : List (ℕ × Score)) (i : ℕ) (eligible : List ℕ)
    → ((k : ℕ) → mem k (i ∷ eligible) ≡ true → Scored scores k)
    → (ws : List ℕ) × (run_winners scores (i ∷ eligible) (best_score scores (i ∷ eligible))
        ≡ some ws)
      × IsWinners scores (i ∷ eligible) ws
unfolding run_winners
run_winners-IsWinners scores i eligible scored =
    let (best, found, is_best) = best_score-IsBest scores i eligible scored in
    (
      winners_of scores (i ∷ eligible) best,
      rw found refl,
      winners_of-IsWinners scores (i ∷ eligible) best is_best,
    )
