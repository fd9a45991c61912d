-- ===== src/Examples/Scores.antt =====
-- Hands that are scored, and a board on which two seats show down.
use texas_holdem.Base.{
  ℕ, ◌≡◌, ◌≤◌, ◌<◌, refl, true, some, List, [], ◌∷◌, arith, All, mem, ◌==◌, subst, sym, Bool-cases,
  inl, inr,
}
use texas_holdem.Cards.{Card}
use texas_holdem.Evaluate.{
  Score, evaluate, straight_high, hand_name, royal_flush, best_five, mask_of, tally_from,
  flush_suit, flush_score, group_ranks, group_rank, group_score, pair_score, max_of, ranks_down,
  score_lt, lex_lt,
}
use texas_holdem.Evaluate.Counts.{IsCard, count_rank}
use texas_holdem.Evaluate.Straight.{IsBestStraight, straight_high-IsBestStraight}
use texas_holdem.Evaluate.BestFive.{IsBestFive, best_five-IsBestFive}
use texas_holdem.Evaluate.Order.{evaluate-perm}
use texas_holdem.Showdown.{run_winners, best_score}
use texas_holdem.Showdown.Scores.{Scored, IsWinners, run_winners-IsWinners}
use mathlib.Core.List.{Permᴰ}
use texas_holdem.Evaluate.Shape.{Scores, evaluate-Scores}

-- Ace to ten of spades, the two of hearts and the two of clubs.
abbrev royal : List Card
royal =
    record { v = 14; s = 3 }
    ∷ record { v = 13; s = 3 }
    ∷ record { v = 2; s = 0 }
    ∷ record { v = 12; s = 3 }
    ∷ record { v = 11; s = 3 }
    ∷ record { v = 10; s = 3 }
    ∷ record { v = 2; s = 2 }
    ∷ []

-- Aces and kings with a queen.
abbrev two_pairs : List Card
two_pairs =
    record { v = 14; s = 3 }
    ∷ record { v = 13; s = 3 }
    ∷ record { v = 14; s = 0 }
    ∷ record { v = 12; s = 1 }
    ∷ record { v = 13; s = 2 }
    ∷ []

royal_run : evaluate royal ≡ some (record { category = 8; tiebreak = 14 ∷ [] })
unfolding evaluate tally_from flush_suit flush_score straight_high mask_of
royal_run = refl

royal_name : hand_name (record { category = 8; tiebreak = 14 ∷ [] }) ≡ some royal_flush
unfolding hand_name
royal_name = refl

two_pairs_run : evaluate two_pairs ≡ some (record { category = 2; tiebreak = 14 ∷ 13 ∷ 12 ∷ [] })
unfolding evaluate tally_from flush_suit group_ranks group_rank group_score straight_high pair_score
    max_of ranks_down
two_pairs_run = refl

-- The ace plays low: five high.
wheel : straight_high (mask_of (14 ∷ 2 ∷ 3 ∷ 4 ∷ 5 ∷ 9 ∷ [])) ≡ 5
unfolding straight_high mask_of
wheel = refl

straight_high-IsBestStraight_example :
    IsBestStraight
      (mask_of (14 ∷ 2 ∷ 3 ∷ 4 ∷ 5 ∷ []))
      (straight_high (mask_of (14 ∷ 2 ∷ 3 ∷ 4 ∷ 5 ∷ [])))
straight_high-IsBestStraight_example =
    straight_high-IsBestStraight (mask_of (14 ∷ 2 ∷ 3 ∷ 4 ∷ 5 ∷ []))

four_suits : (v : ℕ) → count_rank two_pairs v ≤ 4
four_suits v = ground arith

in_deck : (v s : ℕ) → 2 ≤ v → v ≤ 14 → s < 4 → IsCard (record { v = v; s = s })
in_deck v s least most suit = record { least = least; most = most; suit = suit }

cards_of_deck : All IsCard two_pairs
cards_of_deck = (
  in_deck 14 3 (omega arith) (omega arith) (omega arith),
  (
    in_deck 13 3 (omega arith) (omega arith) (omega arith),
    (
      in_deck 14 0 (omega arith) (omega arith) (omega arith),
      (
        in_deck 12 1 (omega arith) (omega arith) (omega arith),
        (in_deck 13 2 (omega arith) (omega arith) (omega arith), tt),
      ),
    ),
  ),
)

evaluate-Scores_example : Scores (evaluate two_pairs)
evaluate-Scores_example = evaluate-Scores two_pairs cards_of_deck (omega arith) four_suits

best_five-IsBestFive_example :
    (t : Score) × (best : List Card) × (best_five two_pairs ≡ some (t, best))
    × IsBestFive two_pairs t best
best_five-IsBestFive_example = best_five-IsBestFive two_pairs cards_of_deck (omega arith) four_suits

abbrev swapped : List Card
swapped =
    record { v = 13; s = 3 }
    ∷ record { v = 14; s = 3 }
    ∷ record { v = 14; s = 0 }
    ∷ record { v = 12; s = 1 }
    ∷ record { v = 13; s = 2 }
    ∷ []

evaluate-perm_example : evaluate two_pairs ≡ evaluate swapped
evaluate-perm_example = evaluate-perm two_pairs swapped ∣ Permᴰ.swap refl refl ∣₁

-- Seat 0 has two pairs, seats 3 and 5 have the same pair.
abbrev board_scores : List (ℕ × Score)
board_scores =
    (0, record { category = 2; tiebreak = 9 ∷ 4 ∷ 14 ∷ [] })
    ∷ (3, record { category = 1; tiebreak = 9 ∷ 14 ∷ 13 ∷ 8 ∷ [] })
    ∷ (5, record { category = 1; tiebreak = 9 ∷ 14 ∷ 13 ∷ 8 ∷ [] })
    ∷ []

winners_run :
    run_winners board_scores (3 ∷ 5 ∷ []) (best_score board_scores (3 ∷ 5 ∷ [])) ≡ some (3 ∷ 5 ∷ [])
unfolding run_winners best_score score_lt lex_lt
winners_run = refl

board-Scored : (k : ℕ) → mem k (3 ∷ 5 ∷ []) ≡ true → Scored board_scores k
board-Scored k there = elim (Bool-cases (k == 3)) [
  | inl first ↦ let is : k ≡ 3 = ground arith in subst (Scored board_scores) (sym is) (_, refl)
  | inr other ↦ let is : k ≡ 5 = ground arith in subst (Scored board_scores) (sym is) (_, refl)
]

run_winners-IsWinners_example :
    (ws : List ℕ) × (run_winners board_scores (3 ∷ 5 ∷ []) (best_score board_scores (3 ∷ 5 ∷ []))
      ≡ some ws)
    × IsWinners board_scores (3 ∷ 5 ∷ []) ws
run_winners-IsWinners_example = run_winners-IsWinners board_scores 3 (5 ∷ []) board-Scored
