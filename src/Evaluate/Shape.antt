-- ===== src/Evaluate/Shape.antt =====
-- Theorems on the category and the tiebreakers that `evaluate` returns.
use texas_holdem.Base.{
  ℕ, ◌+◌, ◌≤◌, ◌<◌, ◌≡◌, ◌≢◌, refl, ap, subst, ◌∙◌, true, false, ◌⊎◌, inl, inr, Option, none, some,
  List, [], ◌∷◌, ◌==◌, ltb, leb, arith, Bool-cases, length, length-append, length-take, get_or, mem,
  take, total, All,
}
use texas_holdem.Base.Sorting.{sort_down, length-sort_down}
use texas_holdem.Cards.{Card}
use texas_holdem.Evaluate.{
  Mask, Score, Groups, Tally, empty_tally, tally_from, others, ranks_down, max_of, max_with,
  with_kicker, with_kickers, pair_score, group_score, group_ranks, no_groups, flush_score,
  flush_suit, suit_ranks, straight_high, mask_of, evaluate,
}
use texas_holdem.Evaluate.Counts.{
  IsCard, count_rank, total-count_rank, evaluate-counts, evaluate-counts-le, flush_five,
}
use texas_holdem.Evaluate.Grouping.{
  Grouped, Paired, onto, rank_above, rank_seen, rank_below, evaluate-Grouped,
}
use texas_holdem.Evaluate.Kickers.{others-one, others-two, others-none}

-- The number of tiebreakers of each category, from high card to straight flush.
abbrev pub tiebreaks : ℕ → ℕ
tiebreaks category = get_or (5 ∷ 4 ∷ 3 ∷ 3 ∷ 1 ∷ 5 ∷ 2 ∷ 2 ∷ 1 ∷ []) category 0

pub record IsScore (s : Score) : Type 0 where
  pub known : s.category ≤ 8
  pub broken : length s.tiebreak ≡ tiebreaks s.category

abbrev pub Scores : Option Score → Type 0
Scores r = (s : Score) × (r ≡ some s) × IsScore s

kicker-Scores :
    (category : ℕ) (fixed xs : List ℕ)
    → category ≤ 8
    → length fixed + 1 ≡ tiebreaks category
    → 0 < length xs
    → Scores (with_kicker category fixed (max_of xs))
unfolding max_of
kicker-Scores category fixed [] known enough some_left = elim some_left [ ]
kicker-Scores category fixed (x ∷ xs) known enough some_left = (
  _,
  refl,
  record { known = known; broken = omega (arith, length-append fixed (max_with x xs ∷ [])) },
)

kickers-Scores :
    (category : ℕ) (fixed : List ℕ) (n : ℕ) (xs : List ℕ)
    → category ≤ 8
    → length fixed + n ≡ tiebreaks category
    → n ≤ length xs
    → Scores (with_kickers category fixed n xs)
kickers-Scores category fixed n xs known enough left =
    let fits : leb n (length xs) ≡ true = ground arith in
    rw fits (
      _,
      refl,
      record {
        known = known;
        broken = omega (arith, length-append fixed (take n xs), length-take n xs);
      },
    )

no_elements : (xs : List ℕ) → ltb 0 (length xs) ≡ false → xs ≡ []
no_elements [] h = refl
no_elements (x ∷ xs) h = absurd (ground arith)

module _ (count : ℕ → ℕ) (n : ℕ) (five : 5 ≤ n) (from_total : total count ranks_down ≡ n)
    (four_suits : (v : ℕ) → count v ≤ 4) where
  no_more :
      (g : Groups) (v : ℕ)
      → Grouped count (onto ranks_down []) g
      → g.quads ≡ 0
      → mem v ranks_down ≡ true
      → (v ≡ g.trips) ⊎ ((mem v g.pairs ≡ true) ⊎ (count v ≤ 1))
  no_more g v s no_quads there =
      ground (arith, s.cover v (rank_above v there) (rank_seen v there), four_suits v)

  pairs-Scores :
      (g : Groups) (pairs : List ℕ)
      → Grouped count (onto ranks_down []) g
      → g.quads ≡ 0
      → g.trips ≡ 0
      → g.pairs ≡ pairs
      → Scores (pair_score count pairs)
  unfolding pair_score
  pairs-Scores g (p ∷ q ∷ pairs) s no_quads no_trips same =
      let are = subst (All (Paired count g)) same s.two in
      let p_two : count p ≡ 2 = ground (arith, are.0) in
      let q_two : count q ≡ 2 = ground (arith, are.1) in
      kicker-Scores 2 (p ∷ q ∷ []) _ (omega arith) refl
        (omega (arith, others-two count p q 4 n (λ v there. four_suits v) from_total))
  pairs-Scores g (p ∷ []) s no_quads no_trips same =
      let are = subst (All (Paired count g)) same s.two in
      let p_two : count p ≡ 2 = ground (arith, are.0) in
      kickers-Scores 1 (p ∷ []) 3 _ (omega arith) refl (
        omega (
          arith,
          others-one count p 1 n
              (λ v there other.
                ground (arith, no_more g v s no_quads there, rank_above v there, ap (mem v) same))
              from_total,
        ))
  pairs-Scores g [] s no_quads no_trips same = (
    _,
    refl,
    record {
      known = omega arith;
      broken = omega (
        arith,
        length-take 5 (others count (λ v. false) ranks_down),
        others-none count 1 n
            (λ v there.
              ground (arith, no_more g v s no_quads there, rank_above v there, ap (mem v) same))
            from_total,
      );
    },
  )

  trips-Scores :
      (g : Groups)
      → Grouped count (onto ranks_down []) g
      → g.quads ≡ 0
      → g.trips ≢ 0
      → g.pairs ≡ []
      → Scores (with_kickers 3 (g.trips ∷ []) 2 (others count (λ v. v == g.trips) ranks_down))
  trips-Scores g s no_quads trips no_pairs =
      kickers-Scores 3 (g.trips ∷ []) 2 _ (omega arith) refl (
        omega (
          arith,
          others-one count g.trips 1 n
              (λ v there other.
                ground
                  (arith, no_more g v s no_quads there, rank_above v there, ap (mem v) no_pairs))
              from_total,
          s.three trips,
        ))

  pub group_score-Scores :
      (mask : Mask) (g : Groups)
      → Grouped count (onto ranks_down []) g
      → Scores (group_score count mask g)
  unfolding group_score
  group_score-Scores mask g s = elim (Bool-cases (g.quads == 0)) [
    | inl no_quads ↦
        let no_quad : g.quads ≡ 0 = ground arith in
        elim (Bool-cases (g.trips == 0)) [
          | inl no_trips ↦ elim (Bool-cases (straight_high mask == 0)) [
            | inl no_straight ↦
                rw (no_quads, no_trips, no_straight)
                  (pairs-Scores g g.pairs s no_quad (ground arith) refl)
            | inr straight ↦
                rw (no_quads, no_trips, straight)
                  (_, refl, record { known = omega arith; broken = refl })
          ]
          | inr trips ↦ elim (Bool-cases (ltb 0 (length g.pairs))) [
            | inl paired ↦
                rw (no_quads, trips, paired)
                  (_, refl, record { known = omega arith; broken = refl })
            | inr unpaired ↦ elim (Bool-cases (straight_high mask == 0)) [
              | inl no_straight ↦
                  rw (no_quads, trips, unpaired, no_straight)
                    (trips-Scores g s no_quad (ground arith) (no_elements g.pairs unpaired))
              | inr straight ↦
                  rw (no_quads, trips, unpaired, straight)
                    (_, refl, record { known = omega arith; broken = refl })
            ]
          ]
        ]
    | inr quads ↦ rw quads (
        kicker-Scores 7 (g.quads ∷ []) _ (omega arith) refl (
          omega (
            arith,
            others-one count g.quads 4 n (λ v there other. four_suits v) from_total,
            s.four (ground arith),
          )))
  ]

total-eq_on :
    (f g : ℕ → ℕ) (vs : List ℕ) → ((v : ℕ) → mem v vs ≡ true → f v ≡ g v) → total f vs ≡ total g vs
total-eq_on f g [] h = refl
total-eq_on f g (v ∷ vs) h =
    omega (arith, h v (ground arith), total-eq_on f g vs (λ w there. h w (ground arith)))

flush_score-IsScore : (ranks : List ℕ) → 5 ≤ length ranks → IsScore (flush_score ranks)
unfolding flush_score
flush_score-IsScore ranks five = elim (Bool-cases (straight_high (mask_of ranks) == 0)) [
  | inl no_straight ↦ rw no_straight (record {
    known = omega arith;
    broken = omega (arith, length-take 5 (sort_down ranks), length-sort_down ranks);
  })
  | inr straight ↦ rw straight (record { known = omega arith; broken = refl })
]

-- `evaluate` returns on five cards of the deck or more, no five of them of one rank: the category
-- is one of the nine, and there are as many tiebreakers as the category has, so that no tiebreak
-- runs out before the other.
pub evaluate-Scores :
    (cards : List Card)
    → All IsCard cards
    → 5 ≤ length cards
    → ((v : ℕ) → count_rank cards v ≤ 4)
    → Scores (evaluate cards)
unfolding evaluate
evaluate-Scores cards deck five four_suits = go (flush_suit 0 t.suits) refl
  where
    t : Tally
    t = tally_from empty_tally cards

    count : ℕ → ℕ
    count = λ v. get_or t.ranks v 0

    go :
        (flush : Option ℕ)
        → flush_suit 0 t.suits ≡ flush
        → Scores (elim flush as (λ _. Option Score) [
          | some s ↦ some (flush_score (suit_ranks s cards))
          | none ↦ group_score count t.mask (group_ranks count ranks_down no_groups)
        ])
    go none e =
        group_score-Scores count (length cards) five
          (total-eq_on count (count_rank cards) ranks_down
              (λ v there. evaluate-counts v cards (rank_below v there))
            ∙ total-count_rank cards deck)
          (λ v. omega (arith, evaluate-counts-le v cards, four_suits v)) t.mask
          (group_ranks count ranks_down no_groups) (evaluate-Grouped count)
    go (some s) e = (_, refl, flush_score-IsScore (suit_ranks s cards) (flush_five s cards e))
