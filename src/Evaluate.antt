-- ===== src/Evaluate.antt =====
-- The hand evaluator of holdem/engine.py: `_build_straight_table`, `evaluate`, `hand_name` and
-- `best_five`. A rank mask is the set of its bits, and the dict `_STRAIGHT_HIGH`, which holds every
-- mask, is the function that fills it.
pub mod Straight
pub mod Kickers
pub mod Shape
pub mod Ordering
pub mod BestFive
pub mod Grouping
pub mod Counts
pub mod Order
use texas_holdem.Base.{
  ℕ, zero, suc, ◌+◌, Bool, true, false, ◌&&◌, ◌||◌, not, Option, none, some, List, [], ◌∷◌, ◌++◌,
  map, ltb, leb, ◌==◌, if◌then◌else◌, length, get_elem?, get_or, take, keep, modify, max,
}
use texas_holdem.Base.Sorting.{sort_down}
use texas_holdem.Cards.{Card, same_list}

-- `m & (1 << r)`
abbrev pub Mask : Type 0
Mask = ℕ → Bool

-- `mask |= 1 << v`
abbrev pub set_bit : ℕ → Mask → Mask
set_bit v mask = λ r. mask r || (r == v)

abbrev pub no_bits : Mask
no_bits = λ r. false

-- The ace plays low as well.
unfoldable pub ace_low : Mask → Mask
ace_low mask = λ r. mask r || (mask 14 && (r == 1))

-- `for r in range(14, 0, -1)`, from `r` down, with the length of the run so far.
unfoldable pub scan_run : Mask → ℕ → ℕ → ℕ
scan_run mask run zero = 0
scan_run mask run (suc r) =
    let rest = scan_run mask (if mask (suc r) then run + 1 else 0) r in
    if mask (suc r) && (run + 1 == 5) then suc r + 4 else rest

-- `_STRAIGHT_HIGH.get(mask, 0)`
unfoldable pub straight_high : Mask → ℕ
unfolding ace_low scan_run
straight_high mask = scan_run (ace_low mask) 0 14

-- `suit_count`, `counts` and `mask`.
pub record Tally : Type 0 where
  pub suits : List ℕ
  pub ranks : List ℕ
  pub mask : Mask

abbrev pub empty_tally : Tally
empty_tally = record {
  suits = 0 ∷ 0 ∷ 0 ∷ 0 ∷ [];
  ranks = 0 ∷ 0 ∷ 0 ∷ 0 ∷ 0 ∷ 0 ∷ 0 ∷ 0 ∷ 0 ∷ 0 ∷ 0 ∷ 0 ∷ 0 ∷ 0 ∷ 0 ∷ [];
  mask = no_bits;
}

-- Cards are those of a deck: on a rank above 14 or a suit above 3 the source raises an IndexError,
-- where the counts stay as they are.
abbrev pub count_card : Tally → Card → Tally
count_card t c = record {
  suits = modify c.s suc t.suits;
  ranks = modify c.v suc t.ranks;
  mask = set_bit c.v t.mask;
}

-- The loop over the cards.
unfoldable pub tally_from : Tally → List Card → Tally
tally_from t [] = t
tally_from t (c ∷ cards) = tally_from (count_card t c) cards

-- `(category, tiebreakers)`
pub record Score : Type 0 where
  pub category : ℕ
  pub tiebreak : List ℕ

-- The first suit with five cards.
unfoldable pub flush_suit : ℕ → List ℕ → Option ℕ
flush_suit s [] = none
flush_suit s (n ∷ suits) = if leb 5 n then some s else flush_suit (suc s) suits

-- `[c.v for c in cards if c.s == fs]`
abbrev pub suit_ranks : ℕ → List Card → List ℕ
suit_ranks s cards = map (λ (c : Card). c.v) (keep (λ c. c.s == s) cards)

unfoldable pub mask_of : List ℕ → Mask
mask_of [] = no_bits
mask_of (v ∷ vs) = set_bit v (mask_of vs)

-- A straight flush, or the five highest ranks of the suit.
unfoldable pub flush_score : List ℕ → Score
unfolding straight_high mask_of sort_down
flush_score ranks =
    let high = straight_high (mask_of ranks) in
    if high == 0
    then record { category = 5; tiebreak = take 5 (sort_down ranks) }
    else record { category = 8; tiebreak = high ∷ [] }

-- `range(14, 1, -1)`
unfoldable pub ranks_down : List ℕ
ranks_down = 14 ∷ 13 ∷ 12 ∷ 11 ∷ 10 ∷ 9 ∷ 8 ∷ 7 ∷ 6 ∷ 5 ∷ 4 ∷ 3 ∷ 2 ∷ []

pub record Groups : Type 0 where
  pub quads : ℕ
  pub trips : ℕ
  pub pairs : List ℕ

-- One round of the loop over the ranks: the rank `v`, which `c` cards have.
unfoldable pub group_rank : ℕ → ℕ → Groups → Groups
group_rank v c g =
    if (c == 4) && (g.quads == 0)
    then record g { quads = v }
    else if c == 3
    then (if g.trips == 0 then record g { trips = v } else record g { pairs = g.pairs ++ v ∷ [] })
    else if c == 2
    then record g { pairs = g.pairs ++ v ∷ [] }
    else g

unfoldable pub group_ranks : (ℕ → ℕ) → List ℕ → Groups → Groups
unfolding group_rank
group_ranks count [] g = g
group_ranks count (v ∷ vs) g = group_ranks count vs (group_rank v (count v) g)

-- `[v for v in range(14, 1, -1) if counts[v] and not used(v)]`
abbrev pub others : (ℕ → ℕ) → (ℕ → Bool) → List ℕ → List ℕ
others count used = keep λ v. ltb 0 (count v) && not (used v)

-- `max(vs)`, which raises on an empty sequence.
abbrev pub max_with : ℕ → List ℕ → ℕ
max_with v [] = v
max_with v (w ∷ ws) = max v (max_with w ws)

unfoldable pub max_of : List ℕ → Option ℕ
max_of [] = none
max_of (v ∷ vs) = some (max_with v vs)

-- A score with the first `n` kickers, which raises where there are fewer.
abbrev pub with_kickers : ℕ → List ℕ → ℕ → List ℕ → Option Score
with_kickers category fixed n kickers =
    if leb n (length kickers)
    then some (record { category = category; tiebreak = fixed ++ take n kickers })
    else none

abbrev pub with_kicker : ℕ → List ℕ → Option ℕ → Option Score
with_kicker category fixed none = none
with_kicker category fixed (some kick) =
    some (record { category = category; tiebreak = fixed ++ kick ∷ [] })

-- What the pairs decide, from the list `pairs` on.
unfoldable pub pair_score : (ℕ → ℕ) → List ℕ → Option Score
pair_score count (p ∷ q ∷ pairs) =
    with_kicker 2 (p ∷ q ∷ []) (max_of (others count (λ v. (v == p) || (v == q)) ranks_down))
pair_score count (p ∷ []) = with_kickers 1 (p ∷ []) 3 (others count (λ v. v == p) ranks_down)
pair_score count [] =
    some (record { category = 0; tiebreak = take 5 (others count (λ v. false) ranks_down) })

abbrev pub first_or_zero : List ℕ → ℕ
first_or_zero [] = 0
first_or_zero (p ∷ pairs) = p

-- The chain of returns after the loop over the ranks.
unfoldable pub group_score : (ℕ → ℕ) → Mask → Groups → Option Score
group_score count mask g =
    if not (g.quads == 0)
    then with_kicker 7 (g.quads ∷ []) (max_of (others count (λ v. v == g.quads) ranks_down))
    else if not (g.trips == 0) && ltb 0 (length g.pairs)
    then some (record { category = 6; tiebreak = g.trips ∷ first_or_zero g.pairs ∷ [] })
    else if not (straight_high mask == 0)
    then some (record { category = 4; tiebreak = straight_high mask ∷ [] })
    else if not (g.trips == 0)
    then with_kickers 3 (g.trips ∷ []) 2 (others count (λ v. v == g.trips) ranks_down)
    else pair_score count g.pairs

abbrev pub no_groups : Groups
no_groups = record { quads = 0; trips = 0; pairs = [] }

-- `evaluate`; `none` is a Python error.
unfoldable pub evaluate : List Card → Option Score
evaluate cards =
    let t = tally_from empty_tally cards in
    elim (flush_suit 0 t.suits) [
      | some s ↦ some (flush_score (suit_ranks s cards))
      | none ↦
          let count = λ (v : ℕ). get_or t.ranks v 0 in
          group_score count t.mask (group_ranks count ranks_down no_groups)
    ]

-- The order of Python's tuples.
unfoldable pub lex_lt : List ℕ → List ℕ → Bool
lex_lt xs [] = false
lex_lt [] (y ∷ ys) = true
lex_lt (x ∷ xs) (y ∷ ys) = ltb x y || ((x == y) && lex_lt xs ys)

unfoldable pub score_lt : Score → Score → Bool
unfolding lex_lt
score_lt a b =
    ltb a.category b.category || ((a.category == b.category) && lex_lt a.tiebreak b.tiebreak)

abbrev pub same_score : Score → Score → Bool
same_score a b = (a.category == b.category) && same_list a.tiebreak b.tiebreak

pub data HandName : Type 0 where
  high_card one_pair two_pair three_of_a_kind straight flush full_house four_of_a_kind
        straight_flush royal_flush :
      HandName

unfoldable pub hand_name : Score → Option HandName
hand_name score =
    if (score.category == 8) && (first_or_zero score.tiebreak == 14)
    then some royal_flush
    else get_elem?
        (high_card ∷ one_pair ∷ two_pair ∷ three_of_a_kind ∷ straight ∷ flush ∷ full_house
          ∷ four_of_a_kind ∷ straight_flush ∷ [])
        score.category

-- `itertools.combinations(cards, n)`, in its order.
unfoldable pub combinations : ℕ → List Card → List (List Card)
combinations zero cards = [] ∷ []
combinations (suc n) [] = []
combinations (suc n) (c ∷ cards) =
    map (λ rest. c ∷ rest) (combinations n cards) ++ combinations (suc n) cards

-- `if best is None or sc > best`
abbrev pub better : Option (Score × List Card) → Score → List Card → Option (Score × List Card)
better none score combo = some (score, combo)
better (some (best, five)) score combo =
    if score_lt best score then some (score, combo) else some (best, five)

-- The loop of `best_five`: the best score so far, and the cards that made it.
unfoldable pub best_of : Option (Score × List Card) → List (List Card) → Option (Score × List Card)
best_of best [] = best
best_of best (combo ∷ combos) = elim (evaluate combo) [
  | none ↦ none
  | some score ↦ best_of (better best score combo) combos
]

-- `best_five`, with the score of the five cards; `none` is a Python error.
unfoldable pub best_five : List Card → Option (Score × List Card)
best_five cards = best_of none (combinations 5 cards)
