-- ===== src/Evaluate/Counts.antt =====
-- Lemmas on the first loop of `evaluate`: the cards of a rank and of a suit.
use texas_holdem.Base.{
  ℕ, zero, suc, ◌+◌, ◌≤◌, ◌<◌, ◌≡◌, refl, Bool, inl, inr, some, List, [], ◌∷◌, ◌==◌, leb, ltb,
  if◌then◌else◌, arith, Bool-cases, length, length-modify, length-map, get_or, keep, modify, total,
  total-add, total-eq, All,
}
use texas_holdem.Cards.{Card}
use texas_holdem.Evaluate.{
  Tally, empty_tally, tally_from, count_card, flush_suit, suit_ranks, ranks_down,
}

-- A card of the deck.
pub record IsCard (c : Card) : Type 0 where
  pub least : 2 ≤ c.v
  pub most : c.v ≤ 14
  pub suit : c.s < 4

abbrev pub count_rank : List Card → ℕ → ℕ
count_rank cards v = length (keep (λ (c : Card). c.v == v) cards)

abbrev pub count_suit : List Card → ℕ → ℕ
count_suit cards s = length (keep (λ (c : Card). c.s == s) cards)

abbrev one_if : Bool → ℕ
one_if b = if b then 1 else 0

get_or-modify-suc :
    (i k : ℕ) (xs : List ℕ)
    → k < length xs
    → get_or (modify i suc xs) k 0 ≡ one_if (i == k) + get_or xs k 0
get_or-modify-suc i k [] h = elim h [ ]
get_or-modify-suc zero zero (x ∷ xs) h = omega arith
get_or-modify-suc zero (suc k) (x ∷ xs) h = ground arith
get_or-modify-suc (suc i) zero (x ∷ xs) h = ground arith
get_or-modify-suc (suc i) (suc k) (x ∷ xs) h = ground (arith, get_or-modify-suc i k xs)

count_rank-cons :
    (c : Card) (cards : List Card) (v : ℕ)
    → count_rank (c ∷ cards) v ≡ one_if (c.v == v) + count_rank cards v
count_rank-cons c cards v = ground arith

tally-ranks :
    (v : ℕ) (cards : List Card) (t : Tally)
    → v < length t.ranks
    → get_or (tally_from t cards).ranks v 0 ≡ get_or t.ranks v 0 + count_rank cards v
unfolding tally_from
tally-ranks v [] t h = omega arith
tally-ranks v (c ∷ cards) t h = omega (
  arith,
  tally-ranks v cards (count_card t c) (omega (arith, length-modify c.v suc t.ranks)),
  get_or-modify-suc c.v v t.ranks h,
  count_rank-cons c cards v,
)

count_suit-cons :
    (c : Card) (cards : List Card) (s : ℕ)
    → count_suit (c ∷ cards) s ≡ one_if (c.s == s) + count_suit cards s
count_suit-cons c cards s = ground arith

tally-suits :
    (s : ℕ) (cards : List Card) (t : Tally)
    → s < length t.suits
    → get_or (tally_from t cards).suits s 0 ≡ get_or t.suits s 0 + count_suit cards s
unfolding tally_from
tally-suits s [] t h = omega arith
tally-suits s (c ∷ cards) t h = omega (
  arith,
  tally-suits s cards (count_card t c) (omega (arith, length-modify c.s suc t.suits)),
  get_or-modify-suc c.s s t.suits h,
  count_suit-cons c cards s,
)

-- Every card has one rank.
one_rank : (w : ℕ) → 2 ≤ w → w ≤ 14 → total (λ v. one_if (w == v)) ranks_down ≡ 1
unfolding ranks_down
one_rank w low high = ground arith

no_cards : total (count_rank []) ranks_down ≡ 0
unfolding ranks_down
no_cards = refl

pub total-count_rank :
    (cards : List Card) → All IsCard cards → total (count_rank cards) ranks_down ≡ length cards
total-count_rank [] all = no_cards
total-count_rank (c ∷ cards) all = omega (
  arith,
  total-eq (count_rank (c ∷ cards)) (λ v. one_if (c.v == v) + count_rank cards v)
      (count_rank-cons c cards) ranks_down,
  total-add (λ v. one_if (c.v == v)) (count_rank cards) ranks_down,
  one_rank c.v (all.0).least (all.0).most,
  total-count_rank cards all.1,
)

zero_at : (k : ℕ) (xs : List ℕ) → All (λ x. x ≡ 0) xs → get_or xs k 0 ≡ 0
zero_at k [] all = refl
zero_at zero (x ∷ xs) all = all.0
zero_at (suc k) (x ∷ xs) all = zero_at k xs all.1

pub evaluate-counts :
    (v : ℕ) (cards : List Card)
    → v < 15
    → get_or (tally_from empty_tally cards).ranks v 0 ≡ count_rank cards v
evaluate-counts v cards h =
    omega (arith, tally-ranks v cards empty_tally h, zero_at v empty_tally.ranks (omega arith))

length-ranks : (cards : List Card) (t : Tally) → length (tally_from t cards).ranks ≡ length t.ranks
unfolding tally_from
length-ranks [] t = refl
length-ranks (c ∷ cards) t =
    omega (arith, length-ranks cards (count_card t c), length-modify c.v suc t.ranks)

beyond : (k : ℕ) (xs : List ℕ) → length xs ≤ k → get_or xs k 0 ≡ 0
beyond k [] h = refl
beyond zero (x ∷ xs) h = absurd (omega arith)
beyond (suc k) (x ∷ xs) h = beyond k xs (omega arith)

-- No count is above the number of cards of its rank.
pub evaluate-counts-le :
    (v : ℕ) (cards : List Card)
    → get_or (tally_from empty_tally cards).ranks v 0 ≤ count_rank cards v
evaluate-counts-le v cards = elim (Bool-cases (ltb v 15)) [
  | inl inside ↦ omega (arith, evaluate-counts v cards (ground arith))
  | inr outside ↦
      let far : 15 ≤ v = ground arith in
      omega (
        arith,
        beyond v (tally_from empty_tally cards).ranks
            (omega (arith, length-ranks cards empty_tally)),
      )
]

length-suits : (cards : List Card) (t : Tally) → length (tally_from t cards).suits ≡ length t.suits
unfolding tally_from
length-suits [] t = refl
length-suits (c ∷ cards) t =
    omega (arith, length-suits cards (count_card t c), length-modify c.s suc t.suits)

flush_suit-some :
    (i s : ℕ) (suits : List ℕ)
    → flush_suit i suits ≡ some s
    → (k : ℕ) × (s ≡ i + k) × (k < length suits) × (5 ≤ get_or suits k 0)
unfolding flush_suit
flush_suit-some i s [] h = cc
flush_suit-some i s (n ∷ suits) h = elim (Bool-cases (leb 5 n)) [
  | inl five ↦
      let same : some i ≡ some s = rw five at h in (zero, ground arith, omega arith, ground arith)
  | inr fewer ↦
      let (k, at, there, five) = flush_suit-some (suc i) s suits (rw fewer at h) in
      (suc k, omega arith, omega arith, five)
]

-- The suit of a flush has five cards.
pub flush_five :
    (s : ℕ) (cards : List Card)
    → flush_suit 0 (tally_from empty_tally cards).suits ≡ some s
    → 5 ≤ length (suit_ranks s cards)
flush_five s cards h =
    let suits = (tally_from empty_tally cards).suits in
    let (k, at, there, five) = flush_suit-some 0 s suits h in
    let inside : k < 4 = omega (arith, length-suits cards empty_tally) in
    let same : s ≡ k = omega arith in
    rw same (
      omega (
        arith,
        tally-suits k cards empty_tally inside,
        zero_at k empty_tally.suits (omega arith),
        length-map (λ (c : Card). c.v) (keep (λ c. c.s == k) cards),
      ))
