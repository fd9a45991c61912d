-- ===== src/Evaluate/BestFive.antt =====
-- Theorems on `best_five`.
use texas_holdem.Base.{
  ℕ, zero, suc, ◌≤◌, ◌<◌, ◌≡◌, refl, ap, ◌∙◌, true, false, inl, inr, Option, none, some, List, [],
  ◌∷◌, map, ◌==◌, arith, Bool-cases, ◌++◌, length, length-append, length-map, All, All-append,
}
use texas_holdem.Cards.{Card}
use texas_holdem.Evaluate.{Score, evaluate, score_lt, combinations, better, best_of, best_five}
use texas_holdem.Evaluate.Ordering.{score_lt_trans, score_lt_irrefl, score_lt-cotrans}
use texas_holdem.Evaluate.Counts.{IsCard, count_rank}
use texas_holdem.Evaluate.Shape.{Scores, evaluate-Scores}

-- Some of the cards, in their order.
pub data Chosen : List Card → List Card → Type 0 where
  finished : {cards : List Card} → Chosen [] cards
  picked :
      {c : Card} {cards combo : List Card} → Chosen combo cards → Chosen (c ∷ combo) (c ∷ cards)
  passed : {c : Card} {cards combo : List Card} → Chosen combo cards → Chosen combo (c ∷ cards)

-- A choice of `n` of the cards.
pub record IsChoice (n : ℕ) (cards combo : List Card) : Type 0 where
  pub size : length combo ≡ n
  pub deck : All IsCard combo
  pub ranks : (v : ℕ) → count_rank combo v ≤ count_rank cards v
  pub from : Chosen combo cards

All-map {ℓ κ} :
    {A B : Type ℓ} (P : B → Type κ) (f : A → B) (xs : List A)
    → All (λ x. P (f x)) xs
    → All P (map f xs)
All-map P f [] all = all
All-map P f (x ∷ xs) all = (all.0, All-map P f xs all.1)

All-mono {ℓ κ} :
    {A : Type ℓ} (P Q : A → Type κ) (xs : List A) → ((x : A) → P x → Q x) → All P xs → All Q xs
All-mono P Q [] h all = all
All-mono P Q (x ∷ xs) h all = (h x all.0, All-mono P Q xs h all.1)

taken :
    (n : ℕ) (c : Card) (cards combo : List Card)
    → IsCard c
    → IsChoice n cards combo
    → IsChoice (suc n) (c ∷ cards) (c ∷ combo)
taken n c cards combo is_card i = record {
  size = ap suc i.size;
  deck = (is_card, i.deck);
  ranks = λ v. elim (Bool-cases (c.v == v)) [
    | inl same ↦ rw same (omega (arith, i.ranks v))
    | inr unlike ↦ rw unlike (i.ranks v)
  ];
  from = picked i.from;
}

skipped :
    (n : ℕ) (c : Card) (cards combo : List Card)
    → IsChoice n cards combo
    → IsChoice n (c ∷ cards) combo
skipped n c cards combo i = record {
  size = i.size;
  deck = i.deck;
  ranks = λ v. ground (arith, i.ranks v);
  from = passed i.from;
}

pub combinations-IsChoice :
    (n : ℕ) (cards : List Card) → All IsCard cards → All (IsChoice n cards) (combinations n cards)
unfolding combinations
combinations-IsChoice zero cards all =
    (record { size = refl; deck = tt; ranks = λ v. omega arith; from = finished }, tt)
combinations-IsChoice (suc n) [] all = tt
combinations-IsChoice (suc n) (c ∷ cards) all =
    All-append (IsChoice (suc n) (c ∷ cards)) (map (λ rest. c ∷ rest) (combinations n cards))
      (combinations (suc n) cards)
      (All-map (IsChoice (suc n) (c ∷ cards)) (λ rest. c ∷ rest) (combinations n cards)
        (All-mono (IsChoice n cards) _ (combinations n cards) (λ combo. taken n c cards combo all.0)
          (combinations-IsChoice n cards all.1)))
      (All-mono (IsChoice (suc n) cards) _ (combinations (suc n) cards)
        (λ combo. skipped (suc n) c cards combo) (combinations-IsChoice (suc n) cards all.1))

All-front {ℓ κ} :
    {A : Type ℓ} (P : A → Type κ) (xs ys : List A) → All P (xs ++ ys) → All P xs × All P ys
All-front P [] ys all = (tt, all)
All-front P (x ∷ xs) ys all = let (front, back) = All-front P xs ys all.1 in ((all.0, front), back)

All-unmap {ℓ κ} :
    {A B : Type ℓ} (P : B → Type κ) (f : A → B) (xs : List A)
    → All P (map f xs)
    → All (λ x. P (f x)) xs
All-unmap P f [] all = all
All-unmap P f (x ∷ xs) all = (all.0, All-unmap P f xs all.1)

-- Every choice is among the combinations.
choice-among :
    (P : List Card → Type 0) (n : ℕ) (cards combo : List Card)
    → All P (combinations n cards)
    → Chosen combo cards
    → length combo ≡ n
    → P combo
unfolding combinations
choice-among P zero cards [] all choice size = all.0
choice-among P zero cards (c ∷ combo) all choice size = absurd (omega (arith, size))
choice-among P (suc n) cards [] all choice size = absurd (omega (arith, size))
choice-among P (suc n) [] (x ∷ combo) all choice size = elim choice [ ]
choice-among P (suc n) (c ∷ cards) (x ∷ combo) all (picked choice) size =
    let (front, back) = All-front P (map (λ rest. c ∷ rest) (combinations n cards)) _ all in
    choice-among (λ rest. P (c ∷ rest)) n cards combo
      (All-unmap P (λ rest. c ∷ rest) (combinations n cards) front) choice (omega (arith, size))
choice-among P (suc n) (c ∷ cards) (x ∷ combo) all (passed choice) size =
    let (front, back) = All-front P (map (λ rest. c ∷ rest) (combinations n cards)) _ all in
    choice-among P (suc n) cards (x ∷ combo) back choice size

some_choice : (n : ℕ) (cards : List Card) → n ≤ length cards → 0 < length (combinations n cards)
unfolding combinations
some_choice zero cards h = omega arith
some_choice (suc n) [] h = elim h [ ]
some_choice (suc n) (c ∷ cards) h = omega (
  arith,
  length-append (map (λ rest. c ∷ rest) (combinations n cards)) (combinations (suc n) cards),
  length-map (λ rest. c ∷ rest) (combinations n cards),
  some_choice n cards (omega arith),
)

-- No score of these cards is above `t`.
abbrev pub Unbeaten : Score → List Card → Type 0
Unbeaten t combo = (score : Score) → evaluate combo ≡ some score → score_lt t score ≡ false

-- The best of the hands that the loop has seen, `s` and those of `combos`.
record IsBestOf (P : List Card → Type 0) (s : Score) (combos : List (List Card)) (t : Score)
    (best : List Card) : Type 0 where
  scored : evaluate best ≡ some t
  chosen : P best
  above : score_lt t s ≡ false
  all_above : All (Unbeaten t) combos

abbrev Finds : (List Card → Type 0) → Score → List (List Card) → Option (Score × List Card) → Type 0
Finds P s combos r =
    (t : Score) × (best : List Card) × (r ≡ some (t, best)) × IsBestOf P s combos t best

same-Unbeaten :
    (t score : Score) (combo : List Card)
    → evaluate combo ≡ some score
    → score_lt t score ≡ false
    → Unbeaten t combo
same-Unbeaten t score combo e low other f = let same : score ≡ other = cc in rw (← same) low

below_lower :
    (t s score : Score) → score_lt s score ≡ true → score_lt t score ≡ false → score_lt t s ≡ false
below_lower t s score lower above = ground (arith, score_lt_trans t s score)

below_higher :
    (t s score : Score) → score_lt s score ≡ false → score_lt t s ≡ false → score_lt t score ≡ false
below_higher t s score higher above = ground (arith, score_lt-cotrans t s score)

best_of-step :
    (best : Option (Score × List Card)) (combo : List Card) (combos : List (List Card))
    (score : Score)
    → evaluate combo ≡ some score
    → best_of best (combo ∷ combos) ≡ best_of (better best score combo) combos
unfolding best_of
best_of-step best combo combos score found = rw (found, best_of) refl

better_higher :
    (s score : Score) (five combo : List Card)
    → score_lt s score ≡ true
    → better (some (s, five)) score combo ≡ some (score, combo)
better_higher s score five combo higher = rw higher refl

better_lower :
    (s score : Score) (five combo : List Card)
    → score_lt s score ≡ false
    → better (some (s, five)) score combo ≡ some (s, five)
better_lower s score five combo lower = rw lower refl

best_of-Finds :
    (P : List Card → Type 0) (combos : List (List Card)) (s : Score) (five : List Card)
    → evaluate five ≡ some s
    → P five
    → All P combos
    → All (λ combo. Scores (evaluate combo)) combos
    → Finds P s combos (best_of (some (s, five)) combos)
unfolding best_of
best_of-Finds P [] s five e chosen all scores = (
  s,
  five,
  refl,
  record { scored = e; chosen = chosen; above = score_lt_irrefl s; all_above = tt },
)
best_of-Finds P (combo ∷ combos) s five e chosen all ((score, found, is_score), scores) =
    elim (Bool-cases (score_lt s score)) [
      | inl better_hand ↦
          let (t, best, r, b) = best_of-Finds P combos score combo found all.0 all.1 scores in
          (
            t,
            best,
            best_of-step (some (s, five)) combo combos score found
                ∙ ap (λ x. best_of x combos) (better_higher s score five combo better_hand)
                ∙ r,
            record {
              scored = b.scored;
              chosen = b.chosen;
              above = below_lower t s score better_hand b.above;
              all_above = (same-Unbeaten t score combo found b.above, b.all_above);
            },
          )
      | inr worse ↦
          let (t, best, r, b) = best_of-Finds P combos s five e chosen all.1 scores in
          (
            t,
            best,
            best_of-step (some (s, five)) combo combos score found
                ∙ ap (λ x. best_of x combos) (better_lower s score five combo worse)
                ∙ r,
            record {
              scored = b.scored;
              chosen = b.chosen;
              above = b.above;
              all_above = (
                same-Unbeaten t score combo found (below_higher t s score worse b.above),
                b.all_above,
              );
            },
          )
    ]

choice-Scores :
    (cards combo : List Card)
    → ((v : ℕ) → count_rank cards v ≤ 4)
    → IsChoice 5 cards combo
    → Scores (evaluate combo)
choice-Scores cards combo four_suits i =
    evaluate-Scores combo i.deck (omega (arith, i.size))
      (λ v. omega (arith, i.ranks v, four_suits v))

-- What `best_five` finds: five of the cards, with their score, and no five of the cards, however they
-- are chosen, score more.
pub record IsBestFive (cards : List Card) (t : Score) (best : List Card) : Type 0 where
  pub scored : evaluate best ≡ some t
  pub chosen : IsChoice 5 cards best
  pub unbeaten : (combo : List Card) → Chosen combo cards → length combo ≡ 5 → Unbeaten t combo

first_hand :
    (P : List Card → Type 0) (combos : List (List Card))
    → 0 < length combos
    → All P combos
    → All (λ combo. Scores (evaluate combo)) combos
    → (t : Score) × (best : List Card) × (best_of none combos ≡ some (t, best))
      × (evaluate best ≡ some t)
      × P best
      × All (Unbeaten t) combos
first_hand P [] some_hand all scores = elim some_hand [ ]
first_hand P (combo ∷ combos) some_hand all ((score, found, is_score), scores) =
    let (t, best, r, b) = best_of-Finds P combos score combo found all.0 all.1 scores in
    (
      t,
      best,
      best_of-step none combo combos score found ∙ r,
      b.scored,
      b.chosen,
      (same-Unbeaten t score combo found b.above, b.all_above),
    )

-- On five cards of the deck or more, no five of them of one rank, `best_five` returns five of the
-- cards, in their order and each at most once, with the score that `evaluate` gives them, and no five
-- of the cards, whichever are chosen, score higher.
pub best_five-IsBestFive :
    (cards : List Card)
    → All IsCard cards
    → 5 ≤ length cards
    → ((v : ℕ) → count_rank cards v ≤ 4)
    → (t : Score) × (best : List Card) × (best_five cards ≡ some (t, best))
      × IsBestFive cards t best
unfolding best_five
best_five-IsBestFive cards deck five four_suits =
    let choices = combinations-IsChoice 5 cards deck in
    let (t, best, r, e, chosen, unbeaten) =
      first_hand (IsChoice 5 cards) (combinations 5 cards) (some_choice 5 cards five) choices (
        All-mono (IsChoice 5 cards) _ (combinations 5 cards)
          (λ combo. choice-Scores cards combo four_suits) choices) in
    (
      t,
      best,
      r,
      record {
        scored = e;
        chosen = chosen;
        unbeaten = λ combo. choice-among (Unbeaten t) 5 cards combo unbeaten;
      },
    )
