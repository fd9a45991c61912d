-- ===== src/Pots/Refund.antt =====
-- The uncalled live bet of `settle` and `settle_forfeit`, step 1.
use texas_holdem.Base.{
  ℕ, zero, suc, ◌+◌, ◌-◌, ◌≤◌, ◌<◌, ◌≡◌, ◌≢◌, refl, ap, true, Option, none, some, List, [], ◌∷◌,
  arith, ltb, leb, ◌==◌, if◌then◌else◌, mem, keep, get_or, sum, length, inl, inr, Bool-cases, ◌∙◌,
  sym,
}
use texas_holdem.Pots.{insert_down, sort_down, seats_at, sole_seat, top_gap, uncalled}

-- How many stakes are above a bound.
unfoldable pub above : ℕ → List ℕ → ℕ
above b [] = 0
above b (x ∷ xs) = (if ltb b x then 1 else 0) + above b xs

above-insert_down : (b a : ℕ) (xs : List ℕ) → above b (insert_down a xs) ≡ above b (a ∷ xs)
unfolding above insert_down
above-insert_down b a [] = refl
above-insert_down b a (x ∷ xs) = ground (arith, above-insert_down b a xs)

pub above-sort_down : (b : ℕ) (xs : List ℕ) → above b (sort_down xs) ≡ above b xs
unfolding above sort_down
above-sort_down b [] = refl
above-sort_down b (x ∷ xs) =
    ground (arith, above-insert_down b x (sort_down xs), above-sort_down b xs)

pub above-keep : (b : ℕ) (xs : List ℕ) → above b (keep (ltb 0) xs) ≡ above b xs
unfolding above
above-keep b [] = refl
above-keep b (x ∷ xs) = ground (arith, above-keep b xs)

abbrev pub Falling : ℕ → List ℕ → Type 0
Falling a [] = Unit {0}
Falling a (x ∷ xs) = (x ≤ a) × Falling x xs

Falling-mono : (a c : ℕ) (xs : List ℕ) → a ≤ c → Falling a xs → Falling c xs
Falling-mono a c [] h f = tt
Falling-mono a c (x ∷ xs) h f = (omega arith, f.1)

insert_down-Falling : (c a : ℕ) (xs : List ℕ) → a ≤ c → Falling c xs → Falling c (insert_down a xs)
unfolding insert_down
insert_down-Falling c a [] h f = (h, tt)
insert_down-Falling c a (x ∷ xs) h f = ground (arith, insert_down-Falling x a xs)

pub sort_down-Falling : (xs : List ℕ) → Falling (sum xs) (sort_down xs)
unfolding sort_down
sort_down-Falling [] = tt
sort_down-Falling (x ∷ xs) =
    insert_down-Falling (sum (x ∷ xs)) x (sort_down xs) (omega arith)
      (Falling-mono (sum xs) (sum (x ∷ xs)) (sort_down xs) (omega arith) (sort_down-Falling xs))

pub above-Falling : (b : ℕ) (xs : List ℕ) → Falling b xs → above b xs ≡ 0
unfolding above
above-Falling b [] f = refl
above-Falling b (x ∷ xs) f = ground (arith, above-Falling b xs, Falling-mono x b xs)

pub above-one : (b i : ℕ) (xs : List ℕ) → b < get_or xs i 0 → 1 ≤ above b xs
unfolding above
above-one b i [] h = absurd (omega arith)
above-one b zero (x ∷ xs) h = ground arith
above-one b (suc i) (x ∷ xs) h = omega (arith, above-one b i xs h)

pub above-two :
    (b i k : ℕ) (xs : List ℕ) → i ≢ k → b < get_or xs i 0 → b < get_or xs k 0 → 2 ≤ above b xs
unfolding above
above-two b i k [] ne hi hk = absurd (omega arith)
above-two b zero zero (x ∷ xs) ne hi hk = absurd (ne refl)
above-two b zero (suc k) (x ∷ xs) ne hi hk = ground (arith, above-one b k xs hk)
above-two b (suc i) zero (x ∷ xs) ne hi hk = ground (arith, above-one b i xs hi)
above-two b (suc i) (suc k) (x ∷ xs) ne hi hk =
    omega (arith, above-two b i k xs (λ e. ne (ap suc e)) hi hk)

-- An entry of the list stands some way behind where the search began.
abbrev pub FoundAt : ℕ → ℕ → ℕ → List ℕ → Type 0
FoundAt top i k xs = (d : ℕ) × (k ≡ i + d) × (d < length xs) × (get_or xs d 0 ≡ top)

FoundAt-cons : (top i k x : ℕ) (xs : List ℕ) → FoundAt top (suc i) k xs → FoundAt top i k (x ∷ xs)
FoundAt-cons top i k x xs (d, e, inside, same) = (suc d, omega arith, omega arith, same)

pub mem-seats_at :
    (top i k : ℕ) (xs : List ℕ) → mem k (seats_at top i xs) ≡ true → FoundAt top i k xs
mem-seats_at top i k [] h = cc
mem-seats_at top i k (x ∷ xs) h = elim (Bool-cases (x == top)) [
  | inl hit ↦ elim (Bool-cases (k == i)) [
    | inl here ↦ (0, ground arith, omega arith, ground arith)
    | inr later ↦ FoundAt-cons top i k x xs (mem-seats_at top (suc i) k xs (ground arith))
  ]
  | inr miss ↦ FoundAt-cons top i k x xs (mem-seats_at top (suc i) k xs (ground arith))
]

pub seats_at-top :
    (top : ℕ) (live : List ℕ) (k : ℕ)
    → FoundAt top 0 k live
    → (k < length live) × (get_or live k 0 ≡ top)
seats_at-top top live k (d, e, inside, same) =
    let k_eq : k ≡ d = omega arith in rw k_eq (inside, same)

-- What the refund is: seat `i` was alone on top, by `back` chips.
abbrev pub IsTopGap : List ℕ → Option (ℕ × ℕ) → Type 0
IsTopGap live none = Unit
IsTopGap live (some (i, back)) =
    (i < length live)
    × (0 < back)
    × (back ≤ get_or live i 0)
    × ((k : ℕ) → k ≢ i → get_or live k 0 ≤ get_or live i 0 - back)

sole_seat-IsTopGap :
    (live : List ℕ) (a b : ℕ) (tops : List ℕ)
    → b < a
    → above b live ≤ 1
    → ((k : ℕ) → mem k tops ≡ true → (k < length live) × (get_or live k 0 ≡ a))
    → IsTopGap live (sole_seat tops (a - b))
sole_seat-IsTopGap live a b [] lt once at = tt
sole_seat-IsTopGap live a b (i ∷ j ∷ tops) lt once at = tt
sole_seat-IsTopGap live a b (i ∷ []) lt once at =
    let here = at i (ground arith) in
    (
      here.0,
      omega arith,
      omega arith,
      λ k ne. elim (Bool-cases (leb (get_or live k 0) b)) [
        | inl low ↦ ground arith
        | inr high ↦
            absurd
              (omega (arith, above-two b i k live (λ e. ne (sym e)) (omega arith) (ground arith)))
      ],
    )

top_gap-IsTopGap :
    (live sorted : List ℕ) (c : ℕ)
    → Falling c sorted
    → ((b : ℕ) → above b sorted ≡ above b live)
    → IsTopGap live (top_gap live sorted)
unfolding above
top_gap-IsTopGap live [] c f same = tt
top_gap-IsTopGap live (a ∷ []) c f same = tt
top_gap-IsTopGap live (a ∷ b ∷ rest) c f same = elim (Bool-cases (ltb b a)) [
  | inl gap ↦ rw gap (
      sole_seat-IsTopGap live a b (seats_at a 0 live) (ground arith)
        (ground (arith, same b, above-Falling b rest f.1.1))
        (λ k m. seats_at-top a live k (mem-seats_at a 0 k live m)))
  | inr level ↦ rw level tt
]

-- The uncalled bet that goes back is the whole excess of the one highest stake over all others, and
-- no more than that seat has staked.
pub uncalled-IsTopGap : (live : List ℕ) → IsTopGap live (uncalled live)
unfolding uncalled
uncalled-IsTopGap live =
    let positive = keep (ltb 0) live in
    top_gap-IsTopGap live (sort_down positive) (sum positive) (sort_down-Falling positive)
      (λ b. above-sort_down b positive ∙ above-keep b live)
