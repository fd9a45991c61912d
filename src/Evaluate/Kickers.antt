-- ===== src/Evaluate/Kickers.antt =====
-- Lemmas on the kickers of `evaluate`.
use texas_holdem.Base.{
  ℕ, ◌+◌, ◌*◌, ◌≤◌, ◌<◌, ◌≡◌, ◌≢◌, refl, Bool, true, false, ◌&&◌, ◌||◌, List, [], ◌∷◌, ◌==◌, ltb,
  if◌then◌else◌, arith, Bool-cases, inl, inr, length, mem, total, total-le, total-add,
}
use texas_holdem.Evaluate.{others, ranks_down}

-- The cards of the ranks that are used.
abbrev pub used_cards : (ℕ → ℕ) → (ℕ → Bool) → ℕ → ℕ
used_cards count used v = if used v then count v else 0

and-false : (b : Bool) → (b && false) ≡ false
and-false b = ground arith

mem-here : (v : ℕ) (vs : List ℕ) → mem v (v ∷ vs) ≡ true
mem-here v vs = ground arith

mem-later : (w v : ℕ) (vs : List ℕ) → mem w vs ≡ true → mem w (v ∷ vs) ≡ true
mem-later w v vs there = ground arith

module _ (count : ℕ → ℕ) (used : ℕ → Bool) (most : ℕ) where
  others-bound :
      (vs : List ℕ)
      → ((v : ℕ) → mem v vs ≡ true → used v ≡ false → count v ≤ most)
      → total count vs ≤ total (used_cards count used) vs + most * length (others count used vs)
  others-bound [] h = omega arith
  others-bound (v ∷ vs) h = elim (Bool-cases (used v)) [
    | inl taken ↦
        rw (taken, and-false (ltb 0 (count v)))
          (omega (arith, others-bound vs (λ w there free. h w (mem-later w v vs there) free)))
    | inr free ↦ elim (Bool-cases (ltb 0 (count v))) [
      | inl held ↦
          rw (free, held)
            (omega (
              arith,
              others-bound vs (λ w there free. h w (mem-later w v vs there) free),
              h v (mem-here v vs) free,
            ))
      | inr missing ↦
          let zero_count : count v ≡ 0 = ground arith in
          rw (free, missing)
            (omega (arith, others-bound vs (λ w there free. h w (mem-later w v vs there) free)))
    ]
  ]

Descends : ℕ → List ℕ → Type 0
Descends b [] = Unit
Descends b (v ∷ vs) = (v < b) × Descends v vs

none_above :
    (count : ℕ → ℕ) (q b : ℕ) (vs : List ℕ)
    → b ≤ q
    → Descends b vs
    → total (used_cards count (λ v. v == q)) vs ≡ 0
unfolding Descends
none_above count q b [] le d = refl
none_above count q b (v ∷ vs) le d = ground (arith, none_above count q v vs (omega arith) d.1)

one_used :
    (count : ℕ → ℕ) (q b : ℕ) (vs : List ℕ)
    → Descends b vs
    → total (used_cards count (λ v. v == q)) vs ≤ count q
unfolding Descends
one_used count q b [] d = omega arith
one_used count q b (v ∷ vs) d = elim (Bool-cases (v == q)) [
  | inl same ↦
      let e : v ≡ q = ground arith in
      rw (same, e) (omega (arith, none_above count q v vs (omega arith) d.1))
  | inr other ↦ rw other (omega (arith, one_used count q v vs d.1))
]

ranks-Descends : Descends 15 ranks_down
unfolding Descends ranks_down
ranks-Descends = omega arith

-- Beside one rank.
pub others-one :
    (count : ℕ → ℕ) (q most n : ℕ)
    → ((v : ℕ) → mem v ranks_down ≡ true → v ≢ q → count v ≤ most)
    → total count ranks_down ≡ n
    → n ≤ count q + most * length (others count (λ v. v == q) ranks_down)
others-one count q most n h e = omega (
  arith,
  others-bound count (λ v. v == q) most ranks_down (λ v there free. h v there (ground arith)),
  one_used count q 15 ranks_down ranks-Descends,
)

two_used :
    (count : ℕ → ℕ) (p q : ℕ)
    → total (used_cards count (λ v. (v == p) || (v == q))) ranks_down ≤ count p + count q
two_used count p q = omega (
  arith,
  total-le (used_cards count (λ v. (v == p) || (v == q)))
      (λ v. used_cards count (λ w. w == p) v + used_cards count (λ w. w == q) v) (λ v. ground arith)
      ranks_down,
  total-add (used_cards count (λ w. w == p)) (used_cards count (λ w. w == q)) ranks_down,
  one_used count p 15 ranks_down ranks-Descends,
  one_used count q 15 ranks_down ranks-Descends,
)

-- Beside two ranks.
pub others-two :
    (count : ℕ → ℕ) (p q most n : ℕ)
    → ((v : ℕ) → mem v ranks_down ≡ true → count v ≤ most)
    → total count ranks_down ≡ n
    → n ≤ count p + count q + most * length (others count (λ v. (v == p) || (v == q)) ranks_down)
others-two count p q most n h e = omega (
  arith,
  others-bound count (λ v. (v == p) || (v == q)) most ranks_down (λ v there free. h v there),
  two_used count p q,
)

none_used : (count : ℕ → ℕ) (vs : List ℕ) → total (used_cards count (λ v. false)) vs ≡ 0
none_used count [] = refl
none_used count (v ∷ vs) = omega (arith, none_used count vs)

pub others-none :
    (count : ℕ → ℕ) (most n : ℕ)
    → ((v : ℕ) → mem v ranks_down ≡ true → count v ≤ most)
    → total count ranks_down ≡ n
    → n ≤ most * length (others count (λ v. false) ranks_down)
others-none count most n h e = omega (
  arith,
  others-bound count (λ v. false) most ranks_down (λ v there free. h v there),
  none_used count ranks_down,
)
