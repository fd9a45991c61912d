-- ===== src/Pots/Sole.antt =====
-- Theorems on when an uncalled live bet goes back.
use texas_holdem.Base.{
  ℕ, zero, suc, ◌+◌, ◌-◌, ◌≤◌, ◌<◌, ◌≡◌, ◌≢◌, refl, sym, ap, ◌∙◌, true, false, some, List, [], ◌∷◌,
  arith, ltb, ◌==◌, keep, get_or, sum, inl, inr, Bool-cases,
}
use texas_holdem.Pots.{sort_down, seats_at, top_gap, uncalled}
use texas_holdem.Pots.Refund.{
  above, above-sort_down, above-keep, above-Falling, above-one, above-two, Falling,
  sort_down-Falling,
}

-- Seat `i` has staked more than every other seat.
abbrev pub IsSoleTop : List ℕ → ℕ → Type 0
IsSoleTop live i = (j : ℕ) → j ≢ i → get_or live j 0 < get_or live i 0

above-none : (c : ℕ) (xs : List ℕ) → ((j : ℕ) → get_or xs j 0 ≤ c) → above c xs ≡ 0
unfolding above
above-none c [] low = refl
above-none c (x ∷ xs) low = ground (arith, low 0, above-none c xs (λ j. low (suc j)))

suc_ne : (i j : ℕ) → j ≢ i → suc j ≢ suc i
suc_ne i j ne e = ne (omega (arith, e))

above-others : (c i : ℕ) (xs : List ℕ) → ((j : ℕ) → j ≢ i → get_or xs j 0 ≤ c) → above c xs ≤ 1
unfolding above
above-others c i [] low = omega arith
above-others c zero (x ∷ xs) low = ground (arith, above-none c xs (λ j. low (suc j) (λ e. cc)))
above-others c (suc i) (x ∷ xs) low =
    ground (arith, low 0 (λ e. cc), above-others c i xs (λ j ne. low (suc j) (suc_ne i j ne)))

seats_at-none : (a m : ℕ) (xs : List ℕ) → ((j : ℕ) → get_or xs j 0 < a) → seats_at a m xs ≡ []
seats_at-none a m [] low = refl
seats_at-none a m (x ∷ xs) low =
    ground (arith, low 0, seats_at-none a (suc m) xs (λ j. low (suc j)))

seats_at-sole :
    (a m i : ℕ) (xs : List ℕ)
    → 0 < a
    → get_or xs i 0 ≡ a
    → ((j : ℕ) → j ≢ i → get_or xs j 0 < a)
    → seats_at a m xs ≡ (m + i) ∷ []
seats_at-sole a m i [] pos top low = absurd (omega arith)
seats_at-sole a m zero (x ∷ xs) pos top low =
    let hit : (x == a) ≡ true = ground arith in
    let here : m + 0 ≡ m = omega arith in
    rw (hit, here) (ap (◌∷◌ m) (seats_at-none a (suc m) xs (λ j. low (suc j) (λ e. cc))))
seats_at-sole a m (suc i) (x ∷ xs) pos top low =
    let first : x < a = low 0 (λ e. cc) in
    let miss : (x == a) ≡ false = ground arith in
    let here : m + suc i ≡ suc m + i = omega arith in
    rw (miss, here) (seats_at-sole a (suc m) i xs pos top (λ j ne. low (suc j) (suc_ne i j ne)))

module _ (live : List ℕ) (i k a b : ℕ) (rest : List ℕ) (sole : IsSoleTop live i) (other : k ≢ i)
    (staked : 0 < get_or live k 0) (falls : Falling a (b ∷ rest))
    (same : (c : ℕ) → above c (a ∷ b ∷ rest) ≡ above c live) where
  positive : 0 < get_or live i 0
  positive = omega (arith, sole k other)

  no_higher : get_or live i 0 ≤ a
  no_higher = elim (Bool-cases (ltb a (get_or live i 0))) [
    | inl higher ↦ absurd (
        ground
          (arith, same a, above-Falling a (a ∷ b ∷ rest) (omega arith, falls), above-one a i live))
    | inr low ↦ ground arith
  ]

  at_most : (j : ℕ) → get_or live j 0 ≤ get_or live i 0
  at_most j = elim (Bool-cases (j == i)) [
    | inl is ↦ let e : j ≡ i = ground arith in rw e (omega arith)
    | inr ne ↦ omega (arith, sole j (λ e. ground arith))
  ]

  top : get_or live i 0 ≡ a
  unfolding above
  top = elim (Bool-cases (ltb (get_or live i 0) a)) [
    | inl lower ↦ absurd (
        ground (
          arith,
          same (a - 1),
          above-first,
          above-none (a - 1) live (λ j. omega (arith, at_most j, lower_than lower)),
        ))
    | inr high ↦ ground (arith, no_higher)
  ]
    where
      lower_than : ltb (get_or live i 0) a ≡ true → get_or live i 0 < a
      lower_than h = ground arith

      above-first : 0 < a → 1 ≤ above (a - 1) (a ∷ b ∷ rest)
      above-first pos = ground arith

  next_lower : b < a
  unfolding above
  next_lower = elim (Bool-cases (ltb b a)) [
    | inl lower ↦ ground arith
    | inr level ↦ absurd (
        ground (
          arith,
          falls,
          positive,
          top,
          same (a - 1),
          above-others (a - 1) i live (λ j ne. omega (arith, sole j ne, top, positive)),
        ))
  ]

  gap-sole : top_gap live (a ∷ b ∷ rest) ≡ some (i, a - b)
  gap-sole =
      let gap : ltb b a ≡ true = ground (arith, next_lower) in
      let seat : 0 + i ≡ i = omega arith in
      rw gap (
        rw
          (
            seats_at-sole a 0 i live (omega (arith, positive, top)) top
                (λ j ne. omega (arith, sole j ne, top)),
            seat,
          )
          refl)

from_sorted :
    (live sorted : List ℕ) (i k c : ℕ)
    → IsSoleTop live i
    → k ≢ i
    → 0 < get_or live k 0
    → Falling c sorted
    → ((b : ℕ) → above b sorted ≡ above b live)
    → (back : ℕ) × (top_gap live sorted ≡ some (i, back))
unfolding above
from_sorted live [] i k c sole other staked falls same = absurd (
    omega (
      arith,
      same 0,
      above-two 0 i k live (λ e. other (sym e)) (omega (arith, sole k other)) staked,
    ))
from_sorted live (a ∷ []) i k c sole other staked falls same = absurd (
    ground (
      arith,
      same 0,
      above-two 0 i k live (λ e. other (sym e)) (omega (arith, sole k other)) staked,
    ))
from_sorted live (a ∷ b ∷ rest) i k c sole other staked falls same =
    (a - b, gap-sole live i k a b rest sole other staked falls.1 same)

-- A bet goes back whenever one is uncalled: if one seat has staked more than every other seat, and
-- some other seat has a stake, then the refund is of that seat.
pub uncalled-sole :
    (live : List ℕ) (i k : ℕ)
    → IsSoleTop live i
    → k ≢ i
    → 0 < get_or live k 0
    → (back : ℕ) × (uncalled live ≡ some (i, back))
unfolding uncalled
uncalled-sole live i k sole other staked =
    let positive_stakes = keep (ltb 0) live in
    from_sorted live (sort_down positive_stakes) i k (sum positive_stakes) sole other staked
      (sort_down-Falling positive_stakes)
      (λ b. above-sort_down b positive_stakes ∙ above-keep b live)
