-- ===== src/Cashout/Division.antt =====
-- The steps of a cash-out: the pots of one seat are paid, and the contested pots are divided.
use texas_holdem.Base.{
  ℕ, ◌+◌, ◌<◌, ◌≡◌, refl, sym, subst, ◌∙◌, Bool, any, ◌⊎◌, keep, true, false, List, [], ◌∷◌, length,
  All, arith, ◌==◌, Bool-cases, inl, inr, mem, discard, Distinct, keep-Distinct, length-discard,
  Result, ok, err, ◌>>=◌,
}
use texas_holdem.Base.Int.{ℤ, pos, sub_ℕ}
use texas_holdem.Pots.{Pot, pots_total}
use texas_holdem.Cashout.{
  Error, undecided, Claim, sole, contest, foreign, pot_claim, contested_pots, pay_seat, pay_rivals,
  pay_pot, pay_rests, floor_div, floor_mod,
}
use texas_holdem.Cashout.Balance.{
  Gains, Gains-trans, Gains-same, pay_seat-Gains, pay_rivals-Gains, floor-parts, floor_mod-lt,
  sub_ℕ-parts,
}

-- Seats of a table of `n`, none of them twice.
abbrev pub IsSeats : ℕ → List ℕ → Type 0
IsSeats n seats = Distinct seats × All (λ i. i < n) seats

-- A pot that the hero contests.
abbrev pub Contested : ℕ → ℕ → Pot → Type 0
Contested n hero_idx p =
    IsSeats n p.eligible × (mem hero_idx p.eligible ≡ true) × (1 < length p.eligible)

mem-inside : (n k : ℕ) (seats : List ℕ) → All (λ i. i < n) seats → mem k seats ≡ true → k < n
mem-inside n k [] inside there = cc
mem-inside n k (i ∷ seats) (here, inside) there = ground (arith, mem-inside n k seats inside)

pub keep-inside :
    (n : ℕ) (p : ℕ → Bool) (seats : List ℕ)
    → All (λ i. i < n) seats
    → All (λ i. i < n) (keep p seats)
keep-inside n p [] inside = tt
keep-inside n p (i ∷ seats) (here, inside) = elim (Bool-cases (p i)) [
  | inl stays ↦ rw stays (here, keep-inside n p seats inside)
  | inr goes ↦ rw goes (keep-inside n p seats inside)
]

pub keep-IsSeats :
    (n : ℕ) (p : ℕ → Bool) (seats : List ℕ) → IsSeats n seats → IsSeats n (keep p seats)
keep-IsSeats n p seats (distinct, inside) =
    (keep-Distinct p seats distinct, keep-inside n p seats inside)

pay_pot-Gains :
    (n hero_idx : ℕ) (p : Pot) (part : ℕ) (xs : List ℤ)
    → Contested n hero_idx p
    → length xs ≡ n
    → (ys : List ℤ) × (pay_pot hero_idx p part xs ≡ ok ys) × Gains xs ys p.amount 0
unfolding pay_pot
pay_pot-Gains n hero_idx p part xs ((distinct, inside), here, several) size =
    let rivals = discard hero_idx p.eligible in
    let rest = sub_ℕ p.amount part in
    let k = length rivals in
    let some_rival : 0 < k = omega (arith, length-discard hero_idx p.eligible distinct) in
    let first =
      pay_seat-Gains hero_idx (pos part) xs
        (omega (arith, size, mem-inside n hero_idx p.eligible inside here)) in
    let paid = pay_seat hero_idx (pos part) xs in
    let later = pay_rivals-Gains (floor_div rest k) (floor_mod rest k) rivals paid (
      subst (λ m. All (λ i. i < m) rivals) (sym (first.same_length ∙ size))
        (keep-inside n _ p.eligible inside)) in
    let none : (k == 0) ≡ false = ground arith in
    (
      pay_rivals (floor_div rest k) (floor_mod rest k) rivals paid,
      rw none refl,
      Gains-same xs _ _ _ _ _ (Gains-trans xs paid _ _ _ _ _ first later) (
          omega (
            arith,
            floor-parts rest k some_rival,
            floor_mod-lt rest k some_rival,
            sub_ℕ-parts p.amount part,
          )),
    )

pub pay_rests-Gains :
    (n hero_idx : ℕ) (pots : List Pot) (parts : List ℕ) (xs : List ℤ)
    → All (Contested n hero_idx) pots
    → length parts ≡ length pots
    → length xs ≡ n
    → (ys : List ℤ) × (pay_rests hero_idx pots parts xs ≡ ok ys) × Gains xs ys (pots_total pots) 0
unfolding pay_rests
pay_rests-Gains n hero_idx [] parts xs all same size =
    (xs, refl, record { worth = omega arith; same_length = refl })
pay_rests-Gains n hero_idx (p ∷ pots) [] xs all same size = absurd (omega (arith, same))
pay_rests-Gains n hero_idx (p ∷ pots) (part ∷ parts) xs (first, all) same size =
    let (ys, paid, g) = pay_pot-Gains n hero_idx p part xs first size in
    let (zs, more, g') =
      pay_rests-Gains n hero_idx pots parts ys all (omega (arith, same)) (g.same_length ∙ size) in
    (zs, rw (paid, more) refl, Gains-trans xs ys zs _ _ _ _ g g')

-- A pot that others contest without the hero.
abbrev pub is_foreign : Claim → Bool
is_foreign foreign = true
is_foreign _ = false

abbrev pub undecided_pot : ℕ → Pot → Bool
undecided_pot hero_idx p = is_foreign (pot_claim hero_idx p.eligible)

-- What the first loop of `cashout_split` returns.
abbrev pub Collected : ℕ → ℕ → List Pot → List ℤ → Result Error (List ℤ × List Pot) → Type 0
Collected n hero_idx pots xs r =
    ((any (undecided_pot hero_idx) pots ≡ true) × (r ≡ err undecided))
    ⊎ ((ys : List ℤ) × (contested : List Pot) × (won : ℕ) × (any (undecided_pot hero_idx) pots
          ≡ false)
        × (r ≡ ok (ys, contested))
        × All (Contested n hero_idx) contested
        × (won + pots_total contested ≡ pots_total pots)
        × Gains xs ys won 0)

pot_claim-cases :
    (n hero_idx : ℕ) (eligible : List ℕ)
    → IsSeats n eligible
    → ((i : ℕ) × (pot_claim hero_idx eligible ≡ sole i) × (i < n))
      ⊎ (((pot_claim hero_idx eligible ≡ contest)
            × (mem hero_idx eligible ≡ true)
            × (1 < length eligible))
          ⊎ (pot_claim hero_idx eligible ≡ foreign))
unfolding pot_claim
pot_claim-cases n hero_idx [] seats = inr (inr refl)
pot_claim-cases n hero_idx (i ∷ []) (d, (here, inside)) = inl (i, refl, here)
pot_claim-cases n hero_idx (i ∷ j ∷ more) seats = elim (Bool-cases (mem hero_idx (i ∷ j ∷ more))) [
  | inl there ↦ inr (inl (rw there refl, there, omega arith))
  | inr out ↦ inr (inr (rw out refl))
]

module _ (n hero_idx : ℕ) (p : Pot) (pots : List Pot) (xs : List ℤ) where
  sole-Collected :
      (i : ℕ) (ys : List ℤ) (r : Result Error (List ℤ × List Pot))
      → pot_claim hero_idx p.eligible ≡ sole i
      → Gains xs ys p.amount 0
      → Collected n hero_idx pots ys r
      → Collected n hero_idx (p ∷ pots) xs r
  sole-Collected i ys r is g (inl (some_foreign, out)) = inl (rw is some_foreign, out)
  sole-Collected i ys r is g (inr (zs, contested, won, decided, done, all, worth, g')) = inr (
    zs,
    contested,
    p.amount + won,
    rw is decided,
    done,
    all,
    omega (arith, worth),
    Gains-trans xs ys zs _ _ _ _ g g',
  )

  contest-Collected :
      (r : Result Error (List ℤ × List Pot))
      → pot_claim hero_idx p.eligible ≡ contest
      → Contested n hero_idx p
      → Collected n hero_idx pots xs r
      → Collected n hero_idx
          (p ∷ pots)
          xs
          (r >>= λ (rest : List ℤ × List Pot). ok (rest.0, p ∷ rest.1))
  contest-Collected r is own (inl (some_foreign, out)) = inl (rw is some_foreign, rw out refl)
  contest-Collected r is own (inr (ys, contested, won, decided, done, all, worth, g)) =
      inr (ys, p ∷ contested, won, rw is decided, rw done refl, (own, all), omega (arith, worth), g)

pub contested_pots-Collected :
    (n hero_idx : ℕ) (pots : List Pot) (xs : List ℤ)
    → All (λ (p : Pot). IsSeats n p.eligible) pots
    → length xs ≡ n
    → Collected n hero_idx pots xs (contested_pots hero_idx pots xs)
unfolding contested_pots
contested_pots-Collected n hero_idx [] xs all size =
    inr (xs, [], 0, refl, refl, tt, omega arith, record { worth = omega arith; same_length = refl })
contested_pots-Collected n hero_idx (p ∷ pots) xs (seats, all) size =
    let more = λ (ys : List ℤ) (same : length ys ≡ length xs).
      contested_pots-Collected n hero_idx pots ys all (same ∙ size) in
    let found : Result Error (List ℤ × List Pot) → Type 0 = Collected n hero_idx (p ∷ pots) xs in
    elim (pot_claim-cases n hero_idx p.eligible seats) [
      | inl (i, is, inside) ↦
          let first = pay_seat-Gains i (pos p.amount) xs (omega (arith, size)) in
          subst found (rw (is, contested_pots) refl) (
            sole-Collected n hero_idx p pots xs i (pay_seat i (pos p.amount) xs)
              (contested_pots hero_idx pots (pay_seat i (pos p.amount) xs)) is first
              (more (pay_seat i (pos p.amount) xs) first.same_length))
      | inr (inl (is, here, several)) ↦ subst found (rw (is, contested_pots) refl) (
          contest-Collected n hero_idx p pots xs (contested_pots hero_idx pots xs) is
            (seats, here, several) (more xs refl))
      | inr (inr is) ↦ inl (rw is refl, rw (is, contested_pots) refl)
    ]
