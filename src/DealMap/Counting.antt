-- ===== src/DealMap/Counting.antt =====
-- How many seats a walk round the ring finds.
use texas_holdem.Base.{
  ℕ, zero, suc, ◌+◌, ◌-◌, ◌%◌, ◌≤◌, ◌<◌, ◌≡◌, refl, sym, ap, ◌∙◌, Bool, true, false, ◌||◌, List, [],
  ◌∷◌, length, length-append, mem, ltb, leb, ◌==◌, ==_refl, if◌then◌else◌, arith, Bool-cases, inl,
  inr,
}
use texas_holdem.Pots.{insert_level, seat_set}
use texas_holdem.Forfeit.Laws.{mem-seat_set}
use texas_holdem.DealMap.{deal_walk}
use texas_holdem.DealMap.Ring.{walk, between, walk-ring, between-add, between-none}

-- Numbers in rising order, from `lo` on.
abbrev From : ℕ → List ℕ → Type 0
From lo [] = Unit
From lo (x ∷ xs) = (lo ≤ x) × From (suc x) xs

From-below : (lo k : ℕ) (xs : List ℕ) → From lo xs → k < lo → mem k xs ≡ false
From-below lo k [] rising below = refl
From-below lo k (x ∷ xs) (first, rising) below = ground (arith, From-below (suc x) k xs rising)

insert_level-From : (lo i : ℕ) (xs : List ℕ) → lo ≤ i → From lo xs → From lo (insert_level i xs)
unfolding insert_level
insert_level-From lo i [] low rising = (low, tt)
insert_level-From lo i (x ∷ xs) low (first, rising) = ground (arith, insert_level-From (suc x) i xs)

seat_set-From : (seats : List ℕ) → From 0 (seat_set seats)
unfolding seat_set
seat_set-From [] = tt
seat_set-From (i ∷ seats) =
    insert_level-From 0 i (seat_set seats) (omega arith) (seat_set-From seats)

abbrev one_if_not : Bool → ℕ
one_if_not b = if b then 0 else 1

length-insert_level :
    (lo i : ℕ) (xs : List ℕ)
    → From lo xs
    → length (insert_level i xs) ≡ one_if_not (mem i xs) + length xs
unfolding insert_level
length-insert_level lo i [] rising = omega arith
length-insert_level lo i (x ∷ xs) (first, rising) =
    ground (arith, length-insert_level (suc x) i xs rising, From-below (suc x) i xs rising)

length-between_insert :
    (test : ℕ → Bool) (i k lo : ℕ)
    → length (between (λ j. (j == i) || test j) lo k)
      ≡ one_if_not (ltb i lo || leb (lo + k) i || test i) + length (between test lo k)
length-between_insert test i zero lo = ground arith
length-between_insert test i (suc k) lo =
    ground (arith, length-between_insert test i k (suc lo), ap test {x = i} {y = lo})

-- The set of seats has as many as there are numbers among them.
length-seat_set :
    (ring : ℕ) (seats : List ℕ)
    → ((k : ℕ) → mem k seats ≡ true → k < ring)
    → length (between (λ j. mem j seats) 0 ring) ≡ length (seat_set seats)
unfolding seat_set
length-seat_set ring [] inside = ap length (between-none (λ j. false) ring 0 (λ j from. refl))
length-seat_set ring (i ∷ seats) inside =
    let here = inside i (ground (arith, ==_refl i)) in
    let later = length-seat_set ring seats (λ k there. inside k (ground arith)) in
    let many = length-between_insert (λ j. mem j seats) i ring 0 in
    let set = length-insert_level 0 i (seat_set seats) (seat_set-From seats) in
    ground (arith, mem-seat_set i seats)

no_more : (xs : List ℕ) → length xs ≡ 0 → xs ≡ []
no_more [] h = refl
no_more (x ∷ xs) h = absurd (omega (arith, h))

-- Stopping when every seat has been found loses none.
deal_walk-walk :
    (ring : ℕ) (seats : List ℕ) (rounds j found : ℕ)
    → found + length (walk ring (λ k. mem k seats) j rounds) ≡ length (seat_set seats)
    → deal_walk ring seats j found rounds ≡ walk ring (λ k. mem k seats) j rounds
unfolding deal_walk walk
deal_walk-walk ring seats zero j found h = refl
deal_walk-walk ring seats (suc rounds) j found h =
    let next = (j + 1) % ring in
    let test = λ (k : ℕ). mem k seats in
    let count = length (seat_set seats) in
    elim (Bool-cases (mem next seats)) [
      | inl here ↦
          let left : suc found + length (walk ring test next rounds) ≡ count =
            let h' : found + suc (length (walk ring test next rounds)) ≡ count = rw here at h in
            omega (arith, h') in
          rw here (elim (Bool-cases (suc found == count)) [
            | inl all ↦
                rw all (ap (◌∷◌ next) (sym (no_more (walk ring test next rounds) (ground arith))))
            | inr more ↦
                rw more (ap (◌∷◌ next) (deal_walk-walk ring seats rounds next (suc found) left))
          ])
      | inr away ↦
          let left : found + length (walk ring test next rounds) ≡ count = rw away at h in
          rw away (elim (Bool-cases (found == count)) [
            | inl all ↦ rw all (sym (no_more (walk ring test next rounds) (ground arith)))
            | inr more ↦ rw more (deal_walk-walk ring seats rounds next found left)
          ])
    ]

pub deal_walk-ring :
    (ring button : ℕ) (seats : List ℕ)
    → button < ring
    → ((k : ℕ) → mem k seats ≡ true → k < ring)
    → deal_walk ring seats button 0 ring ≡ walk ring (λ k. mem k seats) button ring
deal_walk-ring ring button seats inside all =
    let test = λ (k : ℕ). mem k seats in
    let split : ring ≡ suc button + (ring - suc button) = omega arith in
    let whole = ap length (walk-ring ring test button inside) in
    let parts =
      length-append (between test (suc button) (ring - suc button)) (between test 0 (suc button)) in
    let once =
      ap length (ap (between test 0) split ∙ between-add test (suc button) (ring - suc button) 0) in
    let parts' =
      length-append (between test 0 (suc button))
        (between test (0 + suc button) (ring - suc button)) in
    let from : 0 + suc button ≡ suc button = omega arith in
    let same = ap (λ (lo : ℕ). length (between test lo (ring - suc button))) from in
    deal_walk-walk ring seats ring button 0
      (omega (arith, whole, parts, once, parts', same, length-seat_set ring seats all))
