-- ===== src/Pots/Walk.antt =====
-- Lemmas on the walk that hands out odd chips.
use mathlib.Core.Option
use texas_holdem.Base.{
  ℕ, zero, suc, ◌+◌, ◌*◌, ◌%◌, ◌≤◌, ◌<◌, ◌≡◌, refl, true, false, Option, none, some, List, ◌∷◌,
  arith, mem, length, All, inl, inr, Bool-cases, steps_to, steps_to-le, steps_to-next, steps_to-pos,
  next-lt, ◌≢◌, ap,
}
use texas_holdem.Pots.{odd_seats}

-- The seats that the walk finds: as many as there are odd chips, and all of them winners.
abbrev pub Finds : List ℕ → ℕ → Option (List ℕ) → Type 0
Finds winners rem none = ⊥
Finds winners rem (some seats) = (length seats ≡ rem) × All (λ j. mem j winners ≡ true) seats

Finds-cons :
    (winners : List ℕ) (rem j : ℕ) (found : Option (List ℕ))
    → mem j winners ≡ true
    → Finds winners rem found
    → Finds winners (suc rem) (Option.map (λ seats. j ∷ seats) found)
Finds-cons winners rem j none m h = h
Finds-cons winners rem j (some seats) m h = (omega arith, (m, h.1))

module _ (n w : ℕ) (winners : List ℕ) (inside : w < n) (wins : mem w winners ≡ true) where
  missed_winner : (k : ℕ) → mem k winners ≡ false → k ≢ w
  missed_winner k miss e = let both = ap (λ j. mem j winners) e in cc

  pub odd_seats-Finds :
      (fuel j rem : ℕ)
      → j < n
      → steps_to n w j + rem * n ≤ fuel + n
      → Finds winners rem (odd_seats n winners fuel j rem)
  unfolding odd_seats
  odd_seats-Finds fuel j zero hj enough = (refl, tt)
  odd_seats-Finds zero j (suc rem) hj enough = absurd (omega (arith, steps_to-pos n w j inside hj))
  odd_seats-Finds (suc fuel) j (suc rem) hj enough =
      let next = (j + 1) % n in
      let inside_next = next-lt n j (omega arith) in
      elim (Bool-cases (mem next winners)) [
        | inl hit ↦
            rw (hit, odd_seats)
              (Finds-cons winners rem next (odd_seats n winners fuel next rem) hit (
                odd_seats-Finds fuel next rem inside_next (
                  omega (
                    arith,
                    steps_to-pos n w j inside hj,
                    steps_to-le n w next inside inside_next,
                  ))))
        | inr miss ↦
            rw (miss, odd_seats)
              (odd_seats-Finds fuel next (suc rem) inside_next
                (omega (arith, steps_to-next n w j inside hj (missed_winner next miss))))
      ]
