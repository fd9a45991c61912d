-- ===== src/Pots/Tight.antt =====
-- The uncalled live bet of `settle` and `settle_forfeit`, exactly: when there is one, and how much.
use texas_holdem.Base.{
  ℕ, zero, suc, ◌+◌, ◌-◌, ◌≤◌, ◌<◌, ◌≡◌, ◌≢◌, refl, true, Option, none, some, List, [], ◌∷◌, arith,
  ltb, ◌==◌, mem, keep, get_or, sum, length, ==_refl, subst, inl, inr, Bool-cases, ◌∙◌, sym,
}
use texas_holdem.Pots.{insert_down, sort_down, seats_at, sole_seat, top_gap, uncalled}
use texas_holdem.Pots.Refund.{
  above, above-sort_down, above-keep, Falling, sort_down-Falling, above-Falling, above-one,
  above-two, mem-seats_at, seats_at-top,
}

-- Seat `i` has staked more than every other seat.
abbrev pub IsAlone : List ℕ → ℕ → Type 0
IsAlone live i = (k : ℕ) → k ≢ i → get_or live k 0 < get_or live i 0

-- There are two or more stakes above a bound, so one of them is not that of seat `i`.
above-some : (b : ℕ) (xs : List ℕ) → 1 ≤ above b xs → (k : ℕ) × (b < get_or xs k 0)
unfolding above
above-some b [] h = absurd (omega arith)
above-some b (x ∷ xs) h = elim (Bool-cases (ltb b x)) [
  | inl here ↦ (0, ground arith)
  | inr low ↦ let (k, more) = above-some b xs (ground arith) in (suc k, more)
]

above-other : (b i : ℕ) (xs : List ℕ) → 2 ≤ above b xs → (k : ℕ) × (k ≢ i) × (b < get_or xs k 0)
unfolding above
above-other b i [] h = absurd (omega arith)
above-other b zero (x ∷ xs) h =
    let (k, more) = above-some b xs (ground arith) in
    (suc k, (λ e. absurd (omega (arith, e))), more)
above-other b (suc i) (x ∷ xs) h = elim (Bool-cases (ltb b x)) [
  | inl here ↦ (0, (λ e. absurd (omega (arith, e))), ground arith)
  | inr low ↦
      let (k, apart, more) = above-other b i xs (ground arith) in
      (suc k, (λ e. apart (omega (arith, e))), more)
]

-- All seats at the top are listed, each once.
seats_at-mem :
    (top i d : ℕ) (xs : List ℕ)
    → d < length xs
    → get_or xs d 0 ≡ top
    → mem (i + d) (seats_at top i xs) ≡ true
seats_at-mem top i d [] inside same = absurd (omega arith)
seats_at-mem top i zero (x ∷ xs) inside same =
    let e : i + 0 ≡ i = omega arith in
    let hit : (x == top) ≡ true = ground arith in rw (hit, e, ==_refl i) refl
seats_at-mem top i (suc d) (x ∷ xs) inside same =
    let e : suc i + d ≡ i + suc d = omega arith in
    let later =
      subst (λ (m : ℕ). mem m (seats_at top (suc i) xs) ≡ true) e
        (seats_at-mem top (suc i) d xs (omega arith) same) in
    elim (Bool-cases (x == top)) [ inl hit ↦ rw hit (ground arith) | inr miss ↦ rw miss later ]

get_or-inside : (k : ℕ) (xs : List ℕ) → 0 < get_or xs k 0 → k < length xs
get_or-inside k [] h = absurd (omega arith)
get_or-inside zero (x ∷ xs) h = omega arith
get_or-inside (suc k) (x ∷ xs) h = omega (arith, get_or-inside k xs h)

seats_at-apart : (top i j k : ℕ) (xs tops : List ℕ) → seats_at top i xs ≡ j ∷ k ∷ tops → j ≢ k
seats_at-apart top i j k [] tops h = cc
seats_at-apart top i j k (x ∷ xs) tops h = elim (Bool-cases (x == top)) [
  | inl hit ↦
      let split : i ∷ seats_at top (suc i) xs ≡ j ∷ k ∷ tops = rw hit at h in
      let first : i ≡ j = cc in
      let rest : seats_at top (suc i) xs ≡ k ∷ tops = cc in
      let there : mem k (seats_at top (suc i) xs) ≡ true = rw (rest, ==_refl k) refl in
      let (d, e, inside, same) = mem-seats_at top (suc i) k xs there in
      λ equal. absurd (omega (arith, e, equal, first))
  | inr miss ↦ seats_at-apart top (suc i) j k xs tops (rw miss at h)
]

-- The refund: a seat that is alone on top, with all that it has more than the next stake, which is
-- positive. None only if no seat is alone on top of another positive stake.
abbrev pub IsExcess : List ℕ → Option (ℕ × ℕ) → Type 0
IsExcess live none = (i k : ℕ) → IsAlone live i → k ≢ i → 0 < get_or live k 0 → ⊥
IsExcess live (some (i, back)) =
    (i < length live)
    × IsAlone live i
    × ((k : ℕ) × (k ≢ i) × (0 < get_or live k 0) × (get_or live k 0 + back ≡ get_or live i 0))
    × ((k : ℕ) → k ≢ i → get_or live k 0 + back ≤ get_or live i 0)

-- What is known of the sorted positive stakes.
record IsSorted (live sorted : List ℕ) : Type 0 where
  same : (b : ℕ) → above b sorted ≡ above b live
  positive : above 0 sorted ≡ length sorted

module _ (live rest : List ℕ) (a b c : ℕ) (f : Falling c (a ∷ b ∷ rest))
    (s : IsSorted live (a ∷ b ∷ rest)) where
  top_most : (k : ℕ) → get_or live k 0 ≤ a
  top_most k = elim (Bool-cases (ltb a (get_or live k 0))) [
    | inl more ↦
        let none_above = above-Falling a (a ∷ b ∷ rest) (omega arith, f.1) in
        absurd (omega (arith, s.same a, none_above, above-one a k live (ground arith)))
    | inr low ↦ ground arith
  ]

  two_above : (m : ℕ) → m < b → 2 ≤ above m live
  unfolding above
  two_above m less = let more : m < a = omega (arith, f.1.0) in ground (arith, s.same m)

  second_positive : 0 < b
  unfolding above
  second_positive = elim (Bool-cases (ltb 0 b)) [
    | inl more ↦ ground arith
    | inr less ↦
        let is_zero : b ≡ 0 = ground arith in
        let few = above-Falling 0 (b ∷ rest) (omega arith, f.1.1) in
        absurd (ground (arith, s.positive, few))
  ]

  level-IsExcess : a ≤ b → IsExcess live none
  level-IsExcess level i k alone apart some_chips =
      let more = alone k apart in
      let (j, differs, above_i) =
        above-other (get_or live i 0 - 1) i live
          (two_above (get_or live i 0 - 1) (omega (arith, top_most i))) in
      omega (arith, alone j differs)

  module _ (gap : b < a) where
    one_above : above b live ≤ 1
    unfolding above
    one_above =
        let low = above-Falling b (b ∷ rest) (omega arith, f.1.1) in ground (arith, s.same b)

    others_below : (i k : ℕ) → get_or live i 0 ≡ a → k ≢ i → get_or live k 0 ≤ b
    others_below i k is_top apart = elim (Bool-cases (ltb b (get_or live k 0))) [
      | inl more ↦ absurd (
          omega (
            arith,
            one_above,
            above-two b i k live (λ e. apart (sym e)) (omega arith) (ground arith),
          ))
      | inr low ↦ ground arith
    ]

    at_top : (i : ℕ) → mem i (seats_at a 0 live) ≡ true → (i < length live) × (get_or live i 0 ≡ a)
    at_top i there = seats_at-top a live i (mem-seats_at a 0 i live there)

    some_top : (k : ℕ) × (mem k (seats_at a 0 live) ≡ true)
    unfolding above
    some_top =
        let (k, more) = above-some (a - 1) live (ground (arith, s.same (a - 1))) in
        let same : get_or live k 0 ≡ a = omega (arith, top_most k) in
        let here : 0 + k ≡ k = omega arith in
        (
          k,
          subst (λ (m : ℕ). mem m (seats_at a 0 live) ≡ true) here
              (seats_at-mem a 0 k live (get_or-inside k live (omega arith)) same),
        )

    gap-IsExcess : IsExcess live (sole_seat (seats_at a 0 live) (a - b))
    gap-IsExcess = go (seats_at a 0 live) refl
      where
        go : (tops : List ℕ) → seats_at a 0 live ≡ tops → IsExcess live (sole_seat tops (a - b))
        go [] is = let (k, there) = some_top in absurd (no_seat k (rw is at there))
          where
            no_seat : (k : ℕ) → mem k [] ≡ true → ⊥
            no_seat k e = cc
        go (i ∷ []) is =
            let (inside, is_top) = at_top i (rw (is, ==_refl i) refl) in
            let positive = second_positive in
            let (k, apart, more) = above-other (b - 1) i live (two_above (b - 1) (omega arith)) in
            let low = others_below i k is_top apart in
            (
              inside,
              λ j differs. omega (arith, others_below i j is_top differs),
              (k, apart, omega arith, omega arith),
              λ j differs. omega (arith, others_below i j is_top differs),
            )
        go (i ∷ j ∷ tops) is =
            let (inside, is_top) = at_top i (rw (is, ==_refl i) refl) in
            let (inside', also_top) = at_top j (rw is (ground (arith, ==_refl j))) in
            absurd (
              omega (
                arith,
                one_above,
                above-two b i j live (seats_at-apart a 0 i j live tops is) (omega arith)
                    (omega arith),
              ))

top_gap-IsExcess :
    (live sorted : List ℕ) (c : ℕ)
    → Falling c sorted
    → IsSorted live sorted
    → IsExcess live (top_gap live sorted)
unfolding above
top_gap-IsExcess live [] c f s = λ i k alone apart some_chips.
    let few = s.same 0 in absurd (omega (arith, few, above-one 0 k live some_chips))
top_gap-IsExcess live (a ∷ []) c f s = λ i k alone apart some_chips.
    let count = s.same 0 in
    let more = alone k apart in
    absurd (
      omega (
        arith,
        count,
        s.positive,
        above-two 0 i k live (λ e. apart (sym e)) (omega arith) some_chips,
      ))
top_gap-IsExcess live (a ∷ b ∷ rest) c f s = elim (Bool-cases (ltb b a)) [
  | inl gap ↦ rw gap (gap-IsExcess live rest a b c f s (ground arith))
  | inr level ↦ rw level (level-IsExcess live rest a b c f s (ground arith))
]

length-insert_down : (a : ℕ) (xs : List ℕ) → length (insert_down a xs) ≡ suc (length xs)
unfolding insert_down
length-insert_down a [] = refl
length-insert_down a (x ∷ xs) = ground (arith, length-insert_down a xs)

length-sort_down : (xs : List ℕ) → length (sort_down (keep (ltb 0) xs)) ≡ above 0 xs
unfolding sort_down above
length-sort_down [] = refl
length-sort_down (x ∷ xs) = elim (Bool-cases (ltb 0 x)) [
  | inl more ↦
      rw more
        (omega (arith, length-insert_down x (sort_down (keep (ltb 0) xs)), length-sort_down xs))
  | inr less ↦ rw less (omega (arith, length-sort_down xs))
]

-- A live bet goes back exactly if one seat has staked more than every other and some other stake is
-- positive: what goes back is the whole excess of this seat over the next highest stake, which some
-- other seat has.
pub uncalled-IsExcess : (live : List ℕ) → IsExcess live (uncalled live)
unfolding uncalled
uncalled-IsExcess live =
    let positive = keep (ltb 0) live in
    let same = λ (b : ℕ). above-sort_down b positive ∙ above-keep b live in
    top_gap-IsExcess live (sort_down positive) (sum positive) (sort_down-Falling positive)
      (record { same = same; positive = same 0 ∙ sym (length-sort_down live) })
