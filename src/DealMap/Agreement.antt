-- ===== src/DealMap/Agreement.antt =====
-- The order of the deal in the deal map and in the engine.
use texas_holdem.Base.{
  ℕ, zero, suc, ◌+◌, ◌%◌, ◌≤◌, ◌<◌, ◌≡◌, refl, sym, ap, subst, ◌∙◌, max, Bool, true, false, Option,
  none, some, List, [], ◌∷◌, length, mem, ==_refl, arith, Bool-cases, inl, inr, get_elem?,
  get_elem?-lt, lt-get_elem?,
}
use texas_holdem.Table.{Player, holds_at, idx_where}
use texas_holdem.Table.Seats.{Seated, mem-idx_where, idx_where-mem}
use texas_holdem.Hand.{deal_order}
use texas_holdem.DealMap.{max_seat, seat_deal_order}
use texas_holdem.DealMap.Ring.{walk, walk-shorter, walk-none}
use texas_holdem.DealMap.Counting.{deal_walk-ring}

abbrev in_hand : Player → Bool
in_hand p = p.in_seat

deal_order-walk :
    (players : List Player) (rounds j : ℕ)
    → deal_order players j rounds ≡ walk (length players) (holds_at players in_hand) j rounds
unfolding deal_order walk
deal_order-walk players zero j = refl
deal_order-walk players (suc rounds) j =
    let next = (j + 1) % length players in rw (deal_order-walk players rounds next) refl

mem-max_seat : (k : ℕ) (seats : List ℕ) → mem k seats ≡ true → k ≤ max_seat seats
mem-max_seat k [] h = cc
mem-max_seat k (i ∷ seats) h = ground (arith, mem-max_seat k seats)

max_seat-lt :
    (n : ℕ) (seats : List ℕ) → 0 < n → ((k : ℕ) → mem k seats ≡ true → k < n) → max_seat seats < n
max_seat-lt n [] h inside = h
max_seat-lt n (i ∷ seats) h inside =
    let here = inside i (ground (arith, ==_refl i)) in
    omega (arith, here, max_seat-lt n seats h (λ k there. inside k (ground arith)))

module _ (players : List Player) (seated : Seated players) where
  holds_at-some :
      (j : ℕ) (p : Player) → get_elem? players j ≡ some p → holds_at players in_hand j ≡ p.in_seat
  holds_at-some j p at =
      ap (λ (o : Option Player). elim o as (λ _. Bool) [ none ↦ false | some q ↦ in_hand q ]) at

  mem-inside :
      (j : ℕ)
      → mem j (idx_where in_hand players) ≡ true
      → (j < length players) × (holds_at players in_hand j ≡ true)
  mem-inside j there =
      let (k, p, at, sits, is) = idx_where-mem in_hand players j there in
      let same : k ≡ j = sym (seated k p at) ∙ is in
      let at' : get_elem? players j ≡ some p =
        subst (λ (i : ℕ). get_elem? players i ≡ some p) same at in
      (lt-get_elem? players j at', holds_at-some j p at' ∙ sits)

  -- The seats of the hand are the seats whose players are in it.
  mem-dealt :
      (j : ℕ) → j < length players → holds_at players in_hand j ≡ mem j (idx_where in_hand players)
  mem-dealt j below = elim (Bool-cases (mem j (idx_where in_hand players))) [
    | inl there ↦ (mem-inside j there).1 ∙ sym there
    | inr missing ↦
        let (p, at) = get_elem?-lt players j below in
        elim (Bool-cases p.in_seat) [
          | inl sits ↦
              let there =
                ap (λ (k : ℕ). mem k (idx_where in_hand players)) (sym (seated j p at))
                ∙ mem-idx_where in_hand players j p at sits in
              absurd (ground arith)
          | inr away ↦ holds_at-some j p at ∙ away ∙ sym missing
        ]
  ]

  -- The deal map goes round in the engine's order: on a table that numbers its seats in order, with
  -- the button at a seat, `seat_deal_order` of the seats in the hand is the order in which
  -- `start_hand` deals, though its ring is shorter and it stops at the last seat.
  pub seat_deal_order-engine :
      (button : ℕ)
      → button < length players
      → seat_deal_order button (idx_where (λ p. p.in_seat) players)
        ≡ deal_order players button (length players)
  unfolding seat_deal_order
  seat_deal_order-engine button inside =
      go (idx_where in_hand players) refl ∙ sym (deal_order-walk players (length players) button)
    where
      n : ℕ
      n = length players

      shorter :
          (ring : ℕ) (seats : List ℕ)
          → idx_where in_hand players ≡ seats
          → button < ring
          → ring ≤ n
          → ((k : ℕ) → mem k seats ≡ true → k < ring)
          → walk n (holds_at players in_hand) button n ≡ walk ring (λ k. mem k seats) button ring
      shorter ring seats is below fits all =
          walk-shorter n ring button (holds_at players in_hand) (λ k. mem k seats) below fits
            (λ j from. elim (Bool-cases (mem j seats)) [
              | inl there ↦ absurd (omega (arith, all j there))
              | inr out ↦ out
            ])
            (λ j under. mem-dealt j under ∙ ap (mem j) is)

      go :
          (seats : List ℕ)
          → idx_where in_hand players ≡ seats
          → seat_deal_order button seats ≡ walk n (holds_at players in_hand) button n
      go [] is = sym (shorter n [] is inside (omega arith) (λ k there. cc) ∙ walk-none n button n)
      go (i ∷ seats) is =
          let most = max_seat (i ∷ seats) in
          let all =
            λ (k : ℕ) (there : mem k (i ∷ seats) ≡ true). mem-max_seat k (i ∷ seats) there in
          let fits =
            max_seat-lt n (i ∷ seats) (omega arith)
              (λ k there. (mem-inside k (ap (mem k) is ∙ there)).0) in
          deal_walk-ring (suc (max most button)) button (i ∷ seats) (omega arith)
            (λ k there. omega (arith, all k there))
          ∙ sym (
              shorter (suc (max most button)) (i ∷ seats) is (omega arith) (omega (arith, fits))
                (λ k there. omega (arith, all k there)))
