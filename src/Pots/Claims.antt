-- ===== src/Pots/Claims.antt =====
-- Theorems on what a seat can win from the pots of `_pot_layers`.
use texas_holdem.Base.{
  ℕ, zero, suc, ◌+◌, ◌-◌, ◌≤◌, ◌<◌, min, ◌≡◌, refl, ap, ◌∙◌, true, false, List, [], ◌∷◌, arith, ltb,
  leb, ◌==◌, if◌then◌else◌, mem, mem-keep, total, sum, get_or, ◌⊎◌, inl, inr, Bool-cases,
}
use texas_holdem.Pots.{
  Pot, levels, layer, reaching, same_seats, add_layer, layer_pots, layers, pots_total, dead_pot,
  add_remaining, stacked_pots, pot_layers,
}
use texas_holdem.Pots.Layers.{
  Rising, levels-Rising, mem-levels, below, below-zero, layer-below, total-reverse,
}

-- The chips of the pots that a seat is eligible for.
abbrev pub share_of : ℕ → Pot → ℕ
share_of i pot = if mem i pot.eligible then pot.amount else 0

abbrev pub claim : ℕ → List Pot → ℕ
claim i = total (share_of i)

same_seats-eq : (xs ys : List ℕ) → same_seats xs ys ≡ true → xs ≡ ys
same_seats-eq [] [] h = refl
same_seats-eq [] (y ∷ ys) h = cc
same_seats-eq (x ∷ xs) [] h = cc
same_seats-eq (x ∷ xs) (y ∷ ys) h = ground (arith, same_seats-eq xs ys)

abbrev if_in : ℕ → List ℕ → ℕ → ℕ
if_in i seats amount = if mem i seats then amount else 0

-- Merging a layer into the last pot changes no seat's claim.
add_layer-claim :
    (i : ℕ) (pots : List Pot) (amount : ℕ) (eligible : List ℕ)
    → claim i (add_layer pots amount eligible) ≡ claim i pots + if_in i eligible amount
unfolding add_layer
add_layer-claim i [] amount eligible = ground arith
add_layer-claim i (pot ∷ pots) amount eligible =
    ground
      (arith, same_seats-eq pot.eligible eligible, ap (mem i) {x = pot.eligible} {y = eligible})

layer_pots-claim :
    (i : ℕ) (pots : List Pot) (amount : ℕ) (eligible : List ℕ)
    → claim i (layer_pots pots amount eligible) ≡ claim i pots + if_in i eligible amount
unfolding layer_pots
layer_pots-claim i pots amount [] = omega arith
layer_pots-claim i pots amount (seat ∷ seats) = add_layer-claim i pots amount (seat ∷ seats)

Rising-lt : (previous k : ℕ) (ls : List ℕ) → Rising previous ls → mem k ls ≡ true → previous < k
Rising-lt previous k [] r h = cc
Rising-lt previous k (level ∷ rest) r h = ground (arith, Rising-lt level k rest r.1)

-- The pot on top of the stack is closed to a seat.
abbrev TopExcludes : ℕ → List Pot → Type 0
TopExcludes i [] = ⊥
TopExcludes i (pot ∷ pots) = mem i pot.eligible ≡ false

layer_pots-TopExcludes :
    (i : ℕ) (pots : List Pot) (amount : ℕ) (eligible : List ℕ)
    → mem i eligible ≡ false
    → (TopExcludes i pots ⊎ ((k : ℕ) × (mem k eligible ≡ true)))
    → TopExcludes i (layer_pots pots amount eligible)
unfolding layer_pots add_layer
layer_pots-TopExcludes i [] amount [] h (inl closed) = closed
layer_pots-TopExcludes i [] amount [] h (inr (k, member)) = cc
layer_pots-TopExcludes i (pot ∷ pots) amount [] h (inl closed) = closed
layer_pots-TopExcludes i (pot ∷ pots) amount [] h (inr (k, member)) = cc
layer_pots-TopExcludes i [] amount (seat ∷ seats) h c = h
layer_pots-TopExcludes i (pot ∷ pots) amount (seat ∷ seats) h c = ground (
  arith,
  same_seats-eq pot.eligible (seat ∷ seats),
  ap (mem i) {x = pot.eligible} {y = seat ∷ seats},
)

module _ (live contenders : List ℕ) (i : ℕ) (contends : mem i contenders ≡ true) where
  abbrev stake : ℕ
  stake = get_or live i 0

  mem-reaching : (level : ℕ) → mem i (reaching live contenders level) ≡ leb level stake
  mem-reaching level =
      ground (arith, mem-keep i (λ seat. leb level (get_or live seat 0)) contenders)

  -- Above its own stake a seat is eligible for nothing.
  layers-claim_above :
      (previous : ℕ) (ls : List ℕ) (pots : List Pot)
      → Rising previous ls
      → stake ≤ previous
      → claim i (layers live contenders previous ls pots) ≡ claim i pots
  unfolding layers
  layers-claim_above previous [] pots r h = refl
  layers-claim_above previous (level ∷ rest) pots r h =
      let eligible = reaching live contenders level in
      let amount = layer live previous level in
      ground (
        arith,
        layers-claim_above level rest (layer_pots pots amount eligible) r.1,
        layer_pots-claim i pots amount eligible,
        mem-reaching level,
      )

  layers-claim :
      (previous : ℕ) (ls : List ℕ) (pots : List Pot)
      → Rising previous ls
      → mem stake ls ≡ true
      → claim i (layers live contenders previous ls pots) + below live previous
        ≡ claim i pots + below live stake
  unfolding layers
  layers-claim previous [] pots r h = cc
  layers-claim previous (level ∷ rest) pots r h =
      let eligible = reaching live contenders level in
      let amount = layer live previous level in
      elim (Bool-cases (stake == level)) [
        | inl here ↦ ground (
          arith,
          layers-claim_above level rest (layer_pots pots amount eligible) r.1,
          layer_pots-claim i pots amount eligible,
          mem-reaching level,
          layer-below live previous level,
          ap (below live) {x = stake} {y = level},
        )
        | inr above ↦ ground (
          arith,
          layers-claim level rest (layer_pots pots amount eligible) r.1,
          layer_pots-claim i pots amount eligible,
          mem-reaching level,
          layer-below live previous level,
          Rising-lt level stake rest r.1,
        )
      ]

  -- Once the levels have passed a seat's stake, the top pot stays closed to it.
  layers-TopExcludes_above :
      (previous : ℕ) (ls : List ℕ) (pots : List Pot)
      → Rising previous ls
      → stake ≤ previous
      → TopExcludes i pots
      → TopExcludes i (layers live contenders previous ls pots)
  unfolding layers
  layers-TopExcludes_above previous [] pots r h closed = closed
  layers-TopExcludes_above previous (level ∷ rest) pots r h closed =
      let eligible = reaching live contenders level in
      let amount = layer live previous level in
      layers-TopExcludes_above level rest (layer_pots pots amount eligible) r.1 (omega arith) (
        layer_pots-TopExcludes i pots amount eligible (ground (arith, mem-reaching level))
          (inl closed))

module _ (live contenders : List ℕ) (i k : ℕ) (contends : mem i contenders ≡ true)
    (rival : mem k contenders ≡ true) (deeper : get_or live i 0 < get_or live k 0) where
  layers-TopExcludes :
      (previous : ℕ) (ls : List ℕ) (pots : List Pot)
      → Rising previous ls
      → mem (get_or live k 0) ls ≡ true
      → TopExcludes i (layers live contenders previous ls pots)
  unfolding layers
  layers-TopExcludes previous [] pots r h = cc
  layers-TopExcludes previous (level ∷ rest) pots r h =
      let eligible = reaching live contenders level in
      let amount = layer live previous level in
      elim (Bool-cases (get_or live k 0 == level)) [
        | inl here ↦
            layers-TopExcludes_above live contenders i contends level rest
              (layer_pots pots amount eligible) r.1 (ground arith)
              (layer_pots-TopExcludes i pots amount eligible
                (ground (arith, mem-reaching live contenders i contends level))
                (inr (k, ground (arith, mem-reaching live contenders k rival level))))
        | inr above ↦
            layers-TopExcludes level rest (layer_pots pots amount eligible) r.1 (ground arith)
      ]

mem-get_or : (live : List ℕ) (i : ℕ) → 0 < get_or live i 0 → mem (get_or live i 0) live ≡ true
mem-get_or [] i h = absurd (omega arith)
mem-get_or (x ∷ live) zero h = ground arith
mem-get_or (x ∷ live) (suc i) h = ground (arith, mem-get_or live i)

dead_pot-claim :
    (i n : ℕ) (contenders : List ℕ) → mem i contenders ≡ true → claim i (dead_pot n contenders) ≡ n
unfolding dead_pot
dead_pot-claim i zero contenders h = refl
dead_pot-claim i (suc n) contenders h = ground arith

stacked_pots-claim :
    (live dead contenders : List ℕ) (i : ℕ)
    → mem i contenders ≡ true
    → claim i (stacked_pots live dead contenders) ≡ sum dead + below live (get_or live i 0)
unfolding stacked_pots
stacked_pots-claim live dead contenders i h = elim (Bool-cases (ltb 0 (get_or live i 0))) [
  | inl staked ↦ omega (
    arith,
    dead_pot-claim i (sum dead) contenders h,
    below-zero live,
    layers-claim live contenders i h 0 (levels live) (dead_pot (sum dead) contenders)
        (levels-Rising live)
        (mem-levels (get_or live i 0) live (ground arith) (mem-get_or live i (ground arith))),
  )
  | inr unstaked ↦
      let nothing : get_or live i 0 ≡ 0 = ground arith in
      omega (
        arith,
        dead_pot-claim i (sum dead) contenders h,
        ap (below live) nothing,
        below-zero live,
        layers-claim_above live contenders i h 0 (levels live) (dead_pot (sum dead) contenders)
            (levels-Rising live) (omega arith),
      )
]

add_remaining-claim :
    (i n : ℕ) (contenders : List ℕ) (pots : List Pot)
    → TopExcludes i pots
    → claim i (add_remaining n contenders pots) ≡ claim i pots
unfolding add_remaining
add_remaining-claim i zero contenders pots h = refl
add_remaining-claim i (suc n) contenders [] h = absurd h
add_remaining-claim i (suc n) contenders (pot ∷ pots) h = ground arith

-- A contender that some other contender has outbet can win the dead money and, of each stake, no
-- more than it has matched: the side pots above its own bet are closed to it.
pub pot_layers-claim :
    (live dead contenders : List ℕ) (i k : ℕ)
    → mem i contenders ≡ true
    → mem k contenders ≡ true
    → get_or live i 0 < get_or live k 0
    → claim i (pot_layers live dead contenders)
      ≡ sum dead + total (λ stake. min stake (get_or live i 0)) live
unfolding pot_layers stacked_pots
pot_layers-claim live dead contenders i k hi hk deeper =
    let pots = stacked_pots live dead contenders in
    let left = sum live + sum dead - pots_total pots in
    total-reverse (share_of i) (add_remaining left contenders pots)
    ∙ add_remaining-claim i left contenders pots (
        layers-TopExcludes live contenders i k hi hk deeper 0 (levels live)
          (dead_pot (sum dead) contenders) (levels-Rising live)
          (mem-levels (get_or live k 0) live (omega arith) (mem-get_or live k (omega arith))))
    ∙ stacked_pots-claim live dead contenders i hi
