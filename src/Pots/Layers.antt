-- ===== src/Pots/Layers.antt =====
-- Theorems on the chips in the pots of `_pot_layers`.
use mathlib.Core.List.{reverse-cons}
use texas_holdem.Base.{
  ℕ, zero, suc, ◌+◌, ◌-◌, ◌≤◌, ◌<◌, min, ◌≡◌, refl, true, List, [], ◌∷◌, reverse, arith, mem, total,
  total-append, total-sub, sum,
}
use texas_holdem.Pots.{
  Pot, insert_level, levels, layer, reaching, add_layer, layer_pots, layers, pots_total, dead_pot,
  add_remaining, stacked_pots, pot_layers,
}

-- The levels rise strictly from the one below them.
abbrev pub Rising : ℕ → List ℕ → Type 0
Rising a [] = Unit {0}
Rising a (x ∷ xs) = (a < x) × Rising x xs

insert_level-Rising : (b a : ℕ) (xs : List ℕ) → b < a → Rising b xs → Rising b (insert_level a xs)
unfolding insert_level
insert_level-Rising b a [] h r = (h, tt)
insert_level-Rising b a (x ∷ xs) h r = ground (arith, insert_level-Rising x a xs)

pub levels-Rising : (live : List ℕ) → Rising 0 (levels live)
unfolding levels
levels-Rising [] = tt
levels-Rising (a ∷ live) = ground (arith, levels-Rising live, insert_level-Rising 0 a (levels live))

mem-insert_level : (k a : ℕ) (xs : List ℕ) → mem k xs ≡ true → mem k (insert_level a xs) ≡ true
unfolding insert_level
mem-insert_level k a [] h = cc
mem-insert_level k a (x ∷ xs) h = ground (arith, mem-insert_level k a xs)

mem-insert_level_self : (a : ℕ) (xs : List ℕ) → mem a (insert_level a xs) ≡ true
unfolding insert_level
mem-insert_level_self a [] = ground arith
mem-insert_level_self a (x ∷ xs) = ground (arith, mem-insert_level_self a xs)

-- Every live stake is one of the levels.
pub mem-levels : (k : ℕ) (live : List ℕ) → 0 < k → mem k live ≡ true → mem k (levels live) ≡ true
unfolding levels
mem-levels k [] p h = cc
mem-levels k (a ∷ live) p h = ground (
  arith,
  mem-levels k live,
  mem-insert_level k a (levels live),
  mem-insert_level_self k (levels live),
)

-- What the stakes hold up to a level.
abbrev pub below : List ℕ → ℕ → ℕ
below live level = total (λ stake. min stake level) live

pub layer-below :
    (live : List ℕ) (previous level : ℕ)
    → previous ≤ level
    → layer live previous level + below live previous ≡ below live level
layer-below live previous level h =
    total-sub (λ stake. min stake level) (λ stake. min stake previous) (λ stake. omega arith) live

below-le-sum : (live : List ℕ) (level : ℕ) → below live level ≤ sum live
below-le-sum [] level = omega arith
below-le-sum (x ∷ live) level = omega (arith, below-le-sum live level)

pub below-zero : (live : List ℕ) → below live 0 ≡ 0
below-zero [] = refl
below-zero (x ∷ live) = omega (arith, below-zero live)

pub add_layer-total :
    (pots : List Pot) (amount : ℕ) (eligible : List ℕ)
    → pots_total (add_layer pots amount eligible) ≡ pots_total pots + amount
unfolding add_layer
add_layer-total [] amount eligible = omega arith
add_layer-total (pot ∷ pots) amount eligible = ground arith

layer_pots-total-le :
    (pots : List Pot) (amount : ℕ) (eligible : List ℕ)
    → pots_total (layer_pots pots amount eligible) ≤ pots_total pots + amount
unfolding layer_pots
layer_pots-total-le pots amount [] = omega arith
layer_pots-total-le pots amount (seat ∷ seats) =
    omega (arith, add_layer-total pots amount (seat ∷ seats))

layers-total-le :
    (live contenders : List ℕ) (previous : ℕ) (ls : List ℕ) (pots : List Pot)
    → Rising previous ls
    → pots_total (layers live contenders previous ls pots) + below live previous
      ≤ pots_total pots + sum live
unfolding layers
layers-total-le live contenders previous [] pots r = omega (arith, below-le-sum live previous)
layers-total-le live contenders previous (level ∷ rest) pots r =
    let eligible = reaching live contenders level in
    let grown = layer_pots pots (layer live previous level) eligible in
    omega (
      arith,
      layers-total-le live contenders level rest grown r.1,
      layer_pots-total-le pots (layer live previous level) eligible,
      layer-below live previous level (omega arith),
    )

dead_pot-total : (n : ℕ) (contenders : List ℕ) → pots_total (dead_pot n contenders) ≡ n
unfolding dead_pot
dead_pot-total zero contenders = refl
dead_pot-total (suc n) contenders = omega arith

pub stacked_pots-total-le :
    (live dead contenders : List ℕ)
    → pots_total (stacked_pots live dead contenders) ≤ sum live + sum dead
unfolding stacked_pots
stacked_pots-total-le live dead contenders = omega (
  arith,
  layers-total-le live contenders 0 (levels live) (dead_pot (sum dead) contenders)
      (levels-Rising live),
  below-zero live,
  dead_pot-total (sum dead) contenders,
)

add_remaining-total :
    (n : ℕ) (contenders : List ℕ) (pots : List Pot)
    → pots_total (add_remaining n contenders pots) ≡ pots_total pots + n
unfolding add_remaining
add_remaining-total zero contenders pots = omega arith
add_remaining-total (suc n) contenders [] = omega arith
add_remaining-total (suc n) contenders (pot ∷ pots) = omega arith

pub total-reverse {ℓ} : {A : Type ℓ} (f : A → ℕ) (xs : List A) → total f (reverse xs) ≡ total f xs
total-reverse f [] = refl
total-reverse f (x ∷ xs) =
    rw (reverse-cons x xs) (omega (arith, total-append f (reverse xs) (x ∷ []), total-reverse f xs))

-- The pots of a hand hold exactly the live and the dead chips that were put in, whoever contends.
pub pot_layers-total :
    (live dead contenders : List ℕ)
    → pots_total (pot_layers live dead contenders) ≡ sum live + sum dead
unfolding pot_layers
pot_layers-total live dead contenders =
    let pots = stacked_pots live dead contenders in
    let left = sum live + sum dead - pots_total pots in
    omega (
      arith,
      total-reverse (λ (pot : Pot). pot.amount) (add_remaining left contenders pots),
      add_remaining-total left contenders pots,
      stacked_pots-total-le live dead contenders,
    )
