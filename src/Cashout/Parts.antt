-- ===== src/Cashout/Parts.antt =====
-- The hero's parts of the contested pots.
use native.Mathlib.Nat.{mod-add-div}
use texas_holdem.Base.{
  ℕ, suc, ◌+◌, ◌-◌, ◌*◌, ◌<◌, ◌≤◌, ◌≡◌, ap, ◌∙◌, List, [], ◌∷◌, map, length, length-map,
  get_elem?-lt, modify, sum, sum-total, total-modify_at, arith,
}
use texas_holdem.Pots.{Pot, pots_total}
use texas_holdem.Cashout.{portion, biggest, biggest_pot, hero_parts}

biggest-lt :
    (n best amount i : ℕ) (pots : List Pot)
    → best < n
    → i + length pots ≤ n
    → biggest best amount i pots < n
unfolding biggest
biggest-lt n best amount i [] low fits = low
biggest-lt n best amount i (p ∷ pots) low fits = ground (
  arith,
  biggest-lt n i p.amount (suc i) pots (omega arith) (omega arith),
  biggest-lt n best amount (suc i) pots low (omega arith),
)

portion-le : (net e : ℕ) (p : Pot) → suc e * portion net (suc e) p ≤ net * p.amount
portion-le net e p = omega (arith, mod-add-div (net * p.amount) (suc e))

portions-le :
    (net e : ℕ) (pots : List Pot)
    → suc e * sum (map (portion net (suc e)) pots) ≤ net * pots_total pots
portions-le net e [] = grind arith
portions-le net e (p ∷ pots) =
    let split : suc e * (portion net (suc e) p + sum (map (portion net (suc e)) pots))
        ≡ suc e * portion net (suc e) p + suc e * sum (map (portion net (suc e)) pots) =
      grind arith in
    let split' : net * (p.amount + pots_total pots) ≡ net * p.amount + net * pots_total pots =
      grind arith in
    omega (arith, split, split', portion-le net e p, portions-le net e pots)

cancel : (k a b : ℕ) → suc k * a ≤ b * suc k → a ≤ b
cancel k a b h = grind arith

parts-whole :
    (net e : ℕ) (p : Pot) (pots : List Pot)
    → pots_total (p ∷ pots) ≡ suc e
    → sum (hero_parts net (suc e) (p ∷ pots)) ≡ net
unfolding hero_parts
parts-whole net e p pots size =
    let parts = map (portion net (suc e)) (p ∷ pots) in
    let bound = cancel e (sum parts) net (rw size at (portions-le net e (p ∷ pots))) in
    let best = biggest_pot (p ∷ pots) in
    let more = λ (part : ℕ). part + (net - sum parts) in
    let inside = biggest-lt (length (p ∷ pots)) 0 p.amount 1 pots (omega arith) (omega arith) in
    let (part, at) =
      get_elem?-lt parts best
        (omega (arith, length-map (portion net (suc e)) (p ∷ pots), inside)) in
    omega (
      arith,
      total-modify_at (λ x. x) more best parts part at,
      sum-total parts,
      sum-total (modify best more parts),
      bound,
    )

-- The hero gets what it is offered: the parts of the contested pots that it is paid, the rounding
-- chips among them, add up to `net`, if there are chips in these pots.
pub hero_parts-sum :
    (net : ℕ) (pots : List Pot)
    → 0 < pots_total pots
    → sum (hero_parts net (pots_total pots) pots) ≡ net
hero_parts-sum net [] some_chips = absurd (omega arith)
hero_parts-sum net (p ∷ pots) some_chips =
    let e = pots_total (p ∷ pots) - 1 in
    let size : pots_total (p ∷ pots) ≡ suc e = omega (arith, some_chips) in
    ap (λ n. sum (hero_parts net n (p ∷ pots))) size ∙ parts-whole net e p pots size
