-- ===== src/Cashout.antt =====
-- `cashout_split` of holdem/engine.py: the pot is split by the hero's price instead of a run-out. The
-- price of the contested chips, `int(hero_eq * eligible_pot)`, and what the fee leaves of it,
-- `int(gross * (1 - fee))`, are floating-point arithmetic and are parameters.
pub mod Kept
pub mod Balance
pub mod Division
pub mod Parts
pub mod Conserved
use texas_holdem.Base.{
  ℕ, zero, suc, ◌+◌, ◌-◌, ◌*◌, ◌/◌, ◌%◌, Bool, true, false, Option, none, some, List, [], ◌∷◌, map,
  ltb, ◌==◌, if◌then◌else◌, length, mem, discard, modify, get_or, sum, total, Result, ok, err,
  ◌>>=◌,
}
use texas_holdem.Base.Int.{ℤ, pos, negsuc, sub_ℕ, ◌+ℤ◌}
use texas_holdem.Table.{Player}
use texas_holdem.Pots.{Pot, pots_total, pot_layers, uncalled}

pub record Cashout : Type 0 where
  pub payouts : List ℤ
  pub refund : Option (ℕ × ℕ)
  pub eligible_pot : ℕ
  pub gross : ℕ
  pub net : ℕ
  pub fee : ℤ

-- `undecided` is the result `None`; `zero_division` is the exception.
pub data Error : Type 0 where
  undecided zero_division : Error

-- `divmod` by a positive number, which rounds down.
abbrev pub floor_div : ℤ → ℕ → ℤ
floor_div (pos n) k = pos (n / k)
floor_div (negsuc n) k = negsuc (n / k)

abbrev pub floor_mod : ℤ → ℕ → ℕ
floor_mod (pos n) k = n % k
floor_mod (negsuc n) k = k - 1 - n % k

abbrev pub taken_back : Option (ℕ × ℕ) → List ℕ → List ℕ
taken_back none live = live
taken_back (some (i, back)) live = modify i (λ stake. stake - back) live

-- Who a pot goes to without a run-out: its only eligible seat, or nobody yet.
pub data Claim : Type 0 where
  sole : ℕ → Claim
  contest foreign : Claim

unfoldable pub pot_claim : ℕ → List ℕ → Claim
pot_claim hero_idx (i ∷ []) = sole i
pot_claim hero_idx eligible = if mem hero_idx eligible then contest else foreign

abbrev pub pay_seat : ℕ → ℤ → List ℤ → List ℤ
pay_seat seat chips payouts = modify seat (λ x. x +ℤ chips) payouts

-- The first loop: the pots of one seat are paid, and the hero's contested pots are collected.
unfoldable pub contested_pots : ℕ → List Pot → List ℤ → Result Error (List ℤ × List Pot)
unfolding pot_claim
contested_pots hero_idx [] payouts = ok (payouts, [])
contested_pots hero_idx (p ∷ pots) payouts =
    let alone = λ (i : ℕ). contested_pots hero_idx pots (pay_seat i (pos p.amount) payouts) in
    let more = contested_pots hero_idx pots payouts in
    elim (pot_claim hero_idx p.eligible) [
      | sole i ↦ alone i
      | contest ↦ more >>= λ rest. ok (rest.0, p ∷ rest.1)
      | foreign ↦ err undecided
    ]

-- `net * pot["amount"] // eligible_pot if eligible_pot else 0`
abbrev pub portion : ℕ → ℕ → Pot → ℕ
portion net zero p = 0
portion net (suc e) p = net * p.amount / suc e

-- `max(range(len(contested)), key=...)`: the first of the largest, after a first pot `best`.
unfoldable pub biggest : ℕ → ℕ → ℕ → List Pot → ℕ
biggest best amount i [] = best
biggest best amount i (p ∷ pots) =
    let here = biggest i p.amount (suc i) pots in
    let there = biggest best amount (suc i) pots in if ltb amount p.amount then here else there

abbrev pub biggest_pot : List Pot → ℕ
biggest_pot [] = 0
biggest_pot (p ∷ pots) = biggest 0 p.amount 1 pots

-- The hero's part of each contested pot, with the rounding chips on the largest; the parts never
-- exceed `net`.
unfoldable pub hero_parts : ℕ → ℕ → List Pot → List ℕ
unfolding biggest
hero_parts net eligible_pot pots =
    let parts = map (portion net eligible_pot) pots in
    modify (biggest_pot pots) (λ part. part + (net - sum parts)) parts

-- `each + (1 if j < odd else 0)` for each rival in turn.
unfoldable pub pay_rivals : ℤ → ℕ → List ℕ → List ℤ → List ℤ
pay_rivals each odd [] payouts = payouts
pay_rivals each zero (i ∷ rivals) payouts = pay_rivals each zero rivals (pay_seat i each payouts)
pay_rivals each (suc odd) (i ∷ rivals) payouts =
    pay_rivals each odd rivals (pay_seat i (each +ℤ pos 1) payouts)

unfoldable pub pay_pot : ℕ → Pot → ℕ → List ℤ → Result Error (List ℤ)
unfolding pay_rivals
pay_pot hero_idx p part payouts =
    let rivals = discard hero_idx p.eligible in
    let rest = sub_ℕ p.amount part in
    if length rivals == 0
    then err zero_division
    else ok (
        pay_rivals (floor_div rest (length rivals)) (floor_mod rest (length rivals)) rivals
          (pay_seat hero_idx (pos part) payouts))

unfoldable pub pay_rests : ℕ → List Pot → List ℕ → List ℤ → Result Error (List ℤ)
unfolding pay_pot
pay_rests hero_idx (p ∷ pots) (part ∷ parts) payouts =
    pay_pot hero_idx p part payouts >>= pay_rests hero_idx pots parts
pay_rests hero_idx _ _ payouts = ok payouts

abbrev pub nothing : List ℕ → List ℤ
nothing live = map (λ (stake : ℕ). pos 0) live

-- `cashout_split`, on the live and the dead stakes of the players.
unfoldable pub cashout_split :
    (ℕ → ℕ) → (ℕ → ℕ) → List ℕ → List ℕ → ℕ → List ℕ → Result Error Cashout
unfolding contested_pots hero_parts pay_rests uncalled pot_layers
cashout_split price after_fee live dead hero_idx contenders = do
  let refund = uncalled live
  (payouts, contested) ←
      contested_pots hero_idx (pot_layers (taken_back refund live) dead contenders) (nothing live)
  let gross = price (pots_total contested)
  let net = after_fee gross
  paid ← pay_rests hero_idx contested (hero_parts net (pots_total contested) contested) payouts
  ok (record {
    payouts = paid;
    refund = refund;
    eligible_pot = pots_total contested;
    gross = gross;
    net = net;
    fee = sub_ℕ gross net;
  })
