-- ===== src/Forfeit.antt =====
-- `settle_forfeit` of holdem/engine.py: a hand that stops because a player left. Chip counts and
-- seats are natural numbers by their type, so the source's refusals of negative and fractional
-- values do not arise.
pub mod Laws
use texas_holdem.Base.{
  ℕ, ◌+◌, ◌-◌, Bool, true, false, ◌&&◌, not, Option, none, some, List, [], ◌∷◌, ◌++◌, ltb, ◌==◌,
  if◌then◌else◌, length, keep, all, modify, Result, ok, err, ◌>>=◌, ◌>>◌, guard, or_raise,
}
use texas_holdem.Pots.{seat_set, Pot, insert_level, pot_layers, uncalled, payout}

pub data Error : Type 0 where
  seats_differ : Error
  out_of_range : Error
  nobody_left : Error
  -- The odd-chip walk ran out of its fuel; `settle_forfeit-total` shows that it never does.
  endless_walk : Error

pub record PaidPot : Type 0 where
  pub amount : ℕ
  pub eligible : List ℕ
  pub payouts : List (ℕ × ℕ)

pub record Settlement : Type 0 where
  pub stacks : List ℕ
  pub refund : Option (ℕ × ℕ)
  pub pots : List PaidPot

-- `sorted(set(in_hand) - {dropped})`
unfoldable pub left_in : List ℕ → ℕ → List ℕ
unfolding seat_set
left_in in_hand dropped = keep (λ i. not (i == dropped)) (seat_set in_hand)

-- Another seat's uncalled raise goes back; the dropper forfeits its own.
unfoldable pub refund_of : ℕ → Option (ℕ × ℕ) → Option (ℕ × ℕ)
refund_of dropped none = none
refund_of dropped (some (i, back)) = if i == dropped then none else some (i, back)

abbrev pub take_back : Option (ℕ × ℕ) → List ℕ → List ℕ
take_back none live = live
take_back (some (i, back)) live = modify i (λ chips. chips - back) live

abbrev pub give_back : Option (ℕ × ℕ) → List ℕ → List ℕ
give_back none stacks = stacks
give_back (some (i, back)) stacks = modify i (λ chips. chips + back) stacks

-- `for i, amt in payouts.items(): after[i] += amt`
unfoldable pub pay : List (ℕ × ℕ) → List ℕ → List ℕ
pay [] stacks = stacks
pay ((i, amount) ∷ payouts) stacks = pay payouts (modify i (λ chips. chips + amount) stacks)

-- Each pot in turn is divided among its eligible seats and paid.
unfoldable pub pay_pots : ℕ → ℕ → List Pot → List ℕ → Result Error (List ℕ × List PaidPot)
unfolding pay
pay_pots n button [] stacks = ok (stacks, [])
pay_pots n button (pot ∷ pots) stacks = do
  payouts ← or_raise (payout n button pot.amount pot.eligible) endless_walk
  (after, paid_pots) ← pay_pots n button pots (pay payouts stacks)
  ok (after, record { amount = pot.amount; eligible = pot.eligible; payouts = payouts } ∷ paid_pots)

unfoldable pub settle_seats : List ℕ → List ℕ → List ℕ → List ℕ → ℕ → ℕ → Result Error Settlement
unfolding refund_of pay_pots
settle_seats stacks live dead [] dropped button = err nobody_left
settle_seats stacks live dead (seat ∷ seats) dropped button =
    let refund = refund_of dropped (uncalled live) in
    pay_pots (length stacks) button (pot_layers (take_back refund live) dead (seat ∷ seats))
      (give_back refund stacks)
    >>= λ (after, paid_pots). ok (record { stacks = after; refund = refund; pots = paid_pots })

-- `settle_forfeit`
unfoldable pub settle_forfeit : List ℕ → List ℕ → List ℕ → List ℕ → ℕ → ℕ → Result Error Settlement
unfolding settle_seats left_in
settle_forfeit stacks live dead in_hand dropped button = do
  guard (length live == length stacks && length dead == length stacks) seats_differ
  guard (all (λ i. ltb i (length stacks)) (dropped ∷ button ∷ in_hand)) out_of_range
  settle_seats stacks live dead (left_in in_hand dropped) dropped button
