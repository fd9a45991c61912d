-- ===== src/Forfeit/Laws.antt =====
-- Theorems on `settle_forfeit`.
use texas_holdem.Base.{
  ℕ, zero, suc, ◌+◌, ◌-◌, ◌≤◌, ◌<◌, ◌≡◌, ◌≢◌, refl, ap, sym, ◌∙◌, Bool, true, ◌&&◌, not, Option,
  none, some, List, [], ◌∷◌, ltb, ◌==◌, length, all, modify, length-modify, Result, ok, err, ◌>>=◌,
  or_raise, arith, sum, mem, mem-keep, All, get_or, Bool-cases, inl, inr, ==_refl, ==_iff, lt→ltb,
  ◌||◌,
}
use texas_holdem.Pots.{seat_set, Pot, pots_total, pot_layers, uncalled, payout, insert_level}
use texas_holdem.Pots.Layers.{pot_layers-total}
use texas_holdem.Pots.Eligible.{IsOpen, pot_layers-IsOpen}
use texas_holdem.Pots.Refund.{IsTopGap, uncalled-IsTopGap}
use texas_holdem.Pots.Payout.{paid, payees, Divides, payout-Divides}
use texas_holdem.Forfeit.{
  Error, endless_walk, PaidPot, Settlement, left_in, refund_of, take_back, give_back, pay, pay_pots,
  settle_seats, settle_forfeit,
}

sum-modify_add :
    (i a : ℕ) (xs : List ℕ) → i < length xs → sum (modify i (λ x. x + a) xs) ≡ sum xs + a
sum-modify_add i a [] h = absurd (omega arith)
sum-modify_add zero a (x ∷ xs) h = omega arith
sum-modify_add (suc i) a (x ∷ xs) h = omega (arith, sum-modify_add i a xs (omega arith))

sum-modify_sub :
    (i a : ℕ) (xs : List ℕ) → a ≤ get_or xs i 0 → sum (modify i (λ x. x - a) xs) + a ≡ sum xs
sum-modify_sub i a [] h = omega arith
sum-modify_sub zero a (x ∷ xs) h = omega arith
sum-modify_sub (suc i) a (x ∷ xs) h = omega (arith, sum-modify_sub i a xs h)

get_or-modify_ne :
    (i k : ℕ) (f : ℕ → ℕ) (xs : List ℕ) → k ≢ i → get_or (modify i f xs) k 0 ≡ get_or xs k 0
get_or-modify_ne zero k f [] h = refl
get_or-modify_ne (suc i) k f [] h = refl
get_or-modify_ne zero zero f (x ∷ xs) h = absurd (h refl)
get_or-modify_ne zero (suc k) f (x ∷ xs) h = refl
get_or-modify_ne (suc i) zero f (x ∷ xs) h = refl
get_or-modify_ne (suc i) (suc k) f (x ∷ xs) h = get_or-modify_ne i k f xs (λ e. h (ap suc e))

module _ (n dropped : ℕ) where
  -- Seats that may be paid: at the table, and not the dropper.
  abbrev Payable : List ℕ → Type 0
  Payable = All λ i. (i < n) × (i ≢ dropped)

  -- What a change of the stacks by `gain` chips keeps.
  abbrev Gains : ℕ → List ℕ → List ℕ → Type 0
  Gains gain stacks after =
      (sum after ≡ sum stacks + gain)
      × (length after ≡ length stacks)
      × (get_or after dropped 0 ≡ get_or stacks dropped 0)

  pay-Gains :
      (ps : List (ℕ × ℕ)) (stacks : List ℕ)
      → length stacks ≡ n
      → Payable (payees ps)
      → Gains (paid ps) stacks (pay ps stacks)
  unfolding pay
  pay-Gains [] stacks e h = (omega arith, refl, refl)
  pay-Gains ((i, a) ∷ ps) stacks e ((inside, apart), rest) =
      let paid_one = modify i (λ chips. chips + a) stacks in
      let (sums, lengths, same) =
        pay-Gains ps paid_one (length-modify i (λ chips. chips + a) stacks ∙ e) rest in
      (
        omega (arith, sums, sum-modify_add i a stacks (omega arith)),
        lengths ∙ length-modify i (λ chips. chips + a) stacks,
        same ∙ get_or-modify_ne i dropped (λ chips. chips + a) stacks (λ d. apart (sym d)),
      )

  abbrev GainsOk : ℕ → List ℕ → Result Error (List ℕ × List PaidPot) → Type 0
  GainsOk gain stacks (ok (after, paid_pots)) = Gains gain stacks after
  GainsOk gain stacks (err e) = ⊥

  GainsOk-bind :
      (first gain whole : ℕ) (stacks after : List ℕ) (r : Result Error (List ℕ × List PaidPot))
      (f : List PaidPot → List PaidPot)
      → whole ≡ first + gain
      → Gains first stacks after
      → GainsOk gain after r
      → GainsOk whole stacks (r >>= λ (last, pots). ok (last, f pots))
  GainsOk-bind first gain whole stacks after (ok (last, pots)) f e (s, l, d) (s', l', d') =
      (omega arith, l' ∙ l, d' ∙ d)
  GainsOk-bind first gain whole stacks after (err x) f e g h = h

  module _ (left : List ℕ) (payable : (k : ℕ) → mem k left ≡ true → (k < n) × (k ≢ dropped)) where
    open_pot-Payable :
        (eligible : List ℕ)
        → ((k : ℕ) → mem k eligible ≡ true → mem k left ≡ true)
        → Payable eligible
    open_pot-Payable [] h = tt
    open_pot-Payable (i ∷ eligible) h =
        (payable i (h i (rw (==_refl i))), open_pot-Payable eligible (λ k m. h k (ground arith)))

    pay_pots-GainsOk :
        (button : ℕ) (pots : List Pot) (stacks : List ℕ)
        → button < n
        → length stacks ≡ n
        → All (IsOpen left) pots
        → GainsOk (pots_total pots) stacks (pay_pots n button pots stacks)
    unfolding pay_pots
    pay_pots-GainsOk button [] stacks hb e o = (omega arith, refl, refl)
    pay_pots-GainsOk button (pot ∷ pots) stacks hb e (((w, wins), contends), rest) =
        go (payout n button pot.amount pot.eligible)
          (payout-Divides n button pot.amount pot.eligible w hb (payable w (contends w wins)).0
            wins)
          (λ after same. pay_pots-GainsOk button pots after hb same rest)
      where
        go :
            (found : Option (List (ℕ × ℕ)))
            → Divides pot.amount pot.eligible found
            → ((after : List ℕ)
                → length after ≡ n
                → GainsOk (pots_total pots) after (pay_pots n button pots after))
            → GainsOk (pots_total (pot ∷ pots)) stacks (
                or_raise found endless_walk >>= λ payouts.
                pay_pots n button pots (pay payouts stacks) >>= λ (after, paid_pots). ok (
                  after,
                  record { amount = pot.amount; eligible = pot.eligible; payouts = payouts }
                      ∷ paid_pots,
                ))
        go none d later = absurd d
        go (some ps) (sums, who, shares) later =
            let g = pay-Gains ps stacks e (rw who (open_pot-Payable pot.eligible contends)) in
            (GainsOk-bind (paid ps) (pots_total pots) (pots_total (pot ∷ pots)) stacks
              (pay ps stacks) (pay_pots n button pots (pay ps stacks))
              (λ paid_pots.
                record { amount = pot.amount; eligible = pot.eligible; payouts = ps } ∷ paid_pots)
              (omega (arith, sums)) g (later (pay ps stacks) (g.1 ∙ e)))

pub mem-insert_level_iff :
    (k a : ℕ) (xs : List ℕ) → mem k (insert_level a xs) ≡ (k == a || mem k xs)
unfolding insert_level
mem-insert_level_iff k a [] = refl
mem-insert_level_iff k a (x ∷ xs) = ground (arith, mem-insert_level_iff k a xs)

pub mem-seat_set : (k : ℕ) (xs : List ℕ) → mem k (seat_set xs) ≡ mem k xs
unfolding seat_set
mem-seat_set k [] = refl
mem-seat_set k (x ∷ xs) =
    mem-insert_level_iff k x (seat_set xs) ∙ ap (λ b. k == x || b) (mem-seat_set k xs)

-- The seats that are left are those in the hand but for the dropper.
mem-left_in :
    (k dropped : ℕ) (in_hand : List ℕ)
    → mem k (left_in in_hand dropped) ≡ (mem k in_hand && not (k == dropped))
unfolding left_in
mem-left_in k dropped in_hand =
    mem-keep k (λ i. not (i == dropped)) (seat_set in_hand)
    ∙ ap (λ b. b && not (k == dropped)) (mem-seat_set k in_hand)

-- Step 1 keeps the chips of the table together, and the dropper's where they are.
abbrev Refunds : ℕ → List ℕ → List ℕ → Option (ℕ × ℕ) → Type 0
Refunds dropped stacks live refund =
    (sum (take_back refund live) + sum (give_back refund stacks) ≡ sum live + sum stacks)
    × (length (give_back refund stacks) ≡ length stacks)
    × (get_or (give_back refund stacks) dropped 0 ≡ get_or stacks dropped 0)

refund_of-Refunds :
    (dropped : ℕ) (stacks live : List ℕ) (gap : Option (ℕ × ℕ))
    → length live ≡ length stacks
    → IsTopGap live gap
    → Refunds dropped stacks live (refund_of dropped gap)
unfolding refund_of
refund_of-Refunds dropped stacks live none e h = (refl, refl, refl)
refund_of-Refunds dropped stacks live (some (i, back)) e h = elim (Bool-cases (i == dropped)) [
  | inl own ↦ rw own (refl, refl, refl)
  | inr other ↦ rw other (
    omega (arith, sum-modify_sub i back live h.2, sum-modify_add i back stacks (omega arith)),
    length-modify i (λ chips. chips + back) stacks,
    get_or-modify_ne i dropped (λ chips. chips + back) stacks (λ d. ground arith),
  )
]

abbrev pub Settles : ℕ → List ℕ → ℕ → Result Error Settlement → Type 0
Settles bank stacks dropped (ok settlement) =
    (sum settlement.stacks ≡ bank)
    × (length settlement.stacks ≡ length stacks)
    × (get_or settlement.stacks dropped 0 ≡ get_or stacks dropped 0)
Settles bank stacks dropped (err e) = ⊥

settled :
    (bank gain dropped : ℕ) (refund : Option (ℕ × ℕ)) (stacks given : List ℕ)
    (r : Result Error (List ℕ × List PaidPot))
    → GainsOk (length stacks) dropped gain given r
    → sum given + gain ≡ bank
    → length given ≡ length stacks
    → get_or given dropped 0 ≡ get_or stacks dropped 0
    → Settles bank stacks dropped (
        r >>= λ (after, paid_pots).
        ok (record { stacks = after; refund = refund; pots = paid_pots }))
settled bank gain dropped refund stacks given (ok (after, paid_pots)) g e l d =
    (omega (arith, g.0), g.1 ∙ l, g.2 ∙ d)
settled bank gain dropped refund stacks given (err x) g e l d = g

settle_seats-Settles :
    (stacks live dead left : List ℕ) (dropped button seat : ℕ)
    → length live ≡ length stacks
    → button < length stacks
    → mem seat left ≡ true
    → ((k : ℕ) → mem k left ≡ true → (k < length stacks) × (k ≢ dropped))
    → Settles
        (sum stacks + sum live + sum dead)
        stacks
        dropped
        (settle_seats stacks live dead left dropped button)
unfolding settle_seats
settle_seats-Settles stacks live dead [] dropped button seat e hb here payable = cc
settle_seats-Settles stacks live dead (i ∷ left) dropped button seat e hb here payable =
    let refund = refund_of dropped (uncalled live) in
    let (sums, lengths, same) =
      refund_of-Refunds dropped stacks live (uncalled live) e (uncalled-IsTopGap live) in
    let pots = pot_layers (take_back refund live) dead (i ∷ left) in
    settled (sum stacks + sum live + sum dead) (pots_total pots) dropped refund stacks
      (give_back refund stacks) (pay_pots (length stacks) button pots (give_back refund stacks))
      (pay_pots-GainsOk (length stacks) dropped (i ∷ left) payable button pots
        (give_back refund stacks) hb lengths
        (pot_layers-IsOpen (take_back refund live) dead (i ∷ left) seat here))
      (omega (arith, sums, pot_layers-total (take_back refund live) dead (i ∷ left))) lengths same

all-mem : (p : ℕ → Bool) (k : ℕ) (xs : List ℕ) → all p xs ≡ true → mem k xs ≡ true → p k ≡ true
all-mem p k [] h m = cc
all-mem p k (x ∷ xs) h m = ground (arith, all-mem p k xs, ap p {x = k} {y = x})

-- On every well-formed table with a seat besides the dropper left in the hand, `settle_forfeit`
-- returns: the stacks then hold every chip of the stacks, the live bets and the dead money, for the
-- same seats, and the dropper's stack is what it had behind.
pub settle_forfeit-Settles :
    (stacks live dead in_hand : List ℕ) (dropped button seat : ℕ)
    → length live ≡ length stacks
    → length dead ≡ length stacks
    → dropped < length stacks
    → button < length stacks
    → all (λ i. ltb i (length stacks)) in_hand ≡ true
    → mem seat in_hand ≡ true
    → seat ≢ dropped
    → Settles
        (sum stacks + sum live + sum dead)
        stacks
        dropped
        (settle_forfeit stacks live dead in_hand dropped button)
unfolding settle_forfeit
settle_forfeit-Settles stacks live dead in_hand dropped button seat el ed hd hb inside here apart =
    rw
      (
        (==_iff (length live) (length stacks)).1 el,
        (==_iff (length dead) (length stacks)).1 ed,
        lt→ltb dropped (length stacks) hd,
        lt→ltb button (length stacks) hb,
        inside,
      )
      (settle_seats-Settles stacks live dead (left_in in_hand dropped) dropped button seat el hb
        (ground (arith, mem-left_in seat dropped in_hand))
        (λ k m. ground (
          arith,
          mem-left_in k dropped in_hand,
          all-mem (λ i. ltb i (length stacks)) k in_hand inside,
        )))
