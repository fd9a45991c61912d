-- ===== src/Replica/Started.antt =====
-- The hand that a replica starts, and where its steps can lead.
use texas_holdem.Base.{
  ℕ, zero, suc, ◌+◌, ◌<◌, ◌≡◌, refl, sym, ap, subst, ◌∙◌, Bool, true, Option, none, some, List, [],
  ◌∷◌, length, get_elem?, total, sum, arith, ok, >>=-eq-ok, ok-injective,
}
use texas_holdem.Table.{Player, Structure}
use texas_holdem.Hand.{start_hand}
use texas_holdem.Hand.Start.{start_hand-Inv}
use texas_holdem.Replica.{
  Replica, fresh_player, fresh_players, new_replica, dummy_deck, seeded, engine_result,
  start_replica, recompute_phase,
}
use texas_holdem.Replica.Calls.{engine_result-eq-ok}
use texas_holdem.Replica.Steps.{Steps}
use texas_holdem.Replica.Money.{Tracked, recomputed-Tracked, Steps-Keeps}

length-fresh_players : (i : ℕ) (stacks : List ℕ) → length (fresh_players i stacks) ≡ length stacks
unfolding fresh_players
length-fresh_players i [] = refl
length-fresh_players i (x ∷ stacks) = ap suc (length-fresh_players (suc i) stacks)

total-fresh_players :
    (i : ℕ) (stacks : List ℕ)
    → total (λ (p : Player). p.stack) (fresh_players i stacks) ≡ sum stacks
unfolding fresh_players
total-fresh_players i [] = refl
total-fresh_players i (x ∷ stacks) = omega (arith, total-fresh_players (suc i) stacks)

fresh_players-idx :
    (i k : ℕ) (stacks : List ℕ) (p : Player)
    → get_elem? (fresh_players i stacks) k ≡ some p
    → p.idx ≡ i + k
unfolding fresh_players
fresh_players-idx i k [] p at = cc
fresh_players-idx i zero (x ∷ stacks) p at =
    let same : fresh_player i x ≡ p = cc in sym (ap (λ (q : Player). q.idx) same) ∙ omega arith
fresh_players-idx i (suc k) (x ∷ stacks) p at =
    omega (arith, fresh_players-idx (suc i) k stacks p at)

-- However a hand goes on, its chips are those it was dealt with: after `start_hand` has begun a hand
-- of a new replica with a seat and a positive big blind, and after any steps, be they actions with
-- any verdict, streets, hole cards or the settlement, the total is unchanged. Until the hand is
-- settled, stacks, bets and dead chips add up to it and the betting invariant holds; afterwards
-- the stacks alone do.
pub started-Tracked :
    (hand_no : ℕ) (stacks : List ℕ) (sb bb : ℕ) (structure : Structure) (button : ℕ)
    (bb_seat sb_seat : Option ℕ) (r f : Replica)
    → 0 < length stacks
    → 0 < bb
    → start_replica button bb_seat sb_seat (new_replica hand_no stacks sb bb structure)
      ≡ ok (true, r)
    → Steps r f
    → (f.start_total ≡ sum stacks) × Tracked (sum stacks) f.live
unfolding start_replica new_replica
started-Tracked hand_no stacks sb bb structure button bb_seat sb_seat r f some_seat hb h steps =
    let n = new_replica hand_no stacks sb bb structure in
    let e = seeded button bb_seat sb_seat n.engine in
    let (dummy, h₁, k₁) = >>=-eq-ok dummy_deck _ h in
    let ((dealt, after), h₂, k₂) =
      >>=-eq-ok (engine_result (start_hand none (some dummy) [] e)) _ k₁ in
    let dealing = engine_result-eq-ok (start_hand none (some dummy) [] e) h₂ in
    let pair = ok-injective k₂ in
    let begun : dealt ≡ true = ap (λ (p : Bool × Replica). p.0) pair in
    let same : record n { live = recompute_phase (record n.live { engine = after }) } ≡ r =
      ap (λ (p : Bool × Replica). p.1) pair in
    let (inv, money, deck) =
      start_hand-Inv none (some dummy) [] e after (omega (arith, length-fresh_players 0 stacks)) hb
        (λ k p at. omega (arith, fresh_players-idx 0 k stacks p at))
        (dealing ∙ ap (λ (b : Bool). ok (b, after)) begun) in
    let tracked : Tracked (sum stacks) r.live =
      subst (λ (x : Replica). Tracked (sum stacks) x.live) same
        (recomputed-Tracked (sum stacks) (record n.live { engine = after }) refl inv
          (money ∙ total-fresh_players 0 stacks)) in
    let whole : r.start_total ≡ sum stacks = sym (ap (λ (x : Replica). x.start_total) same) in
    let (kept, tracks) = Steps-Keeps r f steps in
    (
      kept ∙ whole,
      subst (λ m. Tracked m f.live) whole
          (tracks (subst (λ m. Tracked m r.live) (sym whole) tracked)),
    )
