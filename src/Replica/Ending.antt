-- ===== src/Replica/Ending.antt =====
-- The settlement of a replica's hand.
use texas_holdem.Base.{
  ℕ, ◌<◌, ◌≤◌, ◌≡◌, refl, ◌∙◌, Bool, true, false, ◌&&◌, not, any, some, List, [], ◌∷◌, length, mem,
  total, map, sum, All, arith, ok, ltb, ◌==◌, Bool-cases, inl, inr,
}
use texas_holdem.Cards.{Card}
use texas_holdem.Table.{Player, contested}
use texas_holdem.Betting.Chips.{chips, bank}
use texas_holdem.Settle.{Outcome}
use texas_holdem.Settle.RunOuts.{to_come}
use texas_holdem.Settle.Whole.{IsOver, Settled, settle-Settled}
use texas_holdem.Replica.{Phase, settled, Live, Replica, is_settled, stacks_of}
use texas_holdem.Replica.Showdown.{can_finish, finish_hand}
use texas_holdem.Replica.Money.{Tracked, playing, paid}

-- Without a stake, all chips are in the stacks.
stacks_of-total :
    (players : List Player)
    → All (λ (p : Player). (p.total_live ≡ 0) × (p.total_dead ≡ 0) × (p.bet ≡ 0)) players
    → sum (map (λ (p : Player). p.stack) players) ≡ total chips players
stacks_of-total [] none = refl
stacks_of-total (p ∷ players) ((live, dead, bet), none) =
    omega (arith, stacks_of-total players none)

-- Every player left has hole cards that are verified.
abbrev pub AllVerified : List ℕ → List Player → Type 0
AllVerified verified = All λ (p : Player). mem p.idx verified ≡ true

none_unverified :
    (verified : List ℕ) (alive : List Player)
    → AllVerified verified alive
    → any (λ (p : Player). not (mem p.idx verified)) alive ≡ false
none_unverified verified [] all = refl
none_unverified verified (p ∷ alive) (first, all) =
    ground (arith, none_unverified verified alive all)

can_finish-unsettled : (phase : Phase) → can_finish phase ≡ true → is_settled phase ≡ false
can_finish-unsettled phase h = ground arith

tracked_money : (n : ℕ) (l : Live) → Tracked n l → is_settled l.phase ≡ false → bank l.engine ≡ n
tracked_money n l (playing unsettled v money) h = money
tracked_money n l (paid over money) h = absurd (ground arith)

-- A hand that can finish does: if the replica has its chips, is at the showdown or has one player
-- left, the hand is over, and for a showdown the board is complete and every player left has
-- verified hole cards, then `finish` raises no error, in particular no error of conservation. The
-- hand is settled with its result, the stacks hold the chips it was dealt with, and the pots went
-- as `Settled` says, with no card of the dummy deck on the board.
pub finish_hand-Settled :
    (force_tabled : Bool) (r : Replica) (cards : List Card)
    → Tracked r.start_total r.live
    → can_finish r.phase ≡ true
    → IsOver r.engine cards
    → (1 < length (contested r.engine.players)
        → (5 ≤ length r.engine.board) × AllVerified r.real_holes (contested r.engine.players))
    → (f : Replica) × (outcome : Outcome) × (finish_hand force_tabled r ≡ ok f)
      × (is_settled f.phase ≡ true)
      × (f.result ≡ some outcome)
      × (sum (stacks_of f.engine) ≡ r.start_total)
      × Settled r.engine (to_come r.engine.board cards) outcome f.engine
unfolding finish_hand
finish_hand-Settled force_tabled r cards tracked can over ready =
    let (outcome, after, done, s) = settle-Settled 1 force_tabled r.engine cards over in
    let money : sum (stacks_of after) ≡ r.start_total =
      stacks_of-total after.players s.no_stakes
      ∙ s.money
      ∙ tracked_money r.start_total r.live tracked (can_finish-unsettled r.phase can) in
    let conserved : (sum (stacks_of after) == r.start_total) ≡ true = ground (arith, money) in
    let alive = contested r.engine.players in
    let complete : (ltb 1 (length alive) && ltb (length r.engine.board) 5) ≡ false =
      elim (Bool-cases (ltb 1 (length alive))) [
        | inl several ↦ ground (arith, (ready (ground arith)).0)
        | inr alone ↦ rw alone refl
      ] in
    let verified : (ltb 1 (length alive)
          && any (λ (p : Player). not (mem p.idx r.real_holes)) alive)
        ≡ false =
      elim (Bool-cases (ltb 1 (length alive))) [
        | inl several ↦
            rw (several, none_unverified r.real_holes alive (ready (ground arith)).1) refl
        | inr alone ↦ rw alone refl
      ] in
    (
      record r { live = record { engine = after; phase = settled }; result = some outcome },
      outcome,
      rw (can, complete, verified, done, conserved) refl,
      refl,
      refl,
      money,
      s,
    )
