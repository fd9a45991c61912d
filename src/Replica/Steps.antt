-- ===== src/Replica/Steps.antt =====
-- What a replica can do in one hand, as steps.
use texas_holdem.Base.{
  ℕ, ◌&&◌, ◌≡◌, refl, Bool, true, false, Option, none, some, List, arith, Bool-cases, inl, inr,
  Result, ok, err,
}
use texas_holdem.Cards.{Card}
use texas_holdem.Table.{Engine}
use texas_holdem.Betting.{Refusal, act}
use texas_holdem.Replica.{Phase, Entry, Live, Replica, recompute_phase, is_settled, set_own_hole}
use texas_holdem.Replica.Actions.{
  Verdict, applied, buffered, stale, rejected, overflow, crashed, is_betting, is_actor, is_action,
  may_go_on, to_amount, act_now, apply_now, apply_action,
}
use texas_holdem.Replica.Showdown.{advance_street, set_all_holes, finish_hand}

-- One step of a hand: an action that arrives, whatever its verdict, and each call that returns.
pub data Step (r : Replica) : Replica → Type 0 where
  arrives : (seq : ℕ) (x : Entry) → Step r (apply_action seq x r).1
  deals : (cards : List (Option Card)) {f : Replica} → advance_street cards r ≡ ok f → Step r f
  recovers :
      (seat : ℕ) (cards : List (Option Card)) {f : Replica}
      → set_own_hole seat cards r ≡ ok f
      → Step r f
  reveals :
      (holes : List (ℕ × List (Option Card))) {f : Replica}
      → set_all_holes holes r ≡ ok f
      → Step r f
  settles : (force_tabled : Bool) {f : Replica} → finish_hand force_tabled r ≡ ok f → Step r f

pub data Steps (r : Replica) : Replica → Type 0 where
  none_yet : Steps r r
  then : {f g : Replica} → Steps r f → Step f g → Steps r g

-- `_apply_now` leaves the state, or is an accepted action of a hand in its betting.
pub data Applies (x : Entry) (l : Live) : Verdict × Live → Type 0 where
  refused : Applies x l (rejected, l)
  broke : Applies x l (crashed, l)
  acted :
      (after : Engine)
      → is_settled l.phase ≡ false
      → act x.seat x.action (to_amount x.amount) l.engine ≡ ok after
      → Applies x l (applied, recompute_phase (record l { engine = after }))

act_now-Applies : (x : Entry) (l : Live) → is_settled l.phase ≡ false → Applies x l (act_now x l)
unfolding act_now
act_now-Applies x l going = go (act x.seat x.action (to_amount x.amount) l.engine) refl
  where
    go :
        (done : Result Refusal Engine)
        → act x.seat x.action (to_amount x.amount) l.engine ≡ done
        → Applies x l (act_now x l)
    go (err refusal) is = rw (is, act_now) refused
    go (ok after) is = rw (is, act_now) (acted after going is)

betting-unsettled : (phase : Phase) → is_betting phase ≡ true → is_settled phase ≡ false
betting-unsettled phase h = ground arith

pub apply_now-Applies : (x : Entry) (l : Live) → Applies x l (apply_now x l)
unfolding apply_now
apply_now-Applies x l =
    elim (Bool-cases (is_betting l.phase && is_actor l.engine.actor x.seat && is_action x.action)) [
      | inl turn ↦
          rw turn (
            go (may_go_on x.action l.engine x.seat) refl (betting-unsettled l.phase (ground arith)))
      | inr not_now ↦ rw not_now refused
    ]
  where
    go :
        (may : Option Bool)
        → may_go_on x.action l.engine x.seat ≡ may
        → is_settled l.phase ≡ false
        → Applies x l (elim (may_go_on x.action l.engine x.seat) as (λ _. Verdict × Live) [
          | none ↦ (crashed, l)
          | some false ↦ (rejected, l)
          | some true ↦ act_now x l
        ])
    go none is going = rw is broke
    go (some false) is going = rw is refused
    go (some true) is going = rw is (act_now-Applies x l going)

-- What the code does with a verdict: one thing if the action is applied, another if it is not.
pub by_verdict :
    {A : Type 0} (P : A → Type 0) (v : Verdict) (f : A) (g : Verdict → A)
    → P f
    → ((other : Verdict) → P (g other))
    → P (elim v as (λ _. A) [ applied ↦ f | other ↦ g other ])
by_verdict P applied f g first second = first
by_verdict P buffered f g first second = second buffered
by_verdict P stale f g first second = second stale
by_verdict P rejected f g first second = second rejected
by_verdict P overflow f g first second = second overflow
by_verdict P crashed f g first second = second crashed
