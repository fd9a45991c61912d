-- ===== src/Betting/Kept.antt =====
-- Theorems on `act` and the invariant of a round, and on a closed round.
use texas_holdem.Base.{
  ℕ, ◌+◌, ◌-◌, ◌≤◌, ◌<◌, min, ◌≡◌, refl, sym, subst, true, false, some, leb, ◌==◌, get_elem?,
  length-modify, ok, arith, inl, inr, Bool-cases, lt-get_elem?,
}
use texas_holdem.Table.{Player, Engine, commit, emit, LastAction}
use texas_holdem.Betting.{
  Legal, legal_for, Action, fold, call, raise, unknown, Amount, do_fold, do_call, do_raise,
  raise_to, perform, act, clamp_target,
}
use texas_holdem.Betting.Bounds.{legal-IsSound}
use texas_holdem.Betting.Chips.{act-Accepted, perform-raise_inv}
use texas_holdem.Betting.Turns.{
  Open, Inv, Moving, finish-Inv, Passes, finish-Passes, passive-Moving, raised-Moving,
}

do_fold-Moving :
    (i : ℕ) (p : Player) (e : Engine)
    → get_elem? e.players i ≡ some p
    → Open e.players e.round
    → Moving i e.need_to_act (do_fold i p e).players (do_fold i p e).round
unfolding do_fold emit
do_fold-Moving i p e seat o =
    passive-Moving i p (record p { folded = true; last_action = LastAction.folded }) e.players
      e.round seat o refl (o.covered i p seat) (λ able. ground arith)

do_call-Moving :
    (i : ℕ) (p : Player) (lg : Legal) (e : Engine)
    → get_elem? e.players i ≡ some p
    → lg.to_call ≡ min (e.current_bet - p.bet) p.stack
    → Open e.players e.round
    → Moving i e.need_to_act (do_call i p lg e).players (do_call i p lg e).round
unfolding do_call emit commit
do_call-Moving i p lg e seat owed o = elim (Bool-cases (lg.to_call == 0)) [
  | inl check ↦
      rw (check, do_call)
        (passive-Moving i p (record p { last_action = LastAction.checked }) e.players e.round seat o
          refl (o.covered i p seat) (λ able. ground arith))
  | inr owing ↦
      rw (owing, do_call)
        (passive-Moving i p (record (commit p lg.to_call) { last_action = _ }) e.players e.round
          seat o refl (let low = o.covered i p seat in omega arith) (λ able. ground arith))
]

do_raise-Moving :
    (i n : ℕ) (p : Player) (e : Engine)
    → get_elem? e.players i ≡ some p
    → e.current_bet < n
    → n ≤ p.bet + p.stack
    → Open e.players e.round
    → Moving i e.need_to_act (do_raise i p n e).players (do_raise i p n e).round
unfolding do_raise emit commit
do_raise-Moving i n p e seat raises afford o =
    let low = o.covered i p seat in
    raised-Moving i p (record (commit p (n - p.bet)) { last_action = _ }) e.players e.round seat o
      refl e.street (omega arith)

raise_to-Moving :
    (i n : ℕ) (p : Player) (lg : Legal) (e : Engine)
    → get_elem? e.players i ≡ some p
    → e.current_bet < n
    → n ≤ p.bet + p.stack
    → Open e.players e.round
    → Moving i e.need_to_act (raise_to i p lg n e).players (raise_to i p lg n e).round
unfolding raise_to
raise_to-Moving i n p lg e seat raises afford o =
    let low = o.covered i p seat in
    let adds : leb n p.bet ≡ false = ground arith in
    rw adds (do_raise-Moving i n p e seat raises afford o)

pub clamp_bounds :
    (lg : Legal) (n : ℕ)
    → lg.min_to ≤ lg.max_to
    → (lg.min_to ≤ clamp_target lg n) × (clamp_target lg n ≤ lg.max_to)
clamp_bounds lg n h = ground arith

legal-to_call :
    (e : Engine) (i : ℕ) (p : Player)
    → (legal_for e i p).to_call ≡ min (e.current_bet - p.bet) p.stack
unfolding legal_for
legal-to_call e i p = refl

perform-Moving :
    (i : ℕ) (p : Player) (a : Action) (amount : Amount) (e f : Engine)
    → get_elem? e.players i ≡ some p
    → Inv e
    → perform i p (legal_for e i p) a amount e ≡ ok f
    → Moving i e.need_to_act f.players f.round
unfolding perform
perform-Moving i p fold amount e f seat v h =
    let same : do_fold i p e ≡ f = cc in
    subst (λ g. Moving i e.need_to_act g.players g.round) same (do_fold-Moving i p e seat v.opened)
perform-Moving i p call amount e f seat v h =
    let same : do_call i p (legal_for e i p) e ≡ f = cc in
    subst (λ g. Moving i e.need_to_act g.players g.round) same
      (do_call-Moving i p (legal_for e i p) e seat (legal-to_call e i p) v.opened)
perform-Moving i p raise amount e f seat v h =
    let lg = legal_for e i p in
    let (may, m, checked, whole_n, done) = perform-raise_inv i p lg amount e f h in
    let sound = legal-IsSound e i p v.blinds v.opened.least in
    let (low, high) = clamp_bounds lg m sound.ordered in
    let above = sound.raises may in
    subst (λ g. Moving i e.need_to_act g.players g.round) (sym done)
      (raise_to-Moving i (clamp_target lg m) p lg e seat (omega arith)
        (omega (arith, sound.affordable)) v.opened)
perform-Moving i p (unknown word) amount e f seat v h = cc

-- Every accepted action keeps the invariant of the round: bets stay under the current bet, only seats
-- that can act are still to act, no seat that owes chips and can act is passed over, and the turn is
-- at the first seat after the one that has moved that is still to act, or at none if there is none. The seat that has moved is no
-- longer to act; of the other seats, exactly those are that were before the action, or that can act
-- and owe chips after it, so that a seat with its option keeps it.
pub act-Passes :
    (i : ℕ) (a : Action) (amount : Amount) (e f : Engine)
    → Inv e
    → act i a amount e ≡ ok f
    → Passes i e f
act-Passes i a amount e f v h =
    let r = act-Accepted i a amount e f h in
    let moving = perform-Moving i r.player a amount e r.after r.seat v r.performed in
    let there = lt-get_elem? e.players i r.seat in
    let same_length = length-modify i (λ _. r.moves.mover) e.players in
    let blinds = v.blinds in
    subst (Passes i e) (sym r.finished) (
      finish-Passes i e r.after moving (
        finish-Inv i e.need_to_act r.after (rw r.moves.players (omega arith))
          (rw r.moves.config blinds) moving))

pub act-Inv :
    (i : ℕ) (a : Action) (amount : Amount) (e f : Engine) → Inv e → act i a amount e ≡ ok f → Inv f
act-Inv i a amount e f v h = (act-Passes i a amount e f v h).inv
