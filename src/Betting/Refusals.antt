-- ===== src/Betting/Refusals.antt =====
-- Theorems on which actions `act` accepts.
use texas_holdem.Base.{
  ℕ, ◌≤◌, ◌≡◌, ◌↔◌, refl, ◌∙◌, Bool, true, false, some, get_elem?, Result, ok, ◌>>◌, guard, arith,
  ◌⊎◌, inl, inr,
}
use texas_holdem.Table.{Player, Engine, Structure, no_limit, pot_limit, fixed_limit, can_act}
use texas_holdem.Betting.{
  Legal, legal_for, Action, fold, call, raise, Amount, whole, is_turn, perform, finish, act,
  Refusal, check_amount, is_known, do_fold, do_call, raise_to, clamp_target,
}
use texas_holdem.Betting.Chips.{act-Accepted, perform-raise_inv}

-- Seat `i` is at the table, it is its turn, and it can act.
abbrev pub MayAct : Engine → ℕ → Player → Type 0
MayAct e i p = (get_elem? e.players i ≡ some p) × (is_turn e.actor i ≡ true) × (can_act p ≡ true)

abbrev pub IsSize : Structure → Legal → ℕ → Type 0
IsSize fixed_limit lg n = Unit
IsSize _ lg n = (lg.min_to ≤ n) × (n ≤ lg.max_to)

check_amount-IsSize :
    (s : Structure) (lg : Legal) (n : ℕ) → check_amount s lg (whole n) ≡ ok tt → IsSize s lg n
check_amount-IsSize fixed_limit lg n h = tt
check_amount-IsSize no_limit lg n h = ground arith
check_amount-IsSize pot_limit lg n h = ground arith

IsSize-check_amount :
    (s : Structure) (lg : Legal) (n : ℕ) → IsSize s lg n → check_amount s lg (whole n) ≡ ok tt
IsSize-check_amount fixed_limit lg n h = refl
IsSize-check_amount no_limit lg n h = ground arith
IsSize-check_amount pot_limit lg n h = ground arith

act-accepts :
    (i : ℕ) (a : Action) (amount : Amount) (e after : Engine) (p : Player)
    → is_known a ≡ true
    → MayAct e i p
    → perform i p (legal_for e i p) a amount e ≡ ok after
    → act i a amount e ≡ ok (finish i after)
unfolding act
act-accepts i a amount e after p known (seat, turn, able) done = rw (known, seat, turn, able, done)

guard_pass :
    {E : Type 0} {A : Type 0} (test : Bool) (refusal : E) (next : Result E A)
    → test ≡ true
    → (guard test refusal >> next) ≡ next
guard_pass true refusal next h = refl
guard_pass false refusal next h = cc

perform_raise :
    (i n : ℕ) (p : Player) (lg : Legal) (e : Engine)
    → lg.can_raise ≡ true
    → IsSize e.structure lg n
    → perform i p lg raise (whole n) e ≡ ok (raise_to i p lg (clamp_target lg n) e)
unfolding perform
perform_raise i n p lg e may size =
    guard_pass lg.can_raise Refusal.may_not_raise _ may
    ∙ rw (IsSize-check_amount e.structure lg n size)

passive_inv :
    (i : ℕ) (a : Action) (amount : Amount) (e f : Engine)
    → act i a amount e ≡ ok f
    → (p : Player) × MayAct e i p
passive_inv i a amount e f h =
    let r = act-Accepted i a amount e f h in (r.player, (r.seat, r.turn, r.able))

-- A fold and a call are accepted exactly from the seat whose turn it is, if it can act.
pub act-passive_iff :
    (i : ℕ) (a : Action) (amount : Amount) (e : Engine)
    → (a ≡ fold) ⊎ (a ≡ call)
    → ((f : Engine) × (act i a amount e ≡ ok f)) ↔ ((p : Player) × MayAct e i p)
unfolding perform
act-passive_iff i a amount e (inl is_fold) = (
  (λ (f, h). passive_inv i a amount e f h),
  (λ (p, may). (
    finish i (do_fold i p e),
    rw is_fold (act-accepts i fold amount e (do_fold i p e) p refl may refl),
  )),
)
act-passive_iff i a amount e (inr is_call) = (
  (λ (f, h). passive_inv i a amount e f h),
  (λ (p, may).
      let after = do_call i p (legal_for e i p) e in
      (finish i after, rw is_call (act-accepts i call amount e after p refl may refl))),
)

-- A raise to the whole number `n` is accepted exactly from the seat whose turn it is, if it can act,
-- if `legal` says that it can raise, and if, outside fixed limit, `n` is within the limits that
-- `legal` gives: nothing that was offered is refused, and nothing else is let through.
pub act-raise_iff :
    (i n : ℕ) (e : Engine)
    → ((f : Engine) × (act i raise (whole n) e ≡ ok f)) ↔ (
        (p : Player) × MayAct e i p
        × ((legal_for e i p).can_raise ≡ true)
        × IsSize e.structure (legal_for e i p) n)
unfolding perform
act-raise_iff i n e = (
  (λ (f, h).
      let r = act-Accepted i raise (whole n) e f h in
      let lg = legal_for e i r.player in
      let (may, m, checked, same, done) =
        perform-raise_inv i r.player lg (whole n) e r.after r.performed in
      (r.player, (r.seat, r.turn, r.able), may, check_amount-IsSize e.structure lg n checked)),
  (λ (p, (seat, turn, able), may, size).
      let after = raise_to i p (legal_for e i p) (clamp_target (legal_for e i p) n) e in
      (
        finish i after,
        act-accepts i raise (whole n) e after p refl (seat, turn, able)
            (perform_raise i n p (legal_for e i p) e may size),
      )),
)
