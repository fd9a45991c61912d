-- ===== src/Betting/Progress.antt =====
-- Theorems on how long a betting round can last.
use texas_holdem.Base.{
  ℕ, zero, suc, ◌+◌, ◌*◌, ◌≤◌, ◌<◌, ◌≡◌, refl, sym, ap, subst, true, false, Option, none, some,
  List, [], ◌∷◌, leb, ◌==◌, if◌then◌else◌, get_elem?, modify, length, length-modify, total,
  total-modify_at, Result, ok, ◌>>=◌, >>=-eq-ok, arith, ◌⊎◌, inl, inr, Bool-cases, mem, discard,
  mem-discard, lt-get_elem?,
}
use texas_holdem.Table.{Player, Engine, commit, emit}
use texas_holdem.Table.Seats.{TurnOf}
use texas_holdem.Betting.{
  Legal, legal_for, Action, fold, call, raise, unknown, Amount, Refusal, is_turn, do_fold, do_call,
  do_raise, raise_to, perform, finish, act, clamp_target,
}
use texas_holdem.Betting.Bounds.{legal-IsSound}
use texas_holdem.Betting.Chips.{act-Accepted, perform-raise_inv}
use texas_holdem.Betting.Turns.{Inv}
use texas_holdem.Betting.Kept.{act-Inv, clamp_bounds}

abbrev pub stacks : Engine → ℕ
stacks e = total (λ (p : Player). p.stack) e.players

-- How many of the first `n` seats are in a set.
pub waiting : ℕ → List ℕ → ℕ
waiting zero need = 0
waiting (suc n) need = (if mem n need then 1 else 0) + waiting n need

pub waiting-le : (n : ℕ) (need : List ℕ) → waiting n need ≤ n
unfolding waiting
waiting-le zero need = omega arith
waiting-le (suc n) need = ground (arith, waiting-le n need)

waiting-discard_above :
    (n i : ℕ) (need : List ℕ) → n ≤ i → waiting n (discard i need) ≡ waiting n need
unfolding waiting
waiting-discard_above zero i need h = refl
waiting-discard_above (suc n) i need h =
    ground (arith, mem-discard n i need, waiting-discard_above n i need)

waiting-discard :
    (n i : ℕ) (need : List ℕ)
    → i < n
    → mem i need ≡ true
    → waiting n (discard i need) + 1 ≡ waiting n need
unfolding waiting
waiting-discard zero i need h m = absurd (omega arith)
waiting-discard (suc n) i need h m = elim (Bool-cases (n == i)) [
  | inl last ↦
      let same : n ≡ i = ground arith in
      ground
        (arith, mem-discard n i need, waiting-discard_above n i need, ap (λ k. mem k need) same)
  | inr other ↦ ground (arith, mem-discard n i need, waiting-discard n i need)
]

abbrev pub measure : Engine → ℕ
measure e = stacks e * suc (length e.players) + waiting (length e.players) e.need_to_act

-- An action that changes the set of seats to act costs its seat a chip.
abbrev Advances : Engine → Engine → Type 0
Advances e f =
    (length f.players ≡ length e.players)
    × (((f.need_to_act ≡ e.need_to_act) × (stacks f ≤ stacks e)) ⊎ (stacks f < stacks e))

modify-stacks :
    (i : ℕ) (p q : Player) (players : List Player)
    → get_elem? players i ≡ some p
    → q.stack ≤ p.stack
    → total (λ (x : Player). x.stack) (modify i (λ _. q) players)
      ≤ total (λ (x : Player). x.stack) players
modify-stacks i p q players at h =
    omega (arith, total-modify_at (λ (x : Player). x.stack) (λ _. q) i players p at)

modify-stacks-lt :
    (i : ℕ) (p q : Player) (players : List Player)
    → get_elem? players i ≡ some p
    → q.stack < p.stack
    → total (λ (x : Player). x.stack) (modify i (λ _. q) players)
      < total (λ (x : Player). x.stack) players
modify-stacks-lt i p q players at h =
    omega (arith, total-modify_at (λ (x : Player). x.stack) (λ _. q) i players p at)

do_fold-Advances :
    (i : ℕ) (p : Player) (e : Engine) → get_elem? e.players i ≡ some p → Advances e (do_fold i p e)
unfolding do_fold emit
do_fold-Advances i p e at =
    (length-modify i (λ _. _) e.players, inl (refl, modify-stacks i p _ e.players at (omega arith)))

do_call-Advances :
    (i : ℕ) (p : Player) (lg : Legal) (e : Engine)
    → get_elem? e.players i ≡ some p
    → Advances e (do_call i p lg e)
unfolding do_call emit commit
do_call-Advances i p lg e at = elim (Bool-cases (lg.to_call == 0)) [
  | inl check ↦
      rw (check, do_call)
        (
          length-modify i (λ _. _) e.players,
          inl (refl, modify-stacks i p _ e.players at (omega arith)),
        )
  | inr owing ↦
      rw (owing, do_call)
        (
          length-modify i (λ _. _) e.players,
          inl (refl, modify-stacks i p _ e.players at (omega arith)),
        )
]

do_raise-Advances :
    (i n : ℕ) (p : Player) (e : Engine)
    → get_elem? e.players i ≡ some p
    → p.bet < n
    → n ≤ p.bet + p.stack
    → Advances e (do_raise i p n e)
unfolding do_raise emit commit
do_raise-Advances i n p e at more afford =
    (length-modify i (λ _. _) e.players, inr (modify-stacks-lt i p _ e.players at (omega arith)))

raise_to-Advances :
    (i n : ℕ) (p : Player) (lg : Legal) (e : Engine)
    → get_elem? e.players i ≡ some p
    → p.bet < n
    → n ≤ p.bet + p.stack
    → Advances e (raise_to i p lg n e)
unfolding raise_to
raise_to-Advances i n p lg e at more afford =
    let adds : leb n p.bet ≡ false = ground arith in
    rw adds (do_raise-Advances i n p e at more afford)

perform-Advances :
    (i : ℕ) (p : Player) (a : Action) (amount : Amount) (e f : Engine)
    → get_elem? e.players i ≡ some p
    → Inv e
    → perform i p (legal_for e i p) a amount e ≡ ok f
    → Advances e f
unfolding perform
perform-Advances i p fold amount e f at v h =
    let same : do_fold i p e ≡ f = cc in subst (Advances e) same (do_fold-Advances i p e at)
perform-Advances i p call amount e f at v h =
    let same : do_call i p (legal_for e i p) e ≡ f = cc in
    subst (Advances e) same (do_call-Advances i p (legal_for e i p) e at)
perform-Advances i p raise amount e f at v h =
    let lg = legal_for e i p in
    let (may, m, checked, whole_n, done) = perform-raise_inv i p lg amount e f h in
    let sound = legal-IsSound e i p v.blinds v.opened.least in
    let (low, high) = clamp_bounds lg m sound.ordered in
    let above = sound.raises may in
    let covered = v.opened.covered i p at in
    subst (Advances e) (sym done) (
      raise_to-Advances i (clamp_target lg m) p lg e at (omega arith)
        (omega (arith, sound.affordable)))
perform-Advances i p (unknown word) amount e f at v h = cc

fewer_seats : (s s' w w' n : ℕ) → s' ≤ s → w' + 1 ≡ w → s' * suc n + w' < s * suc n + w
fewer_seats s s' w w' n h e = grind arith

fewer_chips : (s s' w w' n : ℕ) → s' < s → w' ≤ n → s' * suc n + w' < s * suc n + w
fewer_chips s s' w w' n h le = let once : suc s' * suc n ≤ s * suc n = grind arith in omega arith

finish-measure :
    (i : ℕ) (e f : Engine)
    → i < length e.players
    → mem i e.need_to_act ≡ true
    → Advances e f
    → measure (finish i f) < measure e
unfolding finish
finish-measure i e f inside waits (same, inl (need, less)) =
    rw (same, need)
      (fewer_seats (stacks e) (stacks f) _ _ (length e.players) less
        (waiting-discard (length e.players) i e.need_to_act inside waits))
finish-measure i e f inside waits (same, inr less) = rw same (
    fewer_chips (stacks e) (stacks f) _ _ (length e.players) less
      (waiting-le (length e.players) (discard i f.need_to_act)))

turn_waits :
    (n i : ℕ) (need : List ℕ) (actor : Option ℕ)
    → TurnOf n need actor
    → is_turn actor i ≡ true
    → mem i need ≡ true
turn_waits n i need none t h = cc
turn_waits n i need (some j) t h = let same : i ≡ j = ground arith in rw same t.1

-- Each accepted action lowers the measure: the chips behind, weighted by the seats, and the number
-- of seats that are still to act.
pub act-measure :
    (i : ℕ) (a : Action) (amount : Amount) (e f : Engine)
    → Inv e
    → act i a amount e ≡ ok f
    → measure f < measure e
act-measure i a amount e f v h =
    let r = act-Accepted i a amount e f h in
    let waits = turn_waits (length e.players) i e.need_to_act e.actor v.turn r.turn in
    subst (λ g. measure g < measure e) (sym r.finished)
      (finish-measure i e r.after (lt-get_elem? e.players i r.seat) waits
        (perform-Advances i r.player a amount e r.after r.seat v r.performed))

-- A sequence of actions, each accepted by `act`.
unfoldable pub play : List (ℕ × Action × Amount) → Engine → Result Refusal Engine
play [] e = ok e
play ((i, a, amount) ∷ moves) e = act i a amount e >>= play moves

pub play-Inv :
    (moves : List (ℕ × Action × Amount)) (e f : Engine) → Inv e → play moves e ≡ ok f → Inv f
unfolding play
play-Inv [] e f v h = let same : e ≡ f = cc in subst Inv same v
play-Inv ((i, a, amount) ∷ moves) e f v h =
    let (g, acted, rest) = >>=-eq-ok (act i a amount e) (play moves) h in
    play-Inv moves g f (act-Inv i a amount e g v acted) rest

-- No betting round goes on for ever: from a round in the invariant, at most `measure` actions are
-- accepted in a row, whatever the seats do.
pub play-ends :
    (moves : List (ℕ × Action × Amount)) (e f : Engine)
    → Inv e
    → play moves e ≡ ok f
    → length moves + measure f ≤ measure e
unfolding play
play-ends [] e f v h = let same : e ≡ f = cc in rw same (omega arith)
play-ends ((i, a, amount) ∷ moves) e f v h =
    let (g, acted, rest) = >>=-eq-ok (act i a amount e) (play moves) h in
    omega (
      arith,
      act-measure i a amount e g v acted,
      play-ends moves g f (act-Inv i a amount e g v acted) rest,
    )
