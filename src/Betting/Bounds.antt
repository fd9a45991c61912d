-- ===== src/Betting/Bounds.antt =====
-- Theorems on the limits that `legal` reports, and on a raise within them.
use texas_holdem.Base.{
  ℕ, ◌+◌, ◌≤◌, ◌<◌, min, ◌≡◌, ◌≢◌, refl, ◌∙◌, ap, true, false, some, leb, get_elem?,
  get_elem?-modify_self, ok, arith, ◌⊎◌,
}
use texas_holdem.Table.{Player, Engine, Structure, no_limit, pot_limit, fixed_limit, commit, emit}
use texas_holdem.Betting.{
  Legal, legal_for, raise_range, raise, whole, do_raise, raise_to, finish, act, check_amount,
  clamp_target, raised_round,
}
use texas_holdem.Betting.Chips.{act-Accepted, perform-raise_inv}

-- What a seat may count on: it can always pay the call, the limits are in order and within its
-- stack, and a raise that is open goes above the current bet.
pub record IsSound (e : Engine) (p : Player) (lg : Legal) : Type 0 where
  pub call_paid : lg.to_call ≤ p.stack
  pub ordered : lg.min_to ≤ lg.max_to
  pub affordable : lg.max_to ≤ p.bet + p.stack
  pub raises : lg.can_raise ≡ true → e.current_bet < lg.min_to
  pub checks : lg.can_check ≡ true → (e.current_bet ≤ p.bet) ⊎ (p.stack ≡ 0)

range_high : (s : Structure) (e : Engine) (p : Player) → (raise_range s e p).high ≤ p.bet + p.stack
unfolding raise_range
range_high no_limit e p = omega arith
range_high pot_limit e p = omega arith
range_high fixed_limit e p = omega arith

range_low :
    (s : Structure) (e : Engine) (p : Player)
    → 0 < e.bb
    → 0 < e.min_raise
    → e.current_bet < (raise_range s e p).high
    → e.current_bet < min (raise_range s e p).low (raise_range s e p).high
unfolding raise_range
range_low no_limit e p hb hm h = ground arith
range_low pot_limit e p hb hm h = ground arith
range_low fixed_limit e p hb hm h = ground arith

-- In every structure, with a positive big blind and minimum raise, what `legal` offers a seat is
-- sound: a raise that is open has targets between `min_to` and `max_to`, all above the current bet
-- and none above the chips of the seat.
pub legal-IsSound :
    (e : Engine) (i : ℕ) (p : Player) → 0 < e.bb → 0 < e.min_raise → IsSound e p (legal_for e i p)
unfolding legal_for
legal-IsSound e i p hb hm =
    let high = range_high e.structure e p in
    record {
      call_paid = omega arith;
      ordered = omega arith;
      affordable = high;
      raises = λ may. range_low e.structure e p hb hm (ground arith);
      checks = λ free. ground arith;
    }

abbrev IsOpenSize : Structure → Type 0
IsOpenSize fixed_limit = ⊥
IsOpenSize _ = Unit

size_checked :
    (s : Structure) (lg : Legal) (n : ℕ)
    → s ≢ fixed_limit
    → check_amount s lg (whole n) ≡ ok tt
    → (lg.min_to ≤ n) × (n ≤ lg.max_to)
size_checked no_limit lg n ne h = ground arith
size_checked pot_limit lg n ne h = ground arith
size_checked fixed_limit lg n ne h = absurd (ne refl)

-- A raise to an affordable target above the current bet makes it the bet of the seat and the
-- current bet.
do_raise_exact :
    (i n : ℕ) (p : Player) (e : Engine)
    → get_elem? e.players i ≡ some p
    → p.bet < n
    → e.current_bet < n
    → n ≤ p.bet + p.stack
    → let f = do_raise i p n e in
      ((q : Player) × (get_elem? f.players i ≡ some q) × (q.bet ≡ n)) × (f.current_bet ≡ n)
unfolding do_raise emit commit raised_round
do_raise_exact i n p e seat more raises afford =
    ((_, get_elem?-modify_self i (λ _. _) e.players p seat, omega arith), ground arith)

clamp_within : (lg : Legal) (n : ℕ) → lg.min_to ≤ n → n ≤ lg.max_to → clamp_target lg n ≡ n
clamp_within lg n low high = ground arith

raise_to_exact :
    (i n : ℕ) (p : Player) (lg : Legal) (e : Engine)
    → get_elem? e.players i ≡ some p
    → p.bet < n
    → e.current_bet < n
    → n ≤ p.bet + p.stack
    → let f = raise_to i p lg n e in
      ((q : Player) × (get_elem? f.players i ≡ some q) × (q.bet ≡ n)) × (f.current_bet ≡ n)
unfolding raise_to
raise_to_exact i n p lg e seat more raises afford =
    let adds : leb n p.bet ≡ false = ground arith in
    rw adds (do_raise_exact i n p e seat more raises afford)

-- A raise to `n` is accepted exactly as it was named: outside fixed limit, `n` lies within the limits
-- and above the current bet, the seat's bet becomes `n`, and `n` is the new current bet.
pub act-raise_exact :
    (i n : ℕ) (e f : Engine) (p : Player)
    → 0 < e.bb
    → 0 < e.min_raise
    → e.structure ≢ fixed_limit
    → get_elem? e.players i ≡ some p
    → p.bet ≤ e.current_bet
    → act i raise (whole n) e ≡ ok f
    → ((legal_for e i p).min_to ≤ n)
      × (n ≤ (legal_for e i p).max_to)
      × (e.current_bet < n)
      × ((q : Player) × (get_elem? f.players i ≡ some q) × (q.bet ≡ n))
      × (f.current_bet ≡ n)
unfolding finish
act-raise_exact i n e f p hb hm open_size seat low h =
    let r = act-Accepted i raise (whole n) e f h in
    let first = r.seat in
    let same_player : r.player ≡ p = cc in
    let lg = legal_for e i p in
    let (may, m, checked, whole_n, done) =
      perform-raise_inv i p lg (whole n) e r.after (rw same_player at r.performed) in
    let (least, most) = size_checked e.structure lg n open_size checked in
    let sound = legal-IsSound e i p hb hm in
    let above : e.current_bet < n = omega (arith, sound.raises may) in
    let target : clamp_target lg m ≡ n =
      let same : n ≡ m = cc in rw (← same) (clamp_within lg n least most) in
    let after : r.after ≡ raise_to i p lg n e = done ∙ ap (λ t. raise_to i p lg t e) target in
    let exact =
      raise_to_exact i n p lg e seat (omega arith) above (omega (arith, sound.affordable)) in
    (least, most, above, rw (r.finished, after) exact.0, rw (r.finished, after) exact.1)
