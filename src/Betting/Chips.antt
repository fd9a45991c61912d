-- ===== src/Betting/Chips.antt =====
-- Theorems on the chips that one action moves.
use texas_holdem.Base.{
  ℕ, ◌+◌, ◌-◌, min, ◌≡◌, ◌≢◌, refl, sym, Bool, true, false, some, leb, ◌==◌, get_elem?,
  get_elem?-modify_self, get_elem?-modify_ne, modify, total, total-modify_at, Result, ok, ◌>>◌,
  guard, or_raise, >>=-eq-ok, or_raise-eq-ok, arith, inl, inr, Bool-cases,
}
use texas_holdem.Table.{Player, Engine, can_act, commit, emit}
use texas_holdem.Betting.{
  Legal, legal_for, Action, fold, call, raise, unknown, Amount, Refusal, is_turn, do_fold, do_call,
  do_raise, raise_to, perform, finish, act, check_amount, to_int, clamp_target, is_known,
}

-- The chips that a seat owns or has put in this hand.
abbrev pub chips : Player → ℕ
chips p = p.stack + p.total_live + p.total_dead

abbrev pub bank : Engine → ℕ
bank e = total chips e.players

-- The same player after putting `paid` chips in.
pub record Pays (paid : ℕ) (p q : Player) : Type 0 where
  pub stack : q.stack + paid ≡ p.stack
  pub bet : q.bet ≡ p.bet + paid
  pub live : q.total_live ≡ p.total_live + paid
  pub dead : q.total_dead ≡ p.total_dead
  pub idx : q.idx ≡ p.idx
  pub in_seat : q.in_seat ≡ p.in_seat
  pub hole : q.hole ≡ p.hole
  pub won : q.won ≡ p.won

-- The action of seat `i`, held by `p`, has been performed on `e` and has led to `f`.
pub record Moves (i : ℕ) (p : Player) (e f : Engine) : Type 0 where
  pub mover : Player
  pub paid : ℕ
  pub pays : Pays paid p mover
  pub players : f.players ≡ modify i (λ _. mover) e.players
  pub config : f.config ≡ e.config
  pub positions : f.positions ≡ e.positions
  pub deck : f.deck ≡ e.deck
  pub board : f.board ≡ e.board
  pub street : f.street ≡ e.street

do_fold-Moves : (i : ℕ) (p : Player) (e : Engine) → Moves i p e (do_fold i p e)
unfolding do_fold emit
do_fold-Moves i p e = record {
  mover = record p { folded = true; last_action = _ };
  paid = 0;
  pays = ground arith;
  players = refl;
  config = refl;
  positions = refl;
  deck = refl;
  board = refl;
  street = refl;
}

commit-Pays : (p : Player) (amount : ℕ) → Pays (min amount p.stack) p (commit p amount)
unfolding commit
commit-Pays p amount = ground arith

do_call-Moves : (i : ℕ) (p : Player) (lg : Legal) (e : Engine) → Moves i p e (do_call i p lg e)
unfolding do_call emit
do_call-Moves i p lg e = elim (Bool-cases (lg.to_call == 0)) [
  | inl check ↦
      rw (check, do_call)
        (record {
          mover = record p { last_action = _ };
          paid = 0;
          pays = ground arith;
          players = refl;
          config = refl;
          positions = refl;
          deck = refl;
          board = refl;
          street = refl;
        })
  | inr owing ↦
      rw (owing, do_call)
        (record {
          mover = record (commit p lg.to_call) { last_action = _ };
          paid = min lg.to_call p.stack;
          pays = let c = commit-Pays p lg.to_call in ground arith;
          players = refl;
          config = refl;
          positions = refl;
          deck = refl;
          board = refl;
          street = refl;
        })
]

do_raise-Moves : (i : ℕ) (p : Player) (n : ℕ) (e : Engine) → Moves i p e (do_raise i p n e)
unfolding do_raise emit
do_raise-Moves i p n e = record {
  mover = record (commit p (n - p.bet)) { last_action = _ };
  paid = min (n - p.bet) p.stack;
  pays = let c = commit-Pays p (n - p.bet) in ground arith;
  players = refl;
  config = refl;
  positions = refl;
  deck = refl;
  board = refl;
  street = refl;
}

raise_to-Moves :
    (i : ℕ) (p : Player) (lg : Legal) (n : ℕ) (e : Engine) → Moves i p e (raise_to i p lg n e)
unfolding raise_to
raise_to-Moves i p lg n e = elim (Bool-cases (leb n p.bet)) [
  | inl degenerate ↦ rw (degenerate) (do_call-Moves i p lg e)
  | inr more ↦ rw (more) (do_raise-Moves i p n e)
]

pub guard-eq-ok :
    {E : Type 0} {A : Type 0} (test : Bool) (refusal : E) (next : Result E A) {a : A}
    → (guard test refusal >> next) ≡ ok a
    → (test ≡ true) × (next ≡ ok a)
guard-eq-ok true refusal next h = (refl, h)
guard-eq-ok false refusal next h = cc

-- A raise that goes through was open, and its target is the amount put within the limits.
pub perform-raise_inv :
    (i : ℕ) (p : Player) (lg : Legal) (amount : Amount) (e f : Engine)
    → perform i p lg raise amount e ≡ ok f
    → (lg.can_raise ≡ true)
      × (n : ℕ) × (check_amount e.structure lg amount ≡ ok tt)
      × (to_int amount ≡ ok n)
      × (f ≡ raise_to i p lg (clamp_target lg n) e)
unfolding perform
perform-raise_inv i p lg amount e f h =
    let (may, rest) = guard-eq-ok lg.can_raise Refusal.may_not_raise _ h in
    let (checked, e_checked, later) = >>=-eq-ok (check_amount e.structure lg amount) _ rest in
    let (n, e_n, done) = >>=-eq-ok (to_int amount) _ later in (may, n, e_checked, e_n, cc)

perform-Moves :
    (i : ℕ) (p : Player) (lg : Legal) (a : Action) (amount : Amount) (e f : Engine)
    → perform i p lg a amount e ≡ ok f
    → Moves i p e f
unfolding perform
perform-Moves i p lg fold amount e f h =
    let same : do_fold i p e ≡ f = cc in rw same at (do_fold-Moves i p e)
perform-Moves i p lg call amount e f h =
    let same : do_call i p lg e ≡ f = cc in rw same at (do_call-Moves i p lg e)
perform-Moves i p lg raise amount e f h =
    let (may, n, checked, e_n, same) = perform-raise_inv i p lg amount e f h in
    rw same (raise_to-Moves i p lg (clamp_target lg n) e)
perform-Moves i p lg (unknown word) amount e f h = cc

-- An accepted action: who acted, and the engine before the turn passed on.
pub record Accepted (i : ℕ) (a : Action) (amount : Amount) (e f : Engine) : Type 0 where
  pub player : Player
  pub seat : get_elem? e.players i ≡ some player
  pub turn : is_turn e.actor i ≡ true
  pub able : can_act player ≡ true
  pub after : Engine
  pub performed : perform i player (legal_for e i player) a amount e ≡ ok after
  pub moves : Moves i player e after
  pub finished : f ≡ finish i after

pub act-Accepted :
    (i : ℕ) (a : Action) (amount : Amount) (e f : Engine)
    → act i a amount e ≡ ok f
    → Accepted i a amount e f
unfolding act
act-Accepted i a amount e f h =
    let (known, h₁) = guard-eq-ok (is_known a) Refusal.unknown_action _ h in
    let (p, h₂, h₃) = >>=-eq-ok (or_raise (get_elem? e.players i) Refusal.no_such_seat) _ h₁ in
    let (turn, h₄) = guard-eq-ok (is_turn e.actor i) Refusal.out_of_turn _ h₃ in
    let (able, h₅) = guard-eq-ok (can_act p) Refusal.cannot_act _ h₄ in
    let (after, h₆, h₇) = >>=-eq-ok (perform i p (legal_for e i p) a amount e) _ h₅ in
    record {
      player = p;
      seat = or_raise-eq-ok (get_elem? e.players i) Refusal.no_such_seat h₂;
      turn = turn;
      able = able;
      after = after;
      performed = h₆;
      moves = perform-Moves i p (legal_for e i p) a amount e after h₆;
      finished = cc;
    }

-- No action makes or loses a chip: it moves chips from the stack of the seat that acts into its
-- bet, leaves every other seat as it was, and leaves the deck, the board and the street alone.
pub act-bank :
    (i : ℕ) (a : Action) (amount : Amount) (e f : Engine)
    → act i a amount e ≡ ok f
    → (bank f ≡ bank e)
      × ((k : ℕ) → k ≢ i → get_elem? f.players k ≡ get_elem? e.players k)
      × ((p : Player) × (q : Player) × (paid : ℕ) × (get_elem? e.players i ≡ some p)
          × (get_elem? f.players i ≡ some q)
          × Pays paid p q)
      × (f.deck ≡ e.deck)
      × (f.board ≡ e.board)
      × (f.street ≡ e.street)
unfolding finish
act-bank i a amount e f h =
    let r = act-Accepted i a amount e f h in
    let m = r.moves in
    let same : f.players ≡ modify i (λ _. m.mover) e.players = rw r.finished m.players in
    (
      rw same (
          omega (
            arith,
            total-modify_at chips (λ _. m.mover) i e.players r.player r.seat,
            m.pays.stack,
            m.pays.live,
            m.pays.dead,
          )),
      (λ k ne. rw same (get_elem?-modify_ne i k (λ _. m.mover) e.players (λ d. ne (sym d)))),
      (
        r.player,
        m.mover,
        m.paid,
        r.seat,
        rw same (get_elem?-modify_self i (λ _. m.mover) e.players r.player r.seat),
        m.pays,
      ),
      rw r.finished m.deck,
      rw r.finished m.board,
      rw r.finished m.street,
    )
