-- ===== src/Betting/Turns.antt =====
-- The invariant of a betting round, and lemmas on the steps of `act`.
use texas_holdem.Base.{
  ℕ, zero, suc, ◌+◌, ◌%◌, ◌≤◌, ◌<◌, ◌≡◌, ◌≢◌, refl, sym, ◌∙◌, Bool, true, false, some, subst, ◌↔◌,
  ==_refl, List, [], ◌∷◌, leb, ◌==◌, get_elem?, get_elem?-modify_ne, modify, length, arith, ◌⊎◌,
  inl, inr, Bool-cases, mem, discard, mem-discard, mem-append, next-lt, lt→ltb,
}
use texas_holdem.Table.{Player, Engine, Round, Street, can_act, idx_where}
use texas_holdem.Table.Seats.{
  TurnOf, FirstFrom, seek-FirstFrom, Seated, seek-TurnOf, mem-idx_where, idx_where-mem,
}
use texas_holdem.Betting.{finish, raised_round, is_behind}

-- A round while bets are made: no bet is above the current bet, the seats that are still to act can
-- act, and every seat that can act but has not matched the current bet is still to act.
pub record Open (players : List Player) (r : Round) : Type 0 where
  pub seated : Seated players
  pub covered : (k : ℕ) (p : Player) → get_elem? players k ≡ some p → p.bet ≤ r.current_bet
  pub movers :
      (k : ℕ)
      → mem k r.need_to_act ≡ true
      → (p : Player) × (get_elem? players k ≡ some p) × (can_act p ≡ true)
  pub pending :
      (k : ℕ) (p : Player)
      → get_elem? players k ≡ some p
      → can_act p ≡ true
      → p.bet < r.current_bet
      → mem k r.need_to_act ≡ true
  pub least : 0 < r.min_raise

pub record Inv (e : Engine) : Type 0 where
  pub blinds : 0 < e.bb
  pub opened : Open e.players e.round
  pub turn : TurnOf (length e.players) e.need_to_act e.actor

-- The table after seat `i` has moved, when the seats `need` were to act, with every seat but `i` as
-- `Open` says.
pub record Moving (i : ℕ) (need : List ℕ) (players : List Player) (r : Round) : Type 0 where
  pub seated : Seated players
  pub covered : (k : ℕ) (p : Player) → get_elem? players k ≡ some p → p.bet ≤ r.current_bet
  pub movers :
      (k : ℕ)
      → k ≢ i
      → mem k r.need_to_act ≡ true
      → (p : Player) × (get_elem? players k ≡ some p) × (can_act p ≡ true)
  pub pending :
      (k : ℕ) (p : Player)
      → k ≢ i
      → get_elem? players k ≡ some p
      → can_act p ≡ true
      → p.bet < r.current_bet
      → mem k r.need_to_act ≡ true
  -- The seat that has moved owes nothing more.
  pub settled :
      (p : Player) → get_elem? players i ≡ some p → can_act p ≡ true → r.current_bet ≤ p.bet
  pub least : 0 < r.min_raise
  -- Of the other seats, those that were to act still are, and only seats that owe chips join them.
  pub kept : (k : ℕ) → k ≢ i → mem k need ≡ true → mem k r.need_to_act ≡ true
  pub joined :
      (k : ℕ) (p : Player)
      → k ≢ i
      → get_elem? players k ≡ some p
      → mem k r.need_to_act ≡ true
      → (mem k need ≡ true) ⊎ (p.bet < r.current_bet)

-- A seat of the table after one seat has been replaced.
modify_cases :
    (i k : ℕ) (q p : Player) (players : List Player)
    → get_elem? (modify i (λ _. q) players) k ≡ some p
    → ((k ≡ i) × (p ≡ q)) ⊎ ((k ≢ i) × (get_elem? players k ≡ some p))
modify_cases i k q p [] h = absurd (none_some h)
  where
    none_some : get_elem? (modify i (λ _. q) []) k ≡ some p → ⊥
    none_some e = cc
modify_cases zero zero q p (x ∷ players) h = inl (refl, cc)
modify_cases zero (suc k) q p (x ∷ players) h = inr (omega arith, h)
modify_cases (suc i) zero q p (x ∷ players) h = inr (omega arith, h)
modify_cases (suc i) (suc k) q p (x ∷ players) h = elim (modify_cases i k q p players h) [
  | inl (same, e) ↦ inl (omega arith, e)
  | inr (apart, e) ↦ inr ((λ d. apart (omega arith)), e)
]

pub finish-Inv :
    (i : ℕ) (need : List ℕ) (e : Engine)
    → 0 < length e.players
    → 0 < e.bb
    → Moving i need e.players e.round
    → Inv (finish i e)
unfolding finish
finish-Inv i need e some_seat hb m = record {
  blinds = hb;
  opened = record {
    seated = m.seated;
    covered = m.covered;
    movers = λ k h.
        m.movers k (λ same. ground (arith, mem-discard k i e.need_to_act))
          (ground (arith, mem-discard k i e.need_to_act));
    pending = λ k p at able less. elim (Bool-cases (k == i)) [
      | inl same ↦
          let here : k ≡ i = ground arith in
          absurd (omega (arith, m.settled p (rw here at at) able))
      | inr apart ↦
          ground (arith, mem-discard k i e.need_to_act, m.pending k p (ground arith) at able less)
    ];
    least = m.least;
  };
  turn =
      seek-TurnOf e.players (discard i e.need_to_act) ((i + 1) % length e.players)
        (next-lt (length e.players) i some_seat);
}

-- What a move of seat `i` does to the seats that are to act: `i` is none of them, and of the others
-- exactly those are that were, or that can act and owe chips. The turn is at the first of them after
-- `i`.
pub record Passes (i : ℕ) (e f : Engine) : Type 0 where
  pub inv : Inv f
  pub done : mem i f.need_to_act ≡ false
  pub others :
      (k : ℕ) (p : Player)
      → k ≢ i
      → get_elem? f.players k ≡ some p
      → (mem k f.need_to_act ≡ true)
        ↔ ((mem k e.need_to_act ≡ true) ⊎ ((can_act p ≡ true) × (p.bet < f.current_bet)))
  pub first :
      FirstFrom (length f.players) (λ j. mem j f.need_to_act) ((i + 1) % length f.players) 0 f.actor

pub finish-Passes :
    (i : ℕ) (e after : Engine)
    → Moving i e.need_to_act after.players after.round
    → Inv (finish i after)
    → Passes i e (finish i after)
unfolding finish
finish-Passes i e after m v = record {
  inv = v;
  done = ground (arith, ==_refl i, mem-discard i i after.need_to_act);
  others = λ k p apart at. (
    λ h.
        let there : mem k after.need_to_act ≡ true =
          ground (arith, mem-discard k i after.need_to_act) in
        elim (m.joined k p apart at there) [
          | inl before ↦ inl before
          | inr owes ↦
              let (x, x_at, able) = m.movers k apart there in
              let same : x ≡ p = cc in
              inr (subst (λ (y : Player). can_act y ≡ true) same able, owes)
        ],
    λ h. elim h [
      | inl before ↦ ground (arith, mem-discard k i after.need_to_act, m.kept k apart before)
      | inr (able, owes) ↦
          ground (arith, mem-discard k i after.need_to_act, m.pending k p apart at able owes)
    ],
  );
  first =
      seek-FirstFrom after.players (discard i after.need_to_act) ((i + 1) % length after.players);
}

module _ (i : ℕ) (p q : Player) (players : List Player) (r : Round)
    (seat : get_elem? players i ≡ some p) (o : Open players r) (idx : q.idx ≡ p.idx) where
  abbrev pub after : List Player
  after = modify i (λ _. q) players

  after-Seated : Seated after
  after-Seated k x at = elim (modify_cases i k q x players at) [
    | inl (same, e) ↦ rw (e, same, idx) (o.seated i p seat)
    | inr (apart, e) ↦ o.seated k x e
  ]

  after-movers :
      (k : ℕ)
      → k ≢ i
      → mem k r.need_to_act ≡ true
      → (x : Player) × (get_elem? after k ≡ some x) × (can_act x ≡ true)
  after-movers k apart m =
      let (x, at, able) = o.movers k m in
      (x, get_elem?-modify_ne i k (λ _. q) players (λ d. apart (sym d)) ∙ at, able)

  -- A fold, a check or a call.
  pub passive-Moving :
      q.bet ≤ r.current_bet
      → (can_act q ≡ true → r.current_bet ≤ q.bet)
      → Moving i r.need_to_act after r
  passive-Moving low matched = record {
    seated = after-Seated;
    covered = λ k x at. elim (modify_cases i k q x players at) [
      | inl (same, e) ↦ rw e low
      | inr (apart, e) ↦ o.covered k x e
    ];
    movers = after-movers;
    pending = λ k x apart at able less. elim (modify_cases i k q x players at) [
      | inl (same, e) ↦ absurd (apart same)
      | inr (ne, e) ↦ o.pending k x e able less
    ];
    settled = λ x at able. elim (modify_cases i i q x players at) [
      | inl (same, e) ↦ rw e (matched (rw e at able))
      | inr (ne, e) ↦ absurd (ne refl)
    ];
    least = o.least;
    kept = λ k apart m. m;
    joined = λ k x apart at m. inl m;
  }

  after-covered :
      r.current_bet < q.bet → (k : ℕ) (x : Player) → get_elem? after k ≡ some x → x.bet ≤ q.bet
  after-covered more k x at = elim (modify_cases i k q x players at) [
    | inl (same, e) ↦ rw e (omega arith)
    | inr (apart, e) ↦ omega (arith, o.covered k x e)
  ]

  -- After a bet every other seat owes chips.
  owes-more :
      r.current_bet < q.bet
      → (k : ℕ) (x : Player) → k ≢ i
      → get_elem? after k ≡ some x
      → x.bet < q.bet
  owes-more more k x apart at = elim (modify_cases i k q x players at) [
    | inl (same, e) ↦ absurd (apart same)
    | inr (ne, e) ↦ omega (arith, o.covered k x e)
  ]

  after-settled : (x : Player) → get_elem? after i ≡ some x → can_act x ≡ true → q.bet ≤ x.bet
  after-settled x at able = elim (modify_cases i i q x players at) [
    | inl (same, e) ↦ rw e (omega arith)
    | inr (ne, e) ↦ absurd (ne refl)
  ]

  -- Where a set of seats by a test stands.
  idx_where-at :
      (pred : Player → Bool) (k : ℕ)
      → mem k (idx_where pred after) ≡ true
      → (x : Player) × (get_elem? after k ≡ some x) × (pred x ≡ true)
  idx_where-at pred k m =
      let (j, x, at, holds, e) = idx_where-mem pred after k m in
      let here : j ≡ k = sym (after-Seated j x at) ∙ e in (x, rw here at at, holds)

  at-idx_where :
      (pred : Player → Bool) (k : ℕ) (x : Player)
      → get_elem? after k ≡ some x
      → pred x ≡ true
      → mem k (idx_where pred after) ≡ true
  at-idx_where pred k x at holds =
      rw (after-Seated k x at) at (mem-idx_where pred after k x at holds)

  behind-can_act : (x : Player) → is_behind i q.bet x ≡ true → can_act x ≡ true
  behind-can_act x h = ground arith

  is_behind-true :
      (x : Player) → can_act x ≡ true → x.bet < q.bet → x.idx ≢ i → is_behind i q.bet x ≡ true
  is_behind-true x able less apart = ground arith

  abbrev pub behind : List ℕ
  behind = idx_where (is_behind i q.bet) after

  pub raised-Moving :
      (street : Street)
      → r.current_bet < q.bet
      → Moving i r.need_to_act after (raised_round street i q.bet after r)
  unfolding raised_round
  raised-Moving street more = elim (Bool-cases (leb (r.current_bet + r.min_raise) q.bet)) [
    | inl full ↦
        rw (lt→ltb r.current_bet q.bet more, full)
          (record {
            seated = after-Seated;
            covered = after-covered more;
            movers = λ k apart m. idx_where-at can_act k m;
            pending = λ k x apart at able less. at-idx_where can_act k x at able;
            settled = after-settled;
            least = let l = o.least in ground arith;
            kept = λ k apart m.
                let (x, at, able) = after-movers k apart m in at-idx_where can_act k x at able;
            joined = λ k x apart at m. inr (owes-more more k x apart at);
          })
    | inr short ↦
        rw (lt→ltb r.current_bet q.bet more, short)
          (record {
            seated = after-Seated;
            covered = after-covered more;
            movers = λ k apart m. elim (Bool-cases (mem k behind)) [
              | inl in_behind ↦
                  let (x, at, holds) = idx_where-at (is_behind i q.bet) k in_behind in
                  (x, at, behind-can_act x holds)
              | inr in_need ↦
                  after-movers k apart (ground (arith, mem-append k behind r.need_to_act))
            ];
            pending = λ k x apart at able less.
                let here = after-Seated k x at in
                let in_behind =
                  at-idx_where (is_behind i q.bet) k x at
                    (is_behind-true x able less (λ e. apart (sym here ∙ e))) in
                ground (arith, mem-append k behind r.need_to_act, in_behind);
            settled = after-settled;
            least = o.least;
            kept = λ k apart m. ground (arith, mem-append k behind r.need_to_act);
            joined = λ k x apart at m. inr (owes-more more k x apart at);
          })
  ]
