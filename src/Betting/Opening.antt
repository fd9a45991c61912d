-- ===== src/Betting/Opening.antt =====
-- Theorems on `_open_round`.
use texas_holdem.Base.{
  ℕ, zero, suc, ◌%◌, ◌≤◌, ◌<◌, ◌≡◌, refl, sym, subst, ◌∙◌, ap, Bool, true, ◌&&◌, none, some, ◌⊎◌,
  mem, false, List, [], ◌∷◌, ltb, ◌==◌, get_elem?, length, keep, all, arith, inl, inr, Bool-cases,
}
use native.Mathlib.Nat.{mod-lt}
use texas_holdem.Table.{Player, Engine, can_act, idx_where}
use texas_holdem.Table.Seats.{
  Seated, FirstFrom, seek-FirstFrom, seek-TurnOf, mem-idx_where, idx_where-mem,
}
use texas_holdem.Betting.{open_round}
use texas_holdem.Betting.Turns.{Inv}

-- What the start of a street or of a hand has set up.
pub record Ready (e : Engine) : Type 0 where
  pub some_seat : 0 < length e.players
  pub blinds : 0 < e.bb
  pub least : 0 < e.min_raise
  pub seated : Seated e.players
  pub covered : (k : ℕ) (p : Player) → get_elem? e.players k ≡ some p → p.bet ≤ e.current_bet

all-keep-at :
    (pred test : Player → Bool) (players : List Player) (k : ℕ) (p : Player)
    → get_elem? players k ≡ some p
    → pred p ≡ true
    → all test (keep pred players) ≡ true
    → test p ≡ true
all-keep-at pred test [] k p at holds h = cc
all-keep-at pred test (q ∷ players) zero p at holds h =
    ground (arith, ap pred {x = q} {y = p}, ap test {x = q} {y = p})
all-keep-at pred test (q ∷ players) (suc k) p at holds h =
    ground (arith, all-keep-at pred test players k p at holds)

-- What `_open_round` makes of the table `e`: a round that fewer than two seats could act in, none of
-- them owing chips, has nobody to act, and in any other exactly the seats that can act are to act,
-- the first of them from `first` on at turn.
pub record Opens (first : ℕ) (e f : Engine) : Type 0 where
  pub same_players : f.players ≡ e.players
  pub same_bet : f.current_bet ≡ e.current_bet
  pub all_may_raise : f.no_raise ≡ []
  pub none_acted : f.acted_at ≡ []
  pub skipped :
      length (keep can_act e.players) < 2
      → ((k : ℕ) (p : Player)
          → get_elem? e.players k ≡ some p
          → can_act p ≡ true
          → p.bet ≡ e.current_bet)
      → (f.actor ≡ none) × (f.need_to_act ≡ [])
  pub going :
      (2 ≤ length (keep can_act e.players))
        ⊎ ((k : ℕ) × (p : Player) × (get_elem? e.players k ≡ some p)
            × (can_act p ≡ true)
            × (p.bet < e.current_bet))
      → (k : ℕ) (p : Player) → get_elem? e.players k ≡ some p
      → mem k f.need_to_act ≡ can_act p
  pub first_turn :
      FirstFrom (length f.players) (λ j. mem j f.need_to_act) (first % length f.players) 0 f.actor

-- Whether the round is skipped (fewer than two seats can act and none owes chips) or opened at a
-- seat, the invariant holds afterwards.
pub open_round-Inv : (first : ℕ) (e : Engine) → Ready e → Inv (open_round first e)
unfolding open_round
open_round-Inv first e v =
    let actors = keep can_act e.players in
    elim (Bool-cases (ltb (length actors) 2 && all (λ p. p.bet == e.current_bet) actors)) [
      | inl closed ↦ rw closed (record {
        blinds = v.blinds;
        opened = record {
          seated = v.seated;
          covered = v.covered;
          movers = λ k h. cc;
          pending = λ k p at able less.
              let matched =
                all-keep-at can_act (λ p. p.bet == e.current_bet) e.players k p at able
                  (ground arith) in
              absurd (ground arith);
          least = v.least;
        };
        turn = λ k h. refl;
      })
      | inr going ↦ rw going (record {
        blinds = v.blinds;
        opened = record {
          seated = v.seated;
          covered = v.covered;
          movers = λ k h.
              let (j, p, at, able, e_idx) = idx_where-mem can_act e.players k h in
              let here : j ≡ k = sym (v.seated j p at) ∙ e_idx in (p, rw here at at, able);
          pending = λ k p at able less.
              rw (v.seated k p at) at (mem-idx_where can_act e.players k p at able);
          least = v.least;
        };
        turn =
            seek-TurnOf e.players (idx_where can_act e.players) (first % length e.players)
              (mod-lt first v.some_seat);
      })
    ]

all-keep-from :
    (pred test : Player → Bool) (players : List Player)
    → ((k : ℕ) (p : Player) → get_elem? players k ≡ some p → pred p ≡ true → test p ≡ true)
    → all test (keep pred players) ≡ true
all-keep-from pred test [] each = refl
all-keep-from pred test (q ∷ players) each =
    ground (arith, each 0 q refl, all-keep-from pred test players (λ k p at. each (suc k) p at))

who-can_act :
    (players : List Player) (k : ℕ) (p : Player)
    → Seated players
    → get_elem? players k ≡ some p
    → mem k (idx_where can_act players) ≡ can_act p
who-can_act players k p seated at = elim (Bool-cases (can_act p)) [
  | inl able ↦ rw able (
      subst (λ (j : ℕ). mem j (idx_where can_act players) ≡ true) (seated k p at)
        (mem-idx_where can_act players k p at able))
  | inr idle ↦ elim (Bool-cases (mem k (idx_where can_act players))) [
    | inl there ↦
        let (j, q, q_at, able, e_idx) = idx_where-mem can_act players k there in
        let here : j ≡ k = sym (seated j q q_at) ∙ e_idx in
        let same : some q ≡ some p = sym q_at ∙ ap (λ (x : ℕ). get_elem? players x) here ∙ at in
        let differs : q ≡ p = cc in absurd (true_false (sym able ∙ ap can_act differs ∙ idle))
    | inr out ↦ out ∙ sym idle
  ]
]
  where
    true_false : true ≡ false → ⊥
    true_false e = cc

opens : (first : ℕ) (e : Engine) → Seated e.players → Opens first e (open_round first e)
unfolding open_round
opens first e seated =
    let actors = keep can_act e.players in
    elim (Bool-cases (ltb (length actors) 2 && all (λ p. p.bet == e.current_bet) actors)) [
      | inl closed ↦ rw closed (record {
        same_players = refl;
        same_bet = refl;
        all_may_raise = refl;
        none_acted = refl;
        skipped = λ few matched. (refl, refl);
        going = λ h k p at. elim h [
          | inl two ↦ absurd (ground arith)
          | inr (j, q, q_at, able, less) ↦
              let matched =
                all-keep-at can_act (λ p. p.bet == e.current_bet) e.players j q q_at able
                  (ground arith) in
              absurd (ground arith)
        ];
        first_turn = tt;
      })
      | inr going ↦ rw going (record {
        same_players = refl;
        same_bet = refl;
        all_may_raise = refl;
        none_acted = refl;
        skipped = λ few matched.
            let same =
              all-keep-from can_act (λ p. p.bet == e.current_bet) e.players
                (λ k p at able. ground (arith, matched k p at able)) in
            absurd (ground arith);
        going = λ h k p at. who-can_act e.players k p seated at;
        first_turn =
            seek-FirstFrom e.players (idx_where can_act e.players) (first % length e.players);
      })
    ]

-- On a table that is ready for it, `_open_round` skips the round, with nobody to act, exactly if fewer
-- than two seats can act and none of these owes chips. Otherwise exactly the seats that can act are
-- to act, and the turn is at the first of them from the given seat on. The players and the current
-- bet stay, every seat may raise again, and the invariant of a round holds.
pub open_round-Opens :
    (first : ℕ) (e : Engine)
    → Ready e
    → Inv (open_round first e) × Opens first e (open_round first e)
open_round-Opens first e v = (open_round-Inv first e v, opens first e v.seated)
