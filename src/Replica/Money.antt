-- ===== src/Replica/Money.antt =====
-- The chips of a replica's table.
use texas_holdem.Base.{
  ℕ, ltb, leb, ◌-◌, ◌||◌, zero, suc, ◌+◌, ◌≡◌, refl, sym, ap, subst, ◌∙◌, Bool, true, false, Option,
  none, some, List, [], ◌∷◌, length, sum, modify, length-modify, total-modify, map-modify,
  get_elem?-modify_inv, get_elem?-modify-some, arith, Bool-cases, inl, inr, ◌⊎◌, ok,
}
use texas_holdem.Cards.{Card}
use texas_holdem.Table.{Player, Engine, can_act}
use texas_holdem.Table.Seats.{TurnOf}
use texas_holdem.Betting.Chips.{chips, bank, act-bank}
use texas_holdem.Betting.Turns.{Open, Inv}
use texas_holdem.Betting.Kept.{act-Inv}
use texas_holdem.Streets.Board.{next_street-Continues}
use texas_holdem.Replica.{
  Entry, Live, Replica, recompute_phase, phase_of, is_settled, with_hole, put_hole, stacks_of,
}
use texas_holdem.Replica.Actions.{
  max_pending, Verdict, applied, to_amount, apply_now, drain_pending, buffer, apply_next,
  apply_action, get_pending, remove,
}
use texas_holdem.Replica.Calls.{
  loaded, Advanced, advance_street-Advanced, finish_hand-Finished, set_own_hole_inv,
  set_all_holes_inv,
}
use texas_holdem.Replica.Steps.{
  Step, arrives, deals, recovers, reveals, settles, Steps, none_yet, then, Applies, refused, broke,
  acted, apply_now-Applies, by_verdict,
}
use texas_holdem.Replica.Showdown.{advance_street, put_holes, finish_hand}

-- The chips of a hand of `n` chips: in the stacks and the bets while it is played, in the stacks
-- when it is settled.
pub data Tracked (n : ℕ) (l : Live) : Type 0 where
  playing : is_settled l.phase ≡ false → Inv l.engine → bank l.engine ≡ n → Tracked n l
  paid : is_settled l.phase ≡ true → sum (stacks_of l.engine) ≡ n → Tracked n l

phase_of-unsettled : (e : Engine) → is_settled (phase_of e) ≡ false
unfolding phase_of
phase_of-unsettled e = ground arith

pub recomputed-Tracked :
    (n : ℕ) (l : Live)
    → is_settled l.phase ≡ false
    → Inv l.engine
    → bank l.engine ≡ n
    → Tracked n (recompute_phase l)
unfolding recompute_phase
recomputed-Tracked n l going v money = rw going (playing (phase_of-unsettled l.engine) v money)

apply_now-Tracked : (n : ℕ) (x : Entry) (l : Live) → Tracked n l → Tracked n (apply_now x l).1
apply_now-Tracked n x l t = go (apply_now x l) (apply_now-Applies x l) t
  where
    go : (p : Verdict × Live) → Applies x l p → Tracked n l → Tracked n p.1
    go _ refused t = t
    go _ broke t = t
    go _ (acted after going done) (playing also v money) =
        recomputed-Tracked n (record l { engine = after }) going
          (act-Inv x.seat x.action (to_amount x.amount) l.engine after v done)
          ((act-bank x.seat x.action (to_amount x.amount) l.engine after done).0 ∙ money)
    go _ (acted after going done) (paid over money) = absurd (ground arith)

-- What a step keeps.
abbrev pub Keeps : Replica → Replica → Type 0
Keeps r f =
    (f.start_total ≡ r.start_total) × (Tracked r.start_total r.live → Tracked r.start_total f.live)

Keeps-trans : (r f g : Replica) → Keeps r f → Keeps f g → Keeps r g
Keeps-trans r f g (same, kept) (same', kept') = (
  same' ∙ same,
  λ t.
      subst (λ n. Tracked n g.live) same
        (kept' (subst (λ n. Tracked n f.live) (sym same) (kept t))),
)

drain_pending-Keeps : (fuel : ℕ) (r : Replica) → Keeps r (drain_pending fuel r)
unfolding drain_pending
drain_pending-Keeps zero r = (refl, λ t. t)
drain_pending-Keeps (suc fuel) r =
    go (get_pending r.next_seq r.pending) refl (λ f. drain_pending-Keeps fuel f)
  where
    go :
        (found : Option Entry)
        → get_pending r.next_seq r.pending ≡ found
        → ((f : Replica) → Keeps f (drain_pending fuel f))
        → Keeps r (drain_pending (suc fuel) r)
    go none at later = rw (at, drain_pending) (refl, λ t. t)
    go (some x) at later =
        let popped : Replica = record r {
          live = (apply_now x r.live).1;
          pending = remove r.next_seq r.pending;
        } in
        let next : Replica = record popped { next_seq = r.next_seq + 1 } in
        let kept : Keeps r popped = (refl, apply_now-Tracked r.start_total x r.live) in
        rw (at, drain_pending)
          (by_verdict (Keeps r) (apply_now x r.live).0 (drain_pending fuel next) (λ _. popped)
            (Keeps-trans r next (drain_pending fuel next) kept (later next)) (λ _. kept))

buffer-Keeps : (seq : ℕ) (x : Entry) (r : Replica) → Keeps r (buffer seq x r).1
unfolding buffer
buffer-Keeps seq x r = go (get_pending seq r.pending) refl
  where
    go : (found : Option Entry) → get_pending seq r.pending ≡ found → Keeps r (buffer seq x r).1
    go (some old) at = rw (at, buffer) (refl, λ t. t)
    go none at =
        rw (at, buffer)
          (elim (Bool-cases
            (ltb max_pending (seq - r.next_seq) || leb max_pending (length r.pending))) [
              | inl full ↦ rw full (refl, λ t. t)
              | inr room ↦ rw room (refl, λ t. t)
            ])

apply_next-Keeps : (x : Entry) (r : Replica) → Keeps r (apply_next x r).1
unfolding apply_next
apply_next-Keeps x r =
    let stepped : Replica = record r { live = (apply_now x r.live).1 } in
    let next : Replica = record stepped { next_seq = r.next_seq + 1 } in
    let kept : Keeps r stepped = (refl, apply_now-Tracked r.start_total x r.live) in
    by_verdict (λ (p : Verdict × Replica). Keeps r p.1) (apply_now x r.live).0
      (applied, drain_pending (length r.pending) next) (λ other. (other, stepped))
      (Keeps-trans r next (drain_pending (length r.pending) next) kept
        (drain_pending-Keeps (length r.pending) next))
      (λ _. kept)

apply_action-Keeps : (seq : ℕ) (x : Entry) (r : Replica) → Keeps r (apply_action seq x r).1
unfolding apply_action
apply_action-Keeps seq x r = elim (Bool-cases (ltb seq r.next_seq)) [
  | inl past ↦ rw past (refl, λ t. t)
  | inr not_past ↦ elim (Bool-cases (ltb r.next_seq seq)) [
    | inl ahead ↦ rw (not_past, ahead) (buffer-Keeps seq x r)
    | inr now ↦ rw (not_past, now) (apply_next-Keeps x r)
  ]
]

-- The deck does not count.
loaded-Inv : (deck revealed : List Card) (e : Engine) → Inv e → Inv (loaded deck revealed e)
loaded-Inv deck revealed e v = record { blinds = v.blinds; opened = v.opened; turn = v.turn }

advance_street-Keeps :
    (cards : List (Option Card)) (r f : Replica) → advance_street cards r ≡ ok f → Keeps r f
advance_street-Keeps cards r f h =
    let a = advance_street-Advanced cards r f h in subst (Keeps r) (sym a.is) (refl, kept a)
  where
    kept :
        (a : Advanced cards r f)
        → Tracked r.start_total r.live
        → Tracked r.start_total (recompute_phase (record r.live { engine = a.after }))
    kept a (playing unsettled v money) =
        let k =
          next_street-Continues (loaded a.deck a.revealed r.engine) a.after
            (loaded-Inv a.deck a.revealed r.engine v) a.dealt in
        recomputed-Tracked r.start_total (record r.live { engine = a.after }) unsettled k.inv
          (k.money ∙ money)
    kept a (paid over money) = absurd (ground (arith, a.over))

-- A hole card is no chip, and no bet.
unchanged :
    {A : Type 0} (m : Player → A) (hole : List Card) (p q : Player)
    → m (with_hole hole p) ≡ m p
    → (q ≡ p) ⊎ (q ≡ with_hole hole p)
    → m q ≡ m p
unchanged m hole p q still (inl old) = ap m old
unchanged m hole p q still (inr new) = ap m new ∙ still

hole-Open :
    (seat : ℕ) (hole : List Card) (e : Engine)
    → Open e.players e.round
    → Open (modify seat (with_hole hole) e.players) e.round
hole-Open seat hole e o = record {
  seated = λ k q at.
      let (p, was, same) = get_elem?-modify_inv seat k (with_hole hole) e.players q at in
      unchanged (λ (x : Player). x.idx) hole p q refl same ∙ o.seated k p was;
  covered = λ k q at.
      let (p, was, same) = get_elem?-modify_inv seat k (with_hole hole) e.players q at in
      omega (arith, unchanged (λ (x : Player). x.bet) hole p q refl same, o.covered k p was);
  movers = λ k h.
      let (p, was, able) = o.movers k h in
      let (q, at, same) = get_elem?-modify-some seat k (with_hole hole) e.players p was in
      (q, at, unchanged can_act hole p q refl same ∙ able);
  pending = λ k q at able less.
      let (p, was, same) = get_elem?-modify_inv seat k (with_hole hole) e.players q at in
      o.pending k p was (sym (unchanged can_act hole p q refl same) ∙ able)
        (omega (arith, unchanged (λ (x : Player). x.bet) hole p q refl same));
  least = o.least;
}

put_hole-Keeps : (seat : ℕ) (hole : List Card) (r : Replica) → Keeps r (put_hole seat hole r)
put_hole-Keeps seat hole r = (refl, kept)
  where
    kept : Tracked r.start_total r.live → Tracked r.start_total (put_hole seat hole r).live
    kept (playing unsettled v money) =
        playing unsettled
          (record {
            blinds = v.blinds;
            opened = hole-Open seat hole r.engine v.opened;
            turn =
                subst (λ n. TurnOf n r.engine.need_to_act r.engine.actor)
                  (sym (length-modify seat (with_hole hole) r.engine.players)) v.turn;
          })
          (total-modify chips (with_hole hole) (λ p. refl) seat r.engine.players ∙ money)
    kept (paid over money) = paid over (
        ap sum
          (map-modify (λ (p : Player). p.stack) (with_hole hole) (λ p. refl) seat r.engine.players)
        ∙ money)

put_holes-Keeps : (holes : List (ℕ × List Card)) (r : Replica) → Keeps r (put_holes holes r)
unfolding put_holes
put_holes-Keeps [] r = (refl, λ t. t)
put_holes-Keeps ((seat, hole) ∷ holes) r =
    Keeps-trans r (put_hole seat hole r) (put_holes holes (put_hole seat hole r))
      (put_hole-Keeps seat hole r) (put_holes-Keeps holes (put_hole seat hole r))

finish_hand-Keeps :
    (force_tabled : Bool) (r f : Replica) → finish_hand force_tabled r ≡ ok f → Keeps r f
finish_hand-Keeps force_tabled r f h =
    let d = finish_hand-Finished force_tabled r f h in
    subst (Keeps r) (sym d.is) (refl, λ t. paid refl d.kept)

Step-Keeps : (r f : Replica) → Step r f → Keeps r f
Step-Keeps r f (arrives seq x) = apply_action-Keeps seq x r
Step-Keeps r f (deals cards h) = advance_street-Keeps cards r f h
Step-Keeps r f (recovers seat cards h) =
    let (hole, checked, is) = set_own_hole_inv seat cards r f h in
    subst (Keeps r) (sym is) (put_hole-Keeps seat hole r)
Step-Keeps r f (reveals holes h) =
    let (checked, good, is) = set_all_holes_inv holes r f h in
    subst (Keeps r) (sym is) (put_holes-Keeps checked r)
Step-Keeps r f (settles force_tabled h) = finish_hand-Keeps force_tabled r f h

pub Steps-Keeps : (r f : Replica) → Steps r f → Keeps r f
Steps-Keeps r f none_yet = (refl, λ t. t)
Steps-Keeps r f (then {f = g} before step) =
    Keeps-trans r g f (Steps-Keeps r g before) (Step-Keeps g f step)
