-- ===== src/Hand/Start.antt =====
-- Theorems on `start_hand`.
use texas_holdem.Base.{
  ℕ, zero, suc, ◌+◌, ◌*◌, ◌≤◌, ◌<◌, ◌≡◌, refl, sym, ◌∙◌, ap, subst, Bool, true, false, ◌&&◌, not,
  Option, none, some, List, [], ◌∷◌, map, ltb, leb, if◌then◌else◌, get_elem?, get_elem?-map_inv,
  length, length-map, total, Result, ok, >>=-eq-ok, ok-injective, or_raise, or_raise-eq-ok, arith,
  inl, inr, Bool-cases,
}
use texas_holdem.Cards.{Card}
use texas_holdem.Table.{Player, Config, can_act, Engine, Round, Blind, idx_where, next_seat, emit}
use texas_holdem.Table.Seats.{Seated, modify-from}
use texas_holdem.Betting.{open_round}
use texas_holdem.Betting.Chips.{chips, bank}
use texas_holdem.Betting.Turns.{Inv}
use texas_holdem.Betting.Opening.{Ready, open_round-Inv}
use texas_holdem.Positions.{Fault, no_seat, advance_positions}
use texas_holdem.Positions.Advance.{Advances, advance_positions-Advances}
use texas_holdem.Hand.{
  post, new_hand, post_small, post_big, entry_posts, highest_bet, bring_in, post_straddle, straddle,
  big_bet, deal_holes, first_to_act, post_all, deal_in, begin_hand, start_hand, reset_player,
  chosen_deck,
}
use texas_holdem.Hand.Posting.{
  held, Posts, Posts-trans, relabel-Posts, post_inv, post_small-Posts, post_big-Posts,
  entry_posts-Posts, straddle-Posts,
}
use texas_holdem.Hand.Deals.{Deals, deal_holes-Deals}

-- No bet is above the current bet.
abbrev Covered : Engine → Type 0
Covered e = (k : ℕ) (p : Player) → get_elem? e.players k ≡ some p → p.bet ≤ e.current_bet

highest :
    (players : List Player) (k : ℕ) (p : Player)
    → get_elem? players k ≡ some p
    → p.bet ≤ highest_bet players
highest [] k p at = absurd (missing at)
  where
    missing : ◌≡◌ {A = Option Player} none (some p) → ⊥
    missing e = cc
highest (q ∷ players) zero p at = let same : q ≡ p = cc in rw (← same) (omega arith)
highest (q ∷ players) (suc k) p at = omega (arith, highest players k p at)

bring_in-Covered : (e : Engine) → Covered (bring_in e)
bring_in-Covered e k p at = omega (arith, highest e.players k p at)

bet_of : Option Player → ℕ
bet_of none = 0
bet_of (some p) = p.bet

same_engine :
    (e f : Engine) (one first : Option ℕ)
    → Covered e
    → ◌≡◌ {A = Result Fault (Engine × Option ℕ)} (ok (e, one)) (ok (f, first))
    → Covered f
same_engine e f one first low h =
    subst Covered (ap (λ (x : Engine × Option ℕ). x.0) (ok-injective h)) low

-- A straddle is the new current bet if it is the highest.
post_straddle-Covered :
    (utg : ℕ) (e f : Engine) (first : Option ℕ)
    → Covered e
    → post_straddle utg e ≡ ok (f, first)
    → Covered f
unfolding post_straddle emit bet_of
post_straddle-Covered utg e f first low h =
    let (g, posted, rest) = >>=-eq-ok (post utg (2 * e.bb) Blind.str e) _ h in
    let (u, found, done) = >>=-eq-ok (or_raise (get_elem? g.players utg) no_seat) _ rest in
    let (q, players, round) = post_inv utg (2 * e.bb) Blind.str e g posted in
    let at_u = or_raise-eq-ok (get_elem? g.players utg) no_seat found in
    let same = ap (λ (x : Engine × Option ℕ). x.0) (ok-injective done) in
    subst Covered same (λ k p at.
      let (old, was, which) = modify-from utg k (λ _. q) e.players p (rw players at at) in
      elim which [
        | inl (here, is_q) ↦
            let p_is_u : some p ≡ some u = sym (rw here at at) ∙ at_u in
            let bets : p.bet ≡ u.bet = ap bet_of p_is_u in omega arith
        | inr is_old ↦
            let old_low = low k old was in
            let bets : p.bet ≡ old.bet = ap (λ (x : Player). x.bet) is_old in
            let rounds : g.current_bet ≡ e.current_bet = ap (λ (r : Round). r.current_bet) round in
            omega arith
      ])

straddled_if :
    (due : Bool) (utg : ℕ) (e f : Engine) (first : Option ℕ)
    → Covered e
    → (if due then post_straddle utg e else ok (e, none)) ≡ ok (f, first)
    → Covered f
straddled_if true utg e f first low h = post_straddle-Covered utg e f first low h
straddled_if false utg e f first low h = same_engine e f none first low h

straddle-Covered :
    (straddles : Option (ℕ → Bool)) (live bb_seat : ℕ) (e f : Engine) (first : Option ℕ)
    → Covered e
    → straddle straddles live bb_seat e ≡ ok (f, first)
    → Covered f
unfolding straddle
straddle-Covered none live bb_seat e f first low h = same_engine e f none first low h
straddle-Covered (some straddles) live bb_seat e f first low h =
    elim (Bool-cases (leb 3 live && big_bet e.structure)) [
      | inl open_game ↦
          let (utg, found, rest) =
            >>=-eq-ok (or_raise (next_seat e.players bb_seat (λ q. q.in_seat)) no_seat) _
              (rw open_game at h) in
          let (u, at, done) = >>=-eq-ok (or_raise (get_elem? e.players utg) no_seat) _ rest in
          straddled_if (ltb 0 u.stack && not u.all_in && straddles utg) utg e f first low done
      | inr closed ↦ same_engine e f none first low (rw closed at h)
    ]

post_all-Posts :
    (straddles : Option (ℕ → Bool)) (sb bb : ℕ) (live : List ℕ) (e f : Engine) (first : Option ℕ)
    → post_all straddles sb bb live e ≡ ok (f, first)
    → Posts e f × Covered f
unfolding post_all
post_all-Posts straddles sb bb live e f first h =
    let (small, e_small, h₁) = >>=-eq-ok (post_small sb e) _ h in
    let (big, e_big, h₂) = >>=-eq-ok (post_big bb small) _ h₁ in
    let (entries, e_entries, h₃) = >>=-eq-ok (entry_posts sb bb live big) _ h₂ in
    let owed = bring_in entries in
    (
      Posts-trans (post_small-Posts sb e small e_small) (
          Posts-trans (post_big-Posts bb small big e_big) (
            Posts-trans (entry_posts-Posts sb bb live big entries e_entries) (
              Posts-trans (relabel-Posts entries owed refl refl refl (omega arith))
                (straddle-Posts straddles (length live) bb owed f first h₃)))),
      straddle-Covered straddles (length live) bb owed f first (bring_in-Covered entries) h₃,
    )

-- The cards of the deck and of the hands, by any measure of a card.
abbrev pub Dealt : List Card → List Player → Engine → Type 0
Dealt cards players f =
    (left : List Card) × (f.deck ≡ some left)
    × ((m : Card → ℕ) → total m left + held m f.players ≡ total m cards + held m players)

open_round-same :
    (first : ℕ) (e : Engine)
    → ((open_round first e).players ≡ e.players) × ((open_round first e).deck ≡ e.deck)
unfolding open_round
open_round-same first e = (refl, refl)

-- The deal has set up the first round.
deal_holes-Ready :
    (cards left : List Card) (e dealt : Engine)
    → 0 < length e.players
    → 0 < e.bb
    → 0 < e.min_raise
    → Seated e.players
    → Covered e
    → Deals cards e.players left dealt.players
    → dealt.config ≡ e.config
    → dealt.round ≡ e.round
    → Ready dealt
deal_holes-Ready cards left e dealt some_seat hb rise seated low d config round =
    let same_bb : dealt.bb ≡ e.bb = ap (λ (c : Config). c.bb) config in
    let same_rise : dealt.min_raise ≡ e.min_raise = ap (λ (r : Round). r.min_raise) round in
    let same_bet : dealt.current_bet ≡ e.current_bet = ap (λ (r : Round). r.current_bet) round in
    record {
      some_seat = omega (arith, d.same_length);
      blinds = omega arith;
      least = omega arith;
      seated = d.stays_seated seated;
      covered = λ k p at.
          let (old, was, same) = d.bets k p at in let under = low k old was in omega arith;
    }

deal_in-Inv :
    (straddled : Option ℕ) (live bb : ℕ) (cards : List Card) (e f : Engine)
    → 0 < length e.players
    → e.deck ≡ some cards
    → 0 < e.bb
    → 0 < e.min_raise
    → Seated e.players
    → Covered e
    → deal_in straddled live bb e ≡ ok f
    → Inv f × (bank f ≡ bank e) × Dealt cards e.players f
unfolding deal_in
deal_in-Inv straddled live bb cards e f some_seat has_deck hb rise seated low h =
    let (dealt, e_dealt, h₁) = >>=-eq-ok (deal_holes e) _ h in
    let (first, e_first, done) =
      >>=-eq-ok (or_raise (first_to_act straddled live bb dealt) no_seat) _ h₁ in
    let (left, is_left, d, config, round) =
      deal_holes-Deals e dealt cards some_seat has_deck e_dealt in
    let ready = deal_holes-Ready cards left e dealt some_seat hb rise seated low d config round in
    opened first dealt left is_left d ready (ok-injective done)
  where
    opened :
        (first : ℕ) (dealt : Engine) (left : List Card)
        → dealt.deck ≡ some left
        → Deals cards e.players left dealt.players
        → Ready dealt
        → open_round first dealt ≡ f
        → Inv f × (bank f ≡ bank e) × Dealt cards e.players f
    opened first dealt left is_left d ready same =
        let (players, deck) = open_round-same first dealt in
        rw (← same) (
          open_round-Inv first dealt ready,
          ap (total chips) players ∙ d.money,
          (left, deck ∙ is_left, λ m. ap (λ ps. total m left + held m ps) players ∙ d.conserved m),
        )

new_hand-same :
    (cards : List Card) (players : List Player) (e : Engine)
    → ((new_hand cards players e).players ≡ players)
      × ((new_hand cards players e).deck ≡ some cards)
      × ((new_hand cards players e).config ≡ e.config)
      × ((new_hand cards players e).min_raise ≡ e.bb)
unfolding new_hand emit
new_hand-same cards players e = (refl, refl, refl, refl)

-- From the table that `start_hand` has reset to the first round.
pub begin_hand-Inv :
    (straddles : Option (ℕ → Bool)) (cards : List Card) (players : List Player) (e f : Engine)
    → 0 < length players
    → 0 < e.bb
    → Seated players
    → begin_hand straddles cards players e ≡ ok f
    → Inv f × (bank f ≡ total chips players) × Dealt cards players f
unfolding begin_hand
begin_hand-Inv straddles cards players e f some_seat hb seated h =
    let live = idx_where (λ p. p.in_seat) players in
    let (sb, is_sb, h₁) = >>=-eq-ok (or_raise e.sb_seat no_seat) _ h in
    let (bb, is_bb, h₂) = >>=-eq-ok (or_raise e.bb_seat no_seat) _ h₁ in
    let ((opened, straddled), e_opened, h₃) =
      >>=-eq-ok (post_all straddles sb bb live (new_hand cards players e)) _ h₂ in
    let (posts, low) =
      post_all-Posts straddles sb bb live (new_hand cards players e) opened straddled e_opened in
    go straddled (length live) bb (new_hand cards players e) opened (new_hand-same cards players e)
      posts low h₃
  where
    go :
        (straddled : Option ℕ) (live bb : ℕ) (start opened : Engine)
        → (start.players ≡ players)
          × (start.deck ≡ some cards)
          × (start.config ≡ e.config)
          × (start.min_raise ≡ e.bb)
        → Posts start opened
        → Covered opened
        → deal_in straddled live bb opened ≡ ok f
        → Inv f × (bank f ≡ total chips players) × Dealt cards players f
    go straddled live bb start opened (same, deck, config, rise) posts low h =
        let same_length = posts.same_length ∙ ap length same in
        let same_bb : opened.bb ≡ e.bb =
          ap (λ (c : Config). c.bb) posts.same_config ∙ ap (λ (c : Config). c.bb) config in
        let (inv, money, (left, is_left, counts)) =
          deal_in-Inv straddled live bb cards opened f (omega arith) (posts.same_deck ∙ deck)
            (omega arith) (omega (arith, posts.least))
            (posts.stays_seated (subst Seated (sym same) seated)) low h in
        (
          inv,
          money ∙ posts.money ∙ ap (total chips) same,
          (
            left,
            is_left,
            λ m. counts m ∙ ap (λ n. total m cards + n) (posts.holes m ∙ ap (held m) same),
          ),
        )

abbrev stack_of : Player → ℕ
stack_of p = p.stack

-- Before the posts, no seat has chips in the pot or cards.
reset-chips :
    (out : Bool) (players : List Player)
    → total chips (map (reset_player out) players) ≡ total stack_of players
reset-chips out [] = refl
reset-chips out (p ∷ players) = omega (arith, reset-chips out players)

reset-held :
    (out : Bool) (m : Card → ℕ) (players : List Player)
    → held m (map (reset_player out) players) ≡ 0
reset-held out m [] = refl
reset-held out m (p ∷ players) = omega (arith, reset-held out m players)

Seated-map :
    (f : Player → Player) (players : List Player)
    → ((p : Player) → (f p).idx ≡ p.idx)
    → Seated players
    → Seated (map f players)
Seated-map f players keeps s k p at =
    let (old, was, same) = get_elem?-map_inv f k players p at in
    ap (λ (x : Player). x.idx) same ∙ keeps old ∙ s k old was

-- Once the button has moved and the seats are reset.
started :
    (straddles : Option (ℕ → Bool)) (cards : List Card) (e moved f : Engine) (players : List Player)
    → players ≡ map (reset_player e.deal_sitting_out) moved.players
    → 0 < length e.players
    → 0 < e.bb
    → Seated e.players
    → Advances e moved
    → begin_hand straddles cards players moved ≡ ok f
    → Inv f
      × (bank f ≡ total stack_of e.players)
      × ((left : List Card) × (f.deck ≡ some left)
          × ((m : Card → ℕ) → total m left + held m f.players ≡ total m cards))
started straddles cards e moved f players reset some_seat hb seated advances h =
    let out = e.deal_sitting_out in
    let same_bb : moved.bb ≡ e.bb = ap (λ (c : Config). c.bb) advances.same_config in
    let many : length players ≡ length moved.players =
      ap length reset ∙ length-map (reset_player out) moved.players in
    let (inv, money, (left, is_left, counts)) =
      begin_hand-Inv straddles cards players moved f (omega (arith, advances.sits.same_length))
        (omega arith)
        (subst Seated (sym reset) (
          Seated-map (reset_player out) moved.players (λ p. refl)
            (advances.sits.stays_seated seated)))
        h in
    (
      inv,
      money ∙ ap (total chips) reset ∙ reset-chips out moved.players ∙ advances.sits.stacks,
      (
        left,
        is_left,
        λ m.
            let none_held = ap (held m) reset ∙ reset-held out m moved.players in
            omega (arith, counts m),
      ),
    )

-- A hand that `start_hand` has begun, with the blinds posted and the cards dealt, is in the
-- invariant of its first betting round, has as many chips as the stacks had before it, and the
-- deck that is left and the hole cards together are the deck it began with, by every count of
-- cards. The table is not empty, has a positive big blind, and numbers its seats in order.
pub start_hand-Inv :
    (straddles : Option (ℕ → Bool)) (given : Option (List Card)) (fresh : List Card) (e f : Engine)
    → 0 < length e.players
    → 0 < e.bb
    → Seated e.players
    → start_hand straddles given fresh e ≡ ok (true, f)
    → Inv f
      × (bank f ≡ total (λ (p : Player). p.stack) e.players)
      × ((left : List Card) × (f.deck ≡ some left)
          × ((m : Card → ℕ) → total m left + held m f.players ≡ total m (chosen_deck given fresh)))
unfolding start_hand
start_hand-Inv straddles given fresh e f some_seat hb seated h =
    let (moved, e_moved, h₁) = >>=-eq-ok (advance_positions e) _ h in
    let advances = advance_positions-Advances e moved e_moved in
    let players = map (reset_player e.deal_sitting_out) moved.players in
    elim (Bool-cases (ltb (length (texas_holdem.Table.seated players)) 2)) [
      | inl few ↦ absurd (refused moved players (rw few at h₁))
      | inr enough ↦
          let (begun, e_begun, done) =
            >>=-eq-ok (begin_hand straddles (chosen_deck given fresh) players moved) _
              (rw enough at h₁) in
          let same : begun ≡ f = ap (λ (x : Bool × Engine). x.1) (ok-injective done) in
          started straddles (chosen_deck given fresh) e moved f players refl some_seat hb seated
            advances (e_begun ∙ ap ok same)
    ]
  where
    refused :
        (moved : Engine) (players : List Player)
        → ◌≡◌ {A = Result Fault (Bool × Engine)}
            (ok (false, record moved { players = players }))
            (ok (true, f))
        → ⊥
    refused moved players g =
        let pair = ok-injective g in
        let same : false ≡ true = ap (λ (x : Bool × Engine). x.0) pair in cc
