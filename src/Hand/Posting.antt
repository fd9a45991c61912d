-- ===== src/Hand/Posting.antt =====
-- Lemmas on the blinds, antes and straddles that are posted.
use texas_holdem.Base.{
  ℕ, ◌≤◌, ◌*◌, min, ◌≡◌, refl, sym, ◌∙◌, ap, subst, Bool, true, false, ◌&&◌, ◌||◌, not, Option,
  none, some, List, [], ◌∷◌, ltb, leb, ◌==◌, if◌then◌else◌, get_elem?, modify, length,
  length-modify, total, total-modify, Result, ok, ◌>>=◌, >>=-eq-ok, ok-injective, or_raise,
  or_raise-eq-ok, arith, inl, inr, Bool-cases,
}
use texas_holdem.Cards.{Card}
use texas_holdem.Table.{Player, Engine, Blind, LastAction, emit, commit, next_seat}
use texas_holdem.Table.Seats.{Seated, Seated-modify, modify-const}
use texas_holdem.Betting.Chips.{chips, bank}
use texas_holdem.Positions.{Fault, no_seat}
use texas_holdem.Hand.{
  post, pay_dead, post_dead, post_small, post_big, entered, clear_entry, entry_post, entry_posts,
  post_straddle, straddle, big_bet,
}

-- The hole cards of the table, counted by any measure of a card.
abbrev pub held : (Card → ℕ) → List Player → ℕ
held m = total λ (p : Player). total m p.hole

-- What posting keeps.
pub record Posts (e f : Engine) : Type 0 where
  pub money : bank f ≡ bank e
  pub holes : (m : Card → ℕ) → held m f.players ≡ held m e.players
  pub same_length : length f.players ≡ length e.players
  pub stays_seated : Seated e.players → Seated f.players
  pub same_deck : f.deck ≡ e.deck
  pub same_config : f.config ≡ e.config
  pub least : e.min_raise ≤ f.min_raise

pub Posts-refl : (e : Engine) → Posts e e
Posts-refl e = record {
  money = refl;
  holes = λ m. refl;
  same_length = refl;
  stays_seated = λ s. s;
  same_deck = refl;
  same_config = refl;
  least = omega arith;
}

pub Posts-trans : {e f g : Engine} → Posts e f → Posts f g → Posts e g
Posts-trans a b = record {
  money = b.money ∙ a.money;
  holes = λ m. b.holes m ∙ a.holes m;
  same_length = b.same_length ∙ a.same_length;
  stays_seated = λ s. b.stays_seated (a.stays_seated s);
  same_deck = b.same_deck ∙ a.same_deck;
  same_config = b.same_config ∙ a.same_config;
  least = omega (arith, a.least, b.least);
}

-- A change of one player that keeps its chips, cards and seat.
abbrev Keeps : (Player → Player) → Type 0
Keeps f = (p : Player) → (chips (f p) ≡ chips p) × ((f p).hole ≡ p.hole) × ((f p).idx ≡ p.idx)

modify-Posts :
    (i : ℕ) (f : Player → Player) (e g : Engine)
    → Keeps f
    → g.players ≡ modify i f e.players
    → g.deck ≡ e.deck
    → g.config ≡ e.config
    → e.min_raise ≤ g.min_raise
    → Posts e g
modify-Posts i f e g keeps same deck config least = record {
  money = rw same (total-modify chips f (λ p. (keeps p).0) i e.players);
  holes = λ m.
      rw same (
        total-modify (λ (p : Player). total m p.hole) f (λ p. ap (total m) (keeps p).1) i
          e.players);
  same_length = rw same (length-modify i f e.players);
  stays_seated = λ s. rw same (Seated-modify i f e.players (λ p. (keeps p).2) s);
  same_deck = deck;
  same_config = config;
  least = least;
}

-- What a step of `start_hand` keeps, if it goes through.
abbrev pub PostsOk : Engine → Result Fault Engine → Type 0
PostsOk e r = (f : Engine) → r ≡ ok f → Posts e f

commit-Keeps :
    (amount : ℕ) (label : LastAction)
    → Keeps (λ p. record (commit p amount) { last_action = label })
unfolding commit
commit-Keeps amount label p = (omega arith, refl, refl)

pay_dead-Keeps : (amount : ℕ) → Keeps (λ p. pay_dead p amount)
unfolding pay_dead
pay_dead-Keeps amount p = (omega arith, refl, refl)

pub post-Posts : (i amount : ℕ) (label : Blind) (e : Engine) → PostsOk e (post i amount label e)
unfolding post emit
post-Posts i amount label e f h =
    let (p, at, done) = >>=-eq-ok (or_raise (get_elem? e.players i) no_seat) _ h in
    let seat = or_raise-eq-ok (get_elem? e.players i) no_seat at in
    let paid = min amount p.stack in
    let change =
      λ (x : Player). record (commit x paid) { last_action = LastAction.posted label paid } in
    let same : _ ≡ f = ok-injective done in
    subst (Posts e) same (
      modify-Posts i change e _ (commit-Keeps paid (LastAction.posted label paid))
        (modify-const i change e.players p seat) refl refl (omega arith))

-- A post changes one player, and leaves the round as it is.
pub post_inv :
    (i amount : ℕ) (label : Blind) (e g : Engine)
    → post i amount label e ≡ ok g
    → (q : Player) × (g.players ≡ modify i (λ _. q) e.players) × (g.round ≡ e.round)
unfolding post emit
post_inv i amount label e g h =
    let (p, at, done) = >>=-eq-ok (or_raise (get_elem? e.players i) no_seat) _ h in
    let same = ok-injective done in
    (_, ap (λ (x : Engine). x.players) (sym same), ap (λ (x : Engine). x.round) (sym same))

post_dead-Posts :
    (i amount : ℕ) (label : Blind) (e : Engine) → PostsOk e (post_dead i amount label e)
unfolding post_dead emit
post_dead-Posts i amount label e f h =
    let (p, at, done) = >>=-eq-ok (or_raise (get_elem? e.players i) no_seat) _ h in
    let seat = or_raise-eq-ok (get_elem? e.players i) no_seat at in
    let same : _ ≡ f = ok-injective done in
    subst (Posts e) same (
      modify-Posts i (λ x. pay_dead x amount) e _ (pay_dead-Keeps amount)
        (modify-const i (λ x. pay_dead x amount) e.players p seat) refl refl (omega arith))

-- A chain of two steps.
pub bind-Posts :
    (e : Engine) (r : Result Fault Engine) (next : Engine → Result Fault Engine)
    → PostsOk e r
    → ((g : Engine) → PostsOk g (next g))
    → PostsOk e (r >>= next)
bind-Posts e r next first later f h =
    let (g, one, two) = >>=-eq-ok r next h in Posts-trans (first g one) (later g f two)

-- A change of fields that posting does not speak of.
pub relabel-Posts :
    (e f : Engine)
    → f.players ≡ e.players
    → f.deck ≡ e.deck
    → f.config ≡ e.config
    → e.min_raise ≤ f.min_raise
    → Posts e f
relabel-Posts e f players deck config least = record {
  money = ap (total chips) players;
  holes = λ m. ap (held m) players;
  same_length = ap length players;
  stays_seated = λ s. subst Seated (sym players) s;
  same_deck = deck;
  same_config = config;
  least = least;
}

ok-Posts : (e f : Engine) → Posts e f → PostsOk e (ok f)
ok-Posts e f p g h = subst (Posts e) (ok-injective h) p

pub post_small-Posts : (seat : ℕ) (e : Engine) → PostsOk e (post_small seat e)
unfolding post_small emit
post_small-Posts seat e f h =
    let (p, at, rest) = >>=-eq-ok (or_raise (get_elem? e.players seat) no_seat) _ h in
    elim (Bool-cases p.in_seat) [
      | inl in_hand ↦
          bind-Posts e (post seat e.sb Blind.sb e) _ (post-Posts seat e.sb Blind.sb e)
            (λ g. ok-Posts g _ (relabel-Posts g _ refl refl refl (omega arith))) f
            (rw in_hand at rest)
      | inr away ↦ ok-Posts e _ (relabel-Posts e _ refl refl refl (omega arith)) f (rw away at rest)
    ]

dead_part-Posts :
    (due : Bool) (i amount : ℕ) (label : Blind) (g : Engine)
    → PostsOk g (if due then post_dead i amount label g else ok g)
dead_part-Posts true i amount label g = post_dead-Posts i amount label g
dead_part-Posts false i amount label g = ok-Posts g g (Posts-refl g)

pub post_big-Posts : (seat : ℕ) (e : Engine) → PostsOk e (post_big seat e)
unfolding post_big
post_big-Posts seat e f h =
    let placed = record e { positions = record e.positions { bb_i = some seat } } in
    Posts-trans (relabel-Posts e placed refl refl refl (omega arith)) (
      bind-Posts placed (post seat e.bb Blind.bb placed)
        (λ after. if e.bb_ante then post_dead seat e.bb Blind.ante after else ok after)
        (post-Posts seat e.bb Blind.bb placed)
        (λ g. dead_part-Posts e.bb_ante seat e.bb Blind.ante g) f h)

clear_entry-Posts : (i : ℕ) (e : Engine) → Posts e (clear_entry i e)
clear_entry-Posts i e =
    modify-Posts i entered e (clear_entry i e) (λ p. (refl, refl, refl)) refl refl refl
      (omega arith)

entry_post-Posts : (sb bb i : ℕ) (e : Engine) → PostsOk e (entry_post sb bb i e)
unfolding entry_post
entry_post-Posts sb bb i e f h =
    let (p, at, rest) = >>=-eq-ok (or_raise (get_elem? e.players i) no_seat) _ h in
    elim (Bool-cases (p.post_entry && not (i == sb || i == bb))) [
      | inl enters ↦
          bind-Posts e (post i e.bb Blind.entry_post e) _ (post-Posts i e.bb Blind.entry_post e)
            (λ g.
              bind-Posts g (if p.owes_sb then post_dead i e.sb Blind.dead_sb g else ok g) _
                (dead_part-Posts p.owes_sb i e.sb Blind.dead_sb g)
                (λ k. ok-Posts k _ (clear_entry-Posts i k)))
            f (rw enters at rest)
      | inr stays ↦ ok-Posts e _ (clear_entry-Posts i e) f (rw stays at rest)
    ]

pub entry_posts-Posts :
    (sb bb : ℕ) (seats : List ℕ) (e : Engine) → PostsOk e (entry_posts sb bb seats e)
unfolding entry_posts
entry_posts-Posts sb bb [] e = ok-Posts e e (Posts-refl e)
entry_posts-Posts sb bb (i ∷ seats) e =
    bind-Posts e (entry_post sb bb i e) (entry_posts sb bb seats) (entry_post-Posts sb bb i e)
      (entry_posts-Posts sb bb seats)

abbrev StraddlesOk : Engine → Result Fault (Engine × Option ℕ) → Type 0
StraddlesOk e r = (f : Engine) (first : Option ℕ) → r ≡ ok (f, first) → Posts e f

post_straddle-Posts : (utg : ℕ) (e : Engine) → StraddlesOk e (post_straddle utg e)
unfolding post_straddle emit
post_straddle-Posts utg e f first h =
    let (g, posted, rest) = >>=-eq-ok (post utg (2 * e.bb) Blind.str e) _ h in
    let (u, at, done) = >>=-eq-ok (or_raise (get_elem? g.players utg) no_seat) _ rest in
    let same = ap (λ (x : Engine × Option ℕ). x.0) (ok-injective done) in
    Posts-trans (post-Posts utg (2 * e.bb) Blind.str e g posted)
      (subst (Posts g) same (relabel-Posts g _ refl refl refl (omega arith)))

ok-Straddles : (e : Engine) (first : Option ℕ) → StraddlesOk e (ok (e, first))
ok-Straddles e first f none_due h =
    subst (Posts e) (ap (λ (x : Engine × Option ℕ). x.0) (ok-injective h)) (Posts-refl e)

straddle_if-Posts :
    (due : Bool) (utg : ℕ) (e : Engine)
    → StraddlesOk e (if due then post_straddle utg e else ok (e, none))
straddle_if-Posts true utg e = post_straddle-Posts utg e
straddle_if-Posts false utg e = ok-Straddles e none

pub straddle-Posts :
    (straddles : Option (ℕ → Bool)) (live bb_seat : ℕ) (e : Engine)
    → StraddlesOk e (straddle straddles live bb_seat e)
unfolding straddle
straddle-Posts none live bb_seat e f first h = ok-Straddles e none f first h
straddle-Posts (some straddles) live bb_seat e f first h =
    elim (Bool-cases (leb 3 live && big_bet e.structure)) [
      | inl open_game ↦
          let (utg, found, rest) =
            >>=-eq-ok (or_raise (next_seat e.players bb_seat (λ q. q.in_seat)) no_seat) _
              (rw open_game at h) in
          let (u, at, done) = >>=-eq-ok (or_raise (get_elem? e.players utg) no_seat) _ rest in
          straddle_if-Posts (ltb 0 u.stack && not u.all_in && straddles utg) utg e f first done
      | inr closed ↦ ok-Straddles e none f first (rw closed at h)
    ]
