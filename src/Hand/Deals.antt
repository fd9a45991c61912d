-- ===== src/Hand/Deals.antt =====
-- Lemmas on dealing the hole cards.
use native.Mathlib.Nat.{mod-lt}
use texas_holdem.Base.{
  ℕ, zero, suc, ◌+◌, ◌%◌, ◌<◌, ◌≡◌, refl, sym, ◌∙◌, ap, some, List, [], ◌∷◌, ◌++◌, get_elem?,
  modify, length, length-modify, total, total-append, total-modify, total-modify_at, get_elem?-lt,
  Result, ok, err, >>=-eq-ok, ok-injective, or_raise, or_raise-eq-ok, All, arith, inl, inr,
  Bool-cases,
}
use texas_holdem.Cards.{Card, Error, deal}
use texas_holdem.Cards.Dealing.{deal-total}
use texas_holdem.Table.{Player, Engine, holds_at}
use texas_holdem.Table.Seats.{Seated, Seated-modify, modify-from}
use texas_holdem.Betting.Chips.{chips}
use texas_holdem.Positions.{Fault, short_deck}
use texas_holdem.Hand.{deal_order, deal_round, deal_holes}
use texas_holdem.Hand.Posting.{held}

-- What dealing does to the deck and the table.
pub record Deals (cards : List Card) (players : List Player) (left : List Card)
    (after : List Player) : Type 0 where
  pub conserved : (m : Card → ℕ) → total m left + held m after ≡ total m cards + held m players
  pub money : total chips after ≡ total chips players
  pub same_length : length after ≡ length players
  pub stays_seated : Seated players → Seated after
  pub bets :
      (k : ℕ) (p : Player)
      → get_elem? after k ≡ some p
      → (old : Player) × (get_elem? players k ≡ some old) × (p.bet ≡ old.bet)

Deals-refl : (cards : List Card) (players : List Player) → Deals cards players cards players
Deals-refl cards players = record {
  conserved = λ m. refl;
  money = refl;
  same_length = refl;
  stays_seated = λ s. s;
  bets = λ k p at. (p, at, refl);
}

Deals-trans :
    {c d l : List Card} {p q r : List Player} → Deals c p d q → Deals d q l r → Deals c p l r
Deals-trans a b = record {
  conserved = λ m. b.conserved m ∙ a.conserved m;
  money = b.money ∙ a.money;
  same_length = b.same_length ∙ a.same_length;
  stays_seated = λ s. b.stays_seated (a.stays_seated s);
  bets = λ k x at.
      let (y, at_y, same_y) = b.bets k x at in
      let (z, at_z, same_z) = a.bets k y at_y in (z, at_z, same_y ∙ same_z);
}

abbrev give : List Card → Player → Player
give dealt p = record p { hole = p.hole ++ dealt }

-- One card to a seat of the table.
one_card :
    (i : ℕ) (cards dealt left : List Card) (players : List Player)
    → i < length players
    → deal 1 cards ≡ ok (dealt, left)
    → Deals cards players left (modify i (give dealt) players)
one_card i cards dealt left players inside h = record {
  conserved = λ m.
      let (p, at) = get_elem?-lt players i inside in
      omega (
        arith,
        (deal-total m 1 cards dealt left h).1,
        total-modify_at (λ (x : Player). total m x.hole) (give dealt) i players p at,
        total-append m p.hole dealt,
      );
  money = total-modify chips (give dealt) (λ p. refl) i players;
  same_length = length-modify i (give dealt) players;
  stays_seated = Seated-modify i (give dealt) players (λ p. refl);
  bets = λ k p at.
      let (old, was, which) = modify-from i k (give dealt) players p at in
      (
        old,
        was,
        elim which [
          | inl (same, e) ↦ ap (λ (x : Player). x.bet) e
          | inr e ↦ ap (λ (x : Player). x.bet) e
        ],
      );
}

abbrev Inside : List Player → List ℕ → Type 0
Inside players = All λ i. i < length players

Inside-length :
    (players after : List Player) (order : List ℕ)
    → length after ≡ length players
    → Inside players order
    → Inside after order
Inside-length players after [] e h = tt
Inside-length players after (i ∷ order) e h =
    (omega (arith, h.0), Inside-length players after order e h.1)

-- A table that a seat is out of has no such seat in the order of the deal.
deal_order-Inside :
    (players : List Player) (j rounds : ℕ)
    → 0 < length players
    → Inside players (deal_order players j rounds)
unfolding deal_order
deal_order-Inside players j zero h = tt
deal_order-Inside players j (suc rounds) h =
    let next = (j + 1) % length players in
    let rest = deal_order-Inside players next rounds h in
    elim (Bool-cases (holds_at players (λ p. p.in_seat) next)) [
      | inl here ↦ rw here (mod-lt (j + 1) h, rest)
      | inr away ↦ rw away rest
    ]

abbrev DealsOk : List Card → List Player → Result Fault (List Card × List Player) → Type 0
DealsOk cards players r =
    (left : List Card) (after : List Player) → r ≡ ok (left, after) → Deals cards players left after

deal_round-Deals :
    (order : List ℕ) (cards : List Card) (players : List Player)
    → Inside players order
    → DealsOk cards players (deal_round order cards players)
unfolding deal_round
deal_round-Deals [] cards players inside left after h =
    let same = ok-injective h in
    let same_left : cards ≡ left = ap (λ (x : List Card × List Player). x.0) same in
    let same_after : players ≡ after = ap (λ (x : List Card × List Player). x.1) same in
    rw (← same_left, ← same_after) (Deals-refl cards players)
deal_round-Deals (i ∷ order) cards players inside left after h =
    next (deal 1 cards) (λ rest ps within. deal_round-Deals order rest ps within) refl h
  where
    next :
        (r : Result Error (List Card × List Card))
        → ((rest : List Card) (ps : List Player)
            → Inside ps order
            → DealsOk rest ps (deal_round order rest ps))
        → deal 1 cards ≡ r
        → elim r as (λ _. Result Fault (List Card × List Player)) [
          | err short ↦ err short_deck
          | ok (dealt, rest) ↦ deal_round order rest (modify i (give dealt) players)
        ]
          ≡ ok (left, after)
        → Deals cards players left after
    next (err short) later e g = cc
    next (ok (dealt, rest)) later e g =
        let given = modify i (give dealt) players in
        Deals-trans (one_card i cards dealt rest players inside.0 e) (
          later rest given
            (Inside-length players given order (length-modify i (give dealt) players) inside.1) left
            after g)

-- The two rounds of a hand's deal: the deck and the hole cards together keep every card, and no
-- chips move.
pub deal_holes-Deals :
    (e f : Engine) (cards : List Card)
    → 0 < length e.players
    → e.deck ≡ some cards
    → deal_holes e ≡ ok f
    → (left : List Card) × (f.deck ≡ some left)
      × Deals cards e.players left f.players
      × (f.config ≡ e.config)
      × (f.round ≡ e.round)
unfolding deal_holes
deal_holes-Deals e f cards some_seat has_deck h =
    let order = deal_order e.players e.button (length e.players) in
    let inside = deal_order-Inside e.players e.button (length e.players) some_seat in
    let (deck, is_deck, rest) = >>=-eq-ok (or_raise e.deck short_deck) _ h in
    let same_deck : deck ≡ cards = let found = or_raise-eq-ok e.deck short_deck is_deck in cc in
    let ((left, once), first, later) = >>=-eq-ok (deal_round order deck e.players) _ rest in
    let ((last, twice), second, done) = >>=-eq-ok (deal_round order left once) _ later in
    let one = deal_round-Deals order deck e.players inside left once first in
    let two =
      deal_round-Deals order left once (Inside-length e.players once order one.same_length inside)
        last twice second in
    let same = ok-injective done in
    (
      last,
      ap (λ (x : Engine). x.deck) (sym same),
      rw (← same_deck, ← same) (Deals-trans one two),
      ap (λ (x : Engine). x.config) (sym same),
      ap (λ (x : Engine). x.round) (sym same),
    )
