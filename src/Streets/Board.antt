-- ===== src/Streets/Board.antt =====
-- Theorems on `next_street`.
use texas_holdem.Base.{
  ℕ, ◌+◌, ◌%◌, ◌<◌, ◌≡◌, refl, sym, ◌∙◌, ap, subst, ◌||◌, Option, none, some, List, [], ◌∷◌, ◌++◌,
  map, ltb, length, length-map, get_elem?, get_elem?-map, get_elem?-map_inv, total, total-append,
  Result, ok, err, >>=-eq-ok, ok-injective, or_raise, or_raise-eq-ok, arith, inl, inr, Bool-cases,
}
use texas_holdem.Cards.{Card, Error, deal}
use texas_holdem.Cards.Dealing.{deal-total}
use texas_holdem.Table.{
  Player, Engine, Street, idle, preflop, flop, turn, river, showdown, emit, can_act, Event,
}
use texas_holdem.Table.Seats.{Seated, TurnOf}
use texas_holdem.Betting.{open_round}
use texas_holdem.Betting.Chips.{chips, bank}
use texas_holdem.Betting.Turns.{Inv}
use texas_holdem.Betting.Opening.{open_round-Inv}
use texas_holdem.Positions.{Fault, no_seat, short_deck}
use texas_holdem.Hand.Posting.{held}
use texas_holdem.Streets.{clear_bet, clear_street, show_board, deal_street, next_street}

-- The cards that are not yet dealt.
abbrev pub undealt : Option (List Card) → List Card
undealt none = []
undealt (some cards) = cards

-- The cards of the deck, the board and the hands, by a measure of a card.
abbrev pub table_cards : (Card → ℕ) → Engine → ℕ
table_cards m e = total m (undealt e.deck) + total m e.board + held m e.players

clear_bet-keeps :
    (p : Player)
    → (chips (clear_bet p) ≡ chips p)
      × ((clear_bet p).hole ≡ p.hole)
      × ((clear_bet p).idx ≡ p.idx)
      × ((clear_bet p).bet ≡ 0)
      × (can_act (clear_bet p) ≡ can_act p)
clear_bet-keeps p = elim (Bool-cases (p.folded || p.all_in)) [
  | inl out ↦ rw out (refl, refl, refl, refl, refl)
  | inr active ↦ rw active (refl, refl, refl, refl, refl)
]

total-map_keeps :
    (m : Player → ℕ) (f : Player → Player) (players : List Player)
    → ((p : Player) → m (f p) ≡ m p)
    → total m (map f players) ≡ total m players
total-map_keeps m f [] keeps = refl
total-map_keeps m f (p ∷ players) keeps = omega (arith, keeps p, total-map_keeps m f players keeps)

-- What a street keeps of the table.
pub record Continues (e f : Engine) : Type 0 where
  pub inv : Inv f
  pub money : bank f ≡ bank e
  pub cards : (m : Card → ℕ) → table_cards m f ≡ table_cards m e
  pub same_length : length f.players ≡ length e.players

cleared-Seated : (players : List Player) → Seated players → Seated (map clear_bet players)
cleared-Seated players s k p at =
    let (old, was, same) = get_elem?-map_inv clear_bet k players p at in
    ap (λ (x : Player). x.idx) same ∙ (clear_bet-keeps old).2 ∙ s k old was

cleared-bet :
    (players : List Player) (k : ℕ) (p : Player)
    → get_elem? (map clear_bet players) k ≡ some p
    → p.bet ≡ 0
cleared-bet players k p at =
    let (old, was, same) = get_elem?-map_inv clear_bet k players p at in
    ap (λ (x : Player). x.bet) same ∙ (clear_bet-keeps old).3

clear_street-Continues : (e : Engine) → Inv e → Continues e (clear_street e)
clear_street-Continues e v = record {
  inv = record {
    blinds = v.blinds;
    opened = record {
      seated = cleared-Seated e.players v.opened.seated;
      covered = λ k p at. omega (arith, cleared-bet e.players k p at);
      movers = λ k h.
          let (p, at, able) = v.opened.movers k h in
          (clear_bet p, get_elem?-map clear_bet k e.players p at, (clear_bet-keeps p).4 ∙ able);
      pending = λ k p at able less. absurd (omega arith);
      least = v.blinds;
    };
    turn =
        subst (λ n. TurnOf n e.need_to_act e.actor) (sym (length-map clear_bet e.players)) v.turn;
  };
  money = total-map_keeps chips clear_bet e.players (λ p. (clear_bet-keeps p).0);
  cards = λ m.
      ap (λ n. total m (undealt e.deck) + total m e.board + n)
        (total-map_keeps (λ (p : Player). total m p.hole) clear_bet e.players
          (λ p. ap (total m) (clear_bet-keeps p).1));
  same_length = length-map clear_bet e.players;
}

-- Opening the round of a street leaves chips and cards where they are.
show_board-Continues : (e f : Engine) → Inv e → show_board e ≡ ok f → Continues e f
unfolding show_board emit
show_board-Continues e f v h = elim (Bool-cases (ltb 0 (length e.players))) [
  | inl some_seat ↦ subst (Continues e) (ok-injective (rw some_seat at h)) (opened (ground arith))
  | inr empty ↦ absurd (refused (rw empty at h))
]
  where
    shown : Engine
    shown = emit (Event.deal_board 1 e.board) e

    first : ℕ
    first = (e.button + 1) % length e.players

    refused : ◌≡◌ {A = Result Fault Engine} (err no_seat) (ok f) → ⊥
    refused g = cc

    opened : 0 < length e.players → Continues e (open_round first shown)
    opened some_seat = record {
      inv = open_round-Inv first shown (record {
        some_seat = some_seat;
        blinds = v.blinds;
        least = v.opened.least;
        seated = v.opened.seated;
        covered = v.opened.covered;
      });
      money = refl;
      cards = λ m. refl;
      same_length = refl;
    }

Continues-trans : {e f g : Engine} → Continues e f → Continues f g → Continues e g
Continues-trans a b = record {
  inv = b.inv;
  money = b.money ∙ a.money;
  cards = λ m. b.cards m ∙ a.cards m;
  same_length = b.same_length ∙ a.same_length;
}

abbrev with_cards : Engine → List Card → List Card → Street → Engine
with_cards e left dealt street = record e {
  deck = some left;
  board = e.board ++ dealt;
  street = street;
}

with_cards-Continues :
    (n : ℕ) (cards dealt left : List Card) (street : Street) (e : Engine)
    → Inv e
    → e.deck ≡ some cards
    → deal n cards ≡ ok (dealt, left)
    → Continues e (with_cards e left dealt street)
with_cards-Continues n cards dealt left street e v has_deck h = record {
  inv = record { blinds = v.blinds; opened = v.opened; turn = v.turn };
  money = refl;
  cards = λ m.
      let whole = ap (λ d. total m (undealt d)) has_deck in
      omega (arith, (deal-total m n cards dealt left h).1, total-append m e.board dealt);
  same_length = refl;
}

deal_street-Continues :
    (n : ℕ) (street : Street) (e f : Engine) → Inv e → deal_street n street e ≡ ok f → Continues e f
unfolding deal_street
deal_street-Continues n street e f v h =
    let (cards, is_deck, rest) = >>=-eq-ok (or_raise e.deck short_deck) _ h in
    dealing cards (or_raise-eq-ok e.deck short_deck is_deck) (deal n cards) refl rest
  where
    dealing :
        (cards : List Card)
        → e.deck ≡ some cards
        → (r : Result Error (List Card × List Card)) → deal n cards ≡ r
        → elim r as (λ _. Result Fault Engine) [
          | err short ↦ err short_deck
          | ok (dealt, left) ↦ show_board (with_cards e left dealt street)
        ]
          ≡ ok f
        → Continues e f
    dealing cards has_deck (err short) is g = cc
    dealing cards has_deck (ok (dealt, left)) is g =
        let more = with_cards-Continues n cards dealt left street e v has_deck is in
        Continues-trans more (show_board-Continues (with_cards e left dealt street) f more.inv g)

-- A street that opens keeps the invariant of betting, the chips of the table, and every card of
-- the deck, the board and the hands by every count of cards, from each of the six streets.
pub next_street-Continues : (e f : Engine) → Inv e → next_street e ≡ ok f → Continues e f
unfolding next_street
next_street-Continues e f v h =
    let cleared = clear_street-Continues e v in go e.street (clear_street e) cleared h
  where
    go :
        (street : Street) (c : Engine)
        → Continues e c
        → elim street as (λ _. Result Fault Engine) [
          | preflop ↦ deal_street 3 flop c
          | flop ↦ deal_street 1 turn c
          | turn ↦ deal_street 1 river c
          | river ↦ ok (record c { street = showdown })
          | idle ↦ show_board c
          | showdown ↦ show_board c
        ]
          ≡ ok f
        → Continues e f
    go preflop c k g = Continues-trans k (deal_street-Continues 3 flop c f k.inv g)
    go flop c k g = Continues-trans k (deal_street-Continues 1 turn c f k.inv g)
    go turn c k g = Continues-trans k (deal_street-Continues 1 river c f k.inv g)
    go river c k g = subst (Continues e) (ok-injective g) (record {
      inv = record { blinds = k.inv.blinds; opened = k.inv.opened; turn = k.inv.turn };
      money = k.money;
      cards = k.cards;
      same_length = k.same_length;
    })
    go idle c k g = Continues-trans k (show_board-Continues c f k.inv g)
    go showdown c k g = Continues-trans k (show_board-Continues c f k.inv g)
