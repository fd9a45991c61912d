-- ===== src/Replica/Streets.antt =====
-- The streets of a replica: the cards that `advance_street` deals.
use texas_holdem.Base.{
  ℕ, suc, ◌+◌, ◌-◌, ◌%◌, ◌<◌, ◌≡◌, refl, sym, ap, subst, ◌∙◌, true, false, Option, none, some, List,
  [], ◌∷◌, ◌++◌, length, length-append, length-map, take, drop, ltb, ◌==◌, arith, Bool-cases, inl,
  inr, Result, ok, err,
}
use texas_holdem.Cards.{Card, Error, deal}
use texas_holdem.Table.{Engine, Street, idle, preflop, flop, turn, river, showdown, emit, Event}
use texas_holdem.Betting.{open_round}
use texas_holdem.Positions.{Fault, short_deck}
use texas_holdem.Streets.{clear_bet, clear_street, show_board, deal_street, next_street}
use texas_holdem.Replica.{Live, Replica, recompute_phase, exactly, recovered, is_settled}
use texas_holdem.Replica.Calls.{loaded}
use texas_holdem.Replica.Showdown.{street_cards, advance_street, is_street_over}

recovered-length :
    (cards : List (Option Card)) (out : List Card)
    → recovered cards ≡ some out
    → length out ≡ length cards
recovered-length [] out h = let same : [] ≡ out = cc in ap length (sym same)
recovered-length (none ∷ cards) out h = cc
recovered-length (some c ∷ cards) out h = go (recovered cards) (recovered-length cards) h
  where
    go :
        (rest : Option (List Card))
        → ((left : List Card) → rest ≡ some left → length left ≡ length cards)
        → elim rest as (λ _. Option (List Card)) [ none ↦ none | some rest ↦ some (c ∷ rest) ]
          ≡ some out
        → length out ≡ suc (length cards)
    go none sized e = cc
    go (some rest) sized e =
        let same : c ∷ rest ≡ out = cc in ap length (sym same) ∙ ap suc (sized rest refl)

exactly-length :
    (n : ℕ) (cards : List (Option Card)) (out : List Card)
    → exactly n cards ≡ some out
    → length out ≡ n
exactly-length n cards out h = elim (Bool-cases (length cards == n)) [
  | inl same ↦
      let all : recovered cards ≡ some out = rw same at h in
      let many : length cards ≡ n = ground arith in recovered-length cards out all ∙ many
  | inr other ↦ absurd (never (rw other at h))
]
  where
    never : ◌≡◌ {A = Option (List Card)} none (some out) → ⊥
    never e = cc

drop-append : (xs ys : List Card) → drop (length xs) (xs ++ ys) ≡ ys
drop-append [] ys = refl
drop-append (x ∷ xs) ys = drop-append xs ys

take-append : (xs ys : List Card) → take (length xs) (xs ++ ys) ≡ xs
take-append [] ys = refl
take-append (x ∷ xs) ys = ap (◌∷◌ x) (take-append xs ys)

-- The cards on the tail of the deck are those that are dealt.
tail-deal :
    (deck revealed : List Card) → deal (length revealed) (deck ++ revealed) ≡ ok (revealed, deck)
unfolding deal
tail-deal deck revealed =
    let size = length-append deck revealed in
    let fits : ltb (length (deck ++ revealed)) (length revealed) ≡ false = ground (arith, size) in
    let here : length (deck ++ revealed) - length revealed ≡ length deck = omega (arith, size) in
    rw (fits, here, drop-append deck revealed, take-append deck revealed) refl

-- A street that deals the cards `revealed`, and nothing else of the deck.
abbrev Deals : Engine → List Card → List Card → Street → Result Fault Engine → Type 0
Deals e deck revealed street r =
    (f : Engine) × (r ≡ ok f)
    × (f.board ≡ e.board ++ revealed)
    × (f.deck ≡ some deck)
    × (f.street ≡ street)

deal_street-Deals :
    (e : Engine) (deck revealed : List Card) (n : ℕ) (street : Street)
    → e.deck ≡ some (deck ++ revealed)
    → length revealed ≡ n
    → 0 < length e.players
    → Deals e deck revealed street (deal_street n street e)
unfolding deal_street show_board emit
deal_street-Deals e deck revealed n street has_deck size some_seat =
    let dealt : deal n (deck ++ revealed) ≡ ok (revealed, deck) =
      subst (λ m. deal m (deck ++ revealed) ≡ ok (revealed, deck)) size (tail-deal deck revealed) in
    let seats : ltb 0 (length e.players) ≡ true = ground arith in
    let shows : Result Error (List Card × List Card) → Result Fault Engine = λ d. elim d [
      | err short ↦ err short_deck
      | ok (out, left) ↦
          show_board (record e { deck = some left; board = e.board ++ out; street = street })
    ] in
    let table : Engine = record e {
      deck = some deck;
      board = e.board ++ revealed;
      street = street;
    } in
    let shown : Engine =
      open_round ((e.button + 1) % length e.players)
        (emit (Event.deal_board 1 (e.board ++ revealed)) table) in
    (
      shown,
      rw (has_deck, deal_street) (ap shows dealt ∙ rw (seats, show_board) refl),
      refl,
      refl,
      refl,
    )

-- The street that `next_street` opens.
abbrev pub following : Street → Street
following preflop = flop
following flop = turn
following _ = river

recompute_phase-engine : (l : Live) → (recompute_phase l).engine ≡ l.engine
unfolding recompute_phase
recompute_phase-engine l = elim (Bool-cases (is_settled l.phase)) [
  | inl done ↦ rw done refl
  | inr going ↦ rw going refl
]

next_street-Deals :
    (e : Engine) (deck revealed : List Card) (n : ℕ)
    → street_cards e.street ≡ some n
    → e.deck ≡ some (deck ++ revealed)
    → length revealed ≡ n
    → 0 < length e.players
    → Deals e deck revealed (following e.street) (next_street e)
unfolding next_street
next_street-Deals e deck revealed n has_need has_deck size some_seat = go e.street has_need
  where
    seats : 0 < length (clear_street e).players
    seats = omega (arith, length-map clear_bet e.players)

    count : (a b : ℕ) → ◌≡◌ {A = Option ℕ} (some a) (some b) → a ≡ b
    count a b h = cc

    go :
        (street : Street)
        → street_cards street ≡ some n
        → Deals e deck revealed (following street) (elim street as (λ _. Result Fault Engine) [
          | preflop ↦ deal_street 3 flop (clear_street e)
          | flop ↦ deal_street 1 turn (clear_street e)
          | turn ↦ deal_street 1 river (clear_street e)
          | river ↦ ok (record (clear_street e) { street = showdown })
          | idle ↦ show_board (clear_street e)
          | showdown ↦ show_board (clear_street e)
        ])
    go preflop need =
        deal_street-Deals (clear_street e) deck revealed 3 flop has_deck
          (size ∙ sym (count 3 n need)) seats
    go flop need =
        deal_street-Deals (clear_street e) deck revealed 1 turn has_deck
          (size ∙ sym (count 1 n need)) seats
    go turn need =
        deal_street-Deals (clear_street e) deck revealed 1 river has_deck
          (size ∙ sym (count 1 n need)) seats
    go river need = cc
    go idle need = cc
    go showdown need = cc

-- When a street is over, `advance_street` with as many revealed cards as the next street deals, none
-- missing, succeeds on a table with a seat and a deck: the board gains exactly these cards in their
-- order, the dummy deck is as before, the street is the next one, and no number is used up.
pub advance_street-Deals :
    (cards : List (Option Card)) (r : Replica) (need : ℕ) (revealed deck : List Card)
    → is_street_over r.phase ≡ true
    → street_cards r.engine.street ≡ some need
    → exactly need cards ≡ some revealed
    → r.engine.deck ≡ some deck
    → 0 < length r.engine.players
    → (f : Replica) × (advance_street cards r ≡ ok f)
      × (f.engine.board ≡ r.engine.board ++ revealed)
      × (f.engine.deck ≡ r.engine.deck)
      × (f.engine.street ≡ following r.engine.street)
      × (f.next_seq ≡ r.next_seq)
unfolding advance_street
advance_street-Deals cards r need revealed deck over has_need has_cards has_deck some_seat =
    let e = loaded deck revealed r.engine in
    let (after, dealt, board, same_deck, street) =
      next_street-Deals e deck revealed need has_need refl
        (exactly-length need cards revealed has_cards) some_seat in
    let same = recompute_phase-engine (record r.live { engine = after }) in
    (
      record r { live = recompute_phase (record r.live { engine = after }) },
      rw (over, has_need, has_cards, has_deck, dealt) refl,
      ap (λ (g : Engine). g.board) same ∙ board,
      ap (λ (g : Engine). g.deck) same ∙ same_deck ∙ sym has_deck,
      ap (λ (g : Engine). g.street) same ∙ street,
      refl,
    )
