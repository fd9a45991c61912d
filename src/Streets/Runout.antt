-- ===== src/Streets/Runout.antt =====
-- Theorems on `peek_runout` and the streets that `next_street` deals.
use mathlib.Core.List.{append-nil, append_assoc}
use texas_holdem.Base.{
  ℕ, zero, suc, ◌+◌, ◌-◌, ◌%◌, ◌≤◌, ◌<◌, ◌≡◌, refl, sym, ◌∙◌, ap, subst, true, false, Option, none,
  some, List, [], ◌∷◌, ◌++◌, map, ltb, length, length-map, length-append, length-drop, length-take,
  drop, take, Result, ok, err, arith,
}
use texas_holdem.Cards.{Card, Error, deal}
use texas_holdem.Table.{Engine, Street, idle, preflop, flop, turn, river, showdown, emit, Event}
use texas_holdem.Betting.{open_round}
use texas_holdem.Positions.{Fault, short_deck}
use texas_holdem.Streets.{
  clear_bet, clear_street, show_board, deal_street, next_street, complete_board, first_count,
  peek_runout,
}

-- The cards on the board on each street of a hand.
abbrev pub board_size : Street → Option ℕ
board_size preflop = some 0
board_size flop = some 3
board_size turn = some 4
board_size river = some 5
board_size _ = none

abbrev top : ℕ → List Card → List Card
top n cards = drop (length cards - n) cards

abbrev below : ℕ → List Card → List Card
below n cards = take (length cards - n) cards

-- A street that was dealt from a deck of `cards`.
record Dealt (n : ℕ) (street : Street) (cards : List Card) (e f : Engine) : Type 0 where
  pub board : f.board ≡ e.board ++ top n cards
  pub deck : f.deck ≡ some (below n cards)
  pub street_is : f.street ≡ street
  pub seats : length f.players ≡ length e.players

abbrev opened : ℕ → Street → List Card → Engine → Engine
opened n street cards e =
    let dealt = record (clear_street e) {
      deck = some (below n cards);
      board = e.board ++ top n cards;
      street = street;
    } in
    open_round ((dealt.button + 1) % length dealt.players)
      (emit (Event.deal_board 1 dealt.board) dealt)

deal-enough :
    (n : ℕ) (cards : List Card) → n ≤ length cards → deal n cards ≡ ok (top n cards, below n cards)
unfolding deal
deal-enough n cards fits =
    let enough : ltb (length cards) n ≡ false = ground arith in rw enough refl

deal_street-opened :
    (n : ℕ) (street : Street) (cards : List Card) (e : Engine)
    → 0 < length e.players
    → e.deck ≡ some cards
    → n ≤ length cards
    → deal_street n street (clear_street e) ≡ ok (opened n street cards e)
unfolding deal_street show_board
deal_street-opened n street cards e some_seat has_deck fits =
    let seats = length-map clear_bet e.players in
    let open_table : ltb 0 (length (map clear_bet e.players)) ≡ true = ground arith in
    rw has_deck (
      subst (λ r. dealing r ≡ ok (opened n street cards e)) (sym (deal-enough n cards fits))
        (rw open_table refl))
  where
    dealing : Result Error (List Card × List Card) → Result Fault Engine
    dealing (err short_of) = err short_deck
    dealing (ok (dealt, left)) =
        show_board
          (record (clear_street e) { deck = some left; board = e.board ++ dealt; street = street })

opened-Dealt :
    (n : ℕ) (street : Street) (cards : List Card) (e : Engine)
    → Dealt n street cards e (opened n street cards e)
unfolding open_round emit
opened-Dealt n street cards e = record {
  board = refl;
  deck = refl;
  street_is = refl;
  seats = length-map clear_bet e.players;
}

-- One turn of the loop of `settle`, on a street that deals cards.
step :
    (fuel n : ℕ) (street : Street) (cards : List Card) (e : Engine)
    → 0 < length e.players
    → length e.board < 5
    → next_street e ≡ deal_street n street (clear_street e)
    → e.deck ≡ some cards
    → n ≤ length cards
    → complete_board (suc fuel) e ≡ complete_board fuel (opened n street cards e)
unfolding complete_board
step fuel n street cards e some_seat short moves has_deck fits =
    let more : ltb (length e.board) 5 ≡ true = ground arith in
    let dealt = moves ∙ deal_street-opened n street cards e some_seat has_deck fits in
    rw (more, dealt) refl

-- The board that the loop completes.
abbrev Completes : ℕ → Engine → List Card → Type 0
Completes fuel e more =
    (f : Engine) × (complete_board fuel e ≡ some (ok f)) × (f.board ≡ e.board ++ more)

at_river : (fuel : ℕ) (e : Engine) → length e.board ≡ 5 → Completes fuel e []
unfolding complete_board
at_river zero e five =
    let done : ltb (length e.board) 5 ≡ false = ground arith in
    (e, rw done refl, sym (append-nil e.board))
at_river (suc fuel) e five =
    let done : ltb (length e.board) 5 ≡ false = ground arith in
    (e, rw done refl, sym (append-nil e.board))

-- From one street to the next, where the rest of the loop completes the board.
extend :
    (fuel n : ℕ) (street : Street) (cards more : List Card) (e : Engine)
    → 0 < length e.players
    → length e.board < 5
    → next_street e ≡ deal_street n street (clear_street e)
    → e.deck ≡ some cards
    → n ≤ length cards
    → Completes fuel (opened n street cards e) more
    → Completes (suc fuel) e (top n cards ++ more)
extend fuel n street cards more e some_seat short moves has_deck fits (f, runs, board) = (
  f,
  step fuel n street cards e some_seat short moves has_deck fits ∙ runs,
  board
      ∙ ap (λ b. b ++ more) (opened-Dealt n street cards e).board
      ∙ append_assoc e.board (top n cards) more,
)

from_turn :
    (fuel : ℕ) (cards : List Card) (e : Engine)
    → 0 < length e.players
    → e.street ≡ turn
    → length e.board ≡ 4
    → e.deck ≡ some cards
    → 1 ≤ length cards
    → Completes (suc fuel) e (top 1 cards ++ [])
unfolding next_street
from_turn fuel cards e some_seat street size has_deck fits =
    let d = opened-Dealt 1 river cards e in
    extend fuel 1 river cards [] e some_seat (omega arith) (rw street refl) has_deck fits (
      at_river fuel (opened 1 river cards e) (
        ap length d.board
        ∙ length-append e.board (top 1 cards)
        ∙ omega (arith, length-drop (length cards - 1) cards)))

from_flop :
    (fuel : ℕ) (cards : List Card) (e : Engine)
    → 0 < length e.players
    → e.street ≡ flop
    → length e.board ≡ 3
    → e.deck ≡ some cards
    → 2 ≤ length cards
    → Completes (suc (suc fuel)) e (top 1 cards ++ (top 1 (below 1 cards) ++ []))
unfolding next_street
from_flop fuel cards e some_seat street size has_deck fits =
    let d = opened-Dealt 1 turn cards e in
    extend (suc fuel) 1 turn cards _ e some_seat (omega arith) (rw street refl) has_deck
      (omega arith)
      (from_turn fuel (below 1 cards) (opened 1 turn cards e) (omega (arith, d.seats)) d.street_is
        (ap length d.board
          ∙ length-append e.board (top 1 cards)
          ∙ omega (arith, length-drop (length cards - 1) cards))
        d.deck (omega (arith, length-take (length cards - 1) cards)))

from_preflop :
    (fuel : ℕ) (cards : List Card) (e : Engine)
    → 0 < length e.players
    → e.street ≡ preflop
    → length e.board ≡ 0
    → e.deck ≡ some cards
    → 5 ≤ length cards
    → Completes
        (suc (suc (suc fuel)))
        e
        (top 3 cards ++ (top 1 (below 3 cards) ++ (top 1 (below 1 (below 3 cards)) ++ [])))
unfolding next_street
from_preflop fuel cards e some_seat street size has_deck fits =
    let d = opened-Dealt 3 flop cards e in
    extend (suc (suc fuel)) 3 flop cards _ e some_seat (omega arith) (rw street refl) has_deck
      (omega arith)
      (from_flop fuel (below 3 cards) (opened 3 flop cards e) (omega (arith, d.seats)) d.street_is
        (ap length d.board
          ∙ length-append e.board (top 3 cards)
          ∙ omega (arith, length-drop (length cards - 3) cards))
        d.deck (omega (arith, length-take (length cards - 3) cards)))

first_count-none : (board : List Card) → length board ≡ 0 → first_count board ≡ 3
first_count-none [] h = refl
first_count-none (c ∷ board) h = absurd (omega arith)

first_count-some : (board : List Card) → 0 < length board → first_count board ≡ 1
first_count-some [] h = elim h [ ]
first_count-some (c ∷ board) h = refl

peek_three :
    (cards : List Card) (e : Engine)
    → length e.board ≡ 0
    → e.deck ≡ some cards
    → peek_runout e
      ≡ top 3 cards ++ (top 1 (below 3 cards) ++ (top 1 (below 1 (below 3 cards)) ++ []))
unfolding peek_runout
peek_three cards e size has_deck =
    let count = first_count-none e.board size in rw (size, has_deck, count) refl

peek_two :
    (cards : List Card) (e : Engine)
    → length e.board ≡ 3
    → e.deck ≡ some cards
    → peek_runout e ≡ top 1 cards ++ (top 1 (below 1 cards) ++ [])
unfolding peek_runout
peek_two cards e size has_deck =
    let count = first_count-some e.board (omega arith) in rw (size, has_deck, count) refl

peek_one :
    (cards : List Card) (e : Engine)
    → length e.board ≡ 4
    → e.deck ≡ some cards
    → peek_runout e ≡ top 1 cards ++ []
unfolding peek_runout
peek_one cards e size has_deck =
    let count = first_count-some e.board (omega arith) in rw (size, has_deck, count) refl

peek_full : (e : Engine) → length e.board ≡ 5 → peek_runout e ≡ []
unfolding peek_runout
peek_full e size = rw size refl

-- The rabbit hunt shows the cards that would have come: on every street of a hand whose board has
-- the street's number of cards, with enough cards in the deck and a seat at the table, the loop
-- that completes the board ends within three streets, without an error, and leaves the board that
-- was there with the cards of `peek_runout` after it.
pub complete_board-peek_runout :
    (cards : List Card) (e : Engine)
    → 0 < length e.players
    → board_size e.street ≡ some (length e.board)
    → e.deck ≡ some cards
    → 5 - length e.board ≤ length cards
    → (f : Engine) × (complete_board 3 e ≡ some (ok f)) × (f.board ≡ e.board ++ peek_runout e)
complete_board-peek_runout cards e some_seat size has_deck fits = go e.street refl size
  where
    go :
        (street : Street)
        → e.street ≡ street
        → board_size street ≡ some (length e.board)
        → Completes 3 e (peek_runout e)
    go preflop is h =
        let none_yet : length e.board ≡ 0 = cc in
        rw (peek_three cards e none_yet has_deck)
          (from_preflop 0 cards e some_seat is none_yet has_deck (omega arith))
    go flop is h =
        let three : length e.board ≡ 3 = cc in
        rw (peek_two cards e three has_deck)
          (from_flop 1 cards e some_seat is three has_deck (omega arith))
    go turn is h =
        let four : length e.board ≡ 4 = cc in
        rw (peek_one cards e four has_deck)
          (from_turn 2 cards e some_seat is four has_deck (omega arith))
    go river is h = let five : length e.board ≡ 5 = cc in rw (peek_full e five) (at_river 3 e five)
    go idle is h = cc
    go showdown is h = cc
