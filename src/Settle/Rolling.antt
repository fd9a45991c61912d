-- ===== src/Settle/Rolling.antt =====
-- Lemmas on what `next_street` leaves as it is, for step 2 of `settle`.
use texas_holdem.Base.{
  ℕ, zero, suc, ◌+◌, ◌≤◌, ◌≡◌, refl, ap, subst, ◌∙◌, Bool, ◌||◌, Option, none, some, List, [], ◌∷◌,
  ◌++◌, map, ltb, arith, Bool-cases, inl, inr, length, total, Result, ok, err, >>=-eq-ok,
  ok-injective, or_raise, or_raise-eq-ok, total-append,
}
use texas_holdem.Cards.{Card, Error, deal}
use texas_holdem.Table.{Player, Engine, Street, idle, preflop, flop, turn, river, showdown, emit}
use texas_holdem.Betting.{open_round}
use texas_holdem.Positions.{Fault, no_seat, short_deck}
use texas_holdem.Cards.Dealing.{deal-total}
use texas_holdem.Streets.Board.{undealt}
use texas_holdem.Streets.{
  clear_bet, clear_street, show_board, deal_street, next_street, complete_board,
}

-- What settling reads of a player.
pub record Core : Type 0 where
  pub stack : ℕ
  pub live : ℕ
  pub dead : ℕ
  pub idx : ℕ
  pub hole : List Card
  pub folded : Bool
  pub in_seat : Bool

abbrev pub core : Player → Core
core p = record {
  stack = p.stack;
  live = p.total_live;
  dead = p.total_dead;
  idx = p.idx;
  hole = p.hole;
  folded = p.folded;
  in_seat = p.in_seat;
}

pub record Rolls (e f : Engine) : Type 0 where
  pub cores : map core f.players ≡ map core e.players
  pub same_button : f.button ≡ e.button
  pub cards :
      (m : Card → ℕ)
      → total m (undealt f.deck) + total m f.board ≡ total m (undealt e.deck) + total m e.board

Rolls-refl : (e : Engine) → Rolls e e
Rolls-refl e = record { cores = refl; same_button = refl; cards = λ m. refl }

Rolls-trans : {e f g : Engine} → Rolls e f → Rolls f g → Rolls e g
Rolls-trans a b = record {
  cores = b.cores ∙ a.cores;
  same_button = b.same_button ∙ a.same_button;
  cards = λ m. b.cards m ∙ a.cards m;
}

clear_bet-core : (p : Player) → core (clear_bet p) ≡ core p
clear_bet-core p = elim (Bool-cases (p.folded || p.all_in)) [
  | inl out ↦ rw out refl
  | inr playing ↦ rw playing refl
]

cleared : (players : List Player) → map core (map clear_bet players) ≡ map core players
cleared [] = refl
cleared (p ∷ players) = λ i. clear_bet-core p i ∷ cleared players i

clear_street-Rolls : (e : Engine) → Rolls e (clear_street e)
clear_street-Rolls e = record { cores = cleared e.players; same_button = refl; cards = λ m. refl }

show_board-Rolls : (e f : Engine) → show_board e ≡ ok f → Rolls e f
unfolding show_board open_round emit
show_board-Rolls e f h = elim (Bool-cases (ltb 0 (length e.players))) [
  | inl some_seat ↦
      subst (Rolls e) (ok-injective (rw some_seat at h))
        (record { cores = refl; same_button = refl; cards = λ m. refl })
  | inr empty ↦ absurd (refused (rw empty at h))
]
  where
    refused : ◌≡◌ {A = Result Fault Engine} (err no_seat) (ok f) → ⊥
    refused g = cc

abbrev with_cards : Engine → List Card → List Card → Street → Engine
with_cards e left dealt street = record e {
  deck = some left;
  board = e.board ++ dealt;
  street = street;
}

with_cards-Rolls :
    (n : ℕ) (cards dealt left : List Card) (street : Street) (e : Engine)
    → e.deck ≡ some cards
    → deal n cards ≡ ok (dealt, left)
    → Rolls e (with_cards e left dealt street)
with_cards-Rolls n cards dealt left street e has_deck h = record {
  cores = refl;
  same_button = refl;
  cards = λ m.
      let whole = ap (λ d. total m (undealt d)) has_deck in
      omega (arith, (deal-total m n cards dealt left h).1, total-append m e.board dealt);
}

deal_street-Rolls :
    (n : ℕ) (street : Street) (e f : Engine) → deal_street n street e ≡ ok f → Rolls e f
unfolding deal_street
deal_street-Rolls n street e f h =
    let (cards, is_deck, rest) = >>=-eq-ok (or_raise e.deck short_deck) _ h in
    dealing cards (or_raise-eq-ok e.deck short_deck is_deck) (deal n cards) refl rest
  where
    dealing :
        (cards : List Card)
        → e.deck ≡ some cards
        → (r : Result Error (List Card × List Card)) → deal n cards ≡ r
        → elim r as (λ _. Result Fault Engine) [
          | err short ↦ err short_deck
          | ok (dealt, left) ↦ show_board (with_cards e left dealt street)
        ]
          ≡ ok f
        → Rolls e f
    dealing cards has_deck (err short) is g = cc
    dealing cards has_deck (ok (dealt, left)) is g =
        Rolls-trans (with_cards-Rolls n cards dealt left street e has_deck is)
          (show_board-Rolls (with_cards e left dealt street) f g)

next_street-Rolls : (e f : Engine) → next_street e ≡ ok f → Rolls e f
unfolding next_street
next_street-Rolls e f h = go e.street (clear_street e) (clear_street-Rolls e) h
  where
    go :
        (street : Street) (c : Engine)
        → Rolls e c
        → elim street as (λ _. Result Fault Engine) [
          | preflop ↦ deal_street 3 flop c
          | flop ↦ deal_street 1 turn c
          | turn ↦ deal_street 1 river c
          | river ↦ ok (record c { street = showdown })
          | idle ↦ show_board c
          | showdown ↦ show_board c
        ]
          ≡ ok f
        → Rolls e f
    go preflop c k g = Rolls-trans k (deal_street-Rolls 3 flop c f g)
    go flop c k g = Rolls-trans k (deal_street-Rolls 1 turn c f g)
    go turn c k g = Rolls-trans k (deal_street-Rolls 1 river c f g)
    go river c k g =
        subst (Rolls e) (ok-injective g)
          (record { cores = k.cores; same_button = k.same_button; cards = k.cards })
    go idle c k g = Rolls-trans k (show_board-Rolls c f g)
    go showdown c k g = Rolls-trans k (show_board-Rolls c f g)

-- The loop that completes the board ends with five cards on it.
pub complete_board-Rolls :
    (fuel : ℕ) (e f : Engine)
    → complete_board fuel e ≡ some (ok f)
    → Rolls e f × (5 ≤ length f.board)
unfolding complete_board
complete_board-Rolls zero e f h = elim (Bool-cases (ltb (length e.board) 5)) [
  | inl short ↦ absurd (never (rw short at h))
  | inr done ↦
      let same : e ≡ f = ok-injective (some_same (rw done at h)) in
      subst (λ g. Rolls e g × (5 ≤ length g.board)) same (Rolls-refl e, ground arith)
]
  where
    never : ◌≡◌ {A = Option (Result Fault Engine)} none (some (ok f)) → ⊥
    never g = cc

    some_same :
        ◌≡◌ {A = Option (Result Fault Engine)} (some (ok e)) (some (ok f))
        → ◌≡◌ {A = Result Fault Engine} (ok e) (ok f)
    some_same g = cc
complete_board-Rolls (suc fuel) e f h = elim (Bool-cases (ltb (length e.board) 5)) [
  | inl short ↦ go (λ after. complete_board-Rolls fuel after f) (next_street e) refl (rw short at h)
  | inr done ↦
      let same : e ≡ f = ok-injective (some_same (rw done at h)) in
      subst (λ g. Rolls e g × (5 ≤ length g.board)) same (Rolls-refl e, ground arith)
]
  where
    some_same :
        ◌≡◌ {A = Option (Result Fault Engine)} (some (ok e)) (some (ok f))
        → ◌≡◌ {A = Result Fault Engine} (ok e) (ok f)
    some_same g = cc

    go :
        ((after : Engine)
          → complete_board fuel after ≡ some (ok f)
          → Rolls after f × (5 ≤ length f.board))
        → (r : Result Fault Engine) → next_street e ≡ r
        → elim r as (λ _. Option (Result Fault Engine)) [
          | err fault ↦ some (err fault)
          | ok after ↦ complete_board fuel after
        ]
          ≡ some (ok f)
        → Rolls e f × (5 ≤ length f.board)
    go later (err fault) is g = cc
    go later (ok after) is g =
        let (rolls, five) = later after g in
        (Rolls-trans (next_street-Rolls e after is) rolls, five)
