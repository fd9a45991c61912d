-- ===== src/Cards.antt =====
-- `Card`, `FULL_DECK` and `Deck` of holdem/engine.py. A deck is the list `cards`, dealt from its end.
pub mod Dealing
use texas_holdem.Base.{
  ℕ, zero, suc, ◌-◌, Bool, true, false, ◌&&◌, Option, none, some, List, [], ◌∷◌, ◌++◌, map, reverse,
  leb, ltb, ◌==◌, if◌then◌else◌, length, get_elem?, take, drop, range_from, Result, ok, err,
}

-- `v` is 2..14 and `s` is 0..3.
pub record Card : Type 0 where
  pub v : ℕ
  pub s : ℕ

abbrev pub suits_of : ℕ → List Card
suits_of v = map (λ s. record { v = v; s = s }) (range_from 0 4)

abbrev pub deck_from : List ℕ → List Card
deck_from [] = []
deck_from (v ∷ vs) = suits_of v ++ deck_from vs

-- `[Card(v, s) for v in range(2, 15) for s in range(4)]`
unfoldable pub full_deck : List Card
full_deck = deck_from (range_from 2 13)

pub data Error : Type 0 where
  too_few : Error
  not_permutation : Error

-- `sorted(indices)`
unfoldable pub insert_up : ℕ → List ℕ → List ℕ
insert_up a [] = a ∷ []
insert_up a (x ∷ xs) = if leb a x then a ∷ x ∷ xs else x ∷ insert_up a xs

unfoldable pub sort_up : List ℕ → List ℕ
unfolding insert_up
sort_up [] = []
sort_up (x ∷ xs) = insert_up x (sort_up xs)

abbrev pub same_list : List ℕ → List ℕ → Bool
same_list [] [] = true
same_list [] (y ∷ ys) = false
same_list (x ∷ xs) [] = false
same_list (x ∷ xs) (y ∷ ys) = (x == y) && same_list xs ys

-- `[cards[i] for i in indices]`; an index past the end would raise.
unfoldable pub pick : List Card → List ℕ → Option (List Card)
pick cards [] = some []
pick cards (i ∷ indices) = pick_one (get_elem? cards i) (pick cards indices)
  where
    pick_one : Option Card → Option (List Card) → Option (List Card)
    pick_one (some c) (some rest) = some (c ∷ rest)
    pick_one _ _ = none

-- `Deck.from_indices`. Negative and fractional indices are excluded by the type.
unfoldable pub from_indices : List ℕ → Result Error (List Card)
unfolding sort_up pick full_deck
from_indices indices =
    if (length indices == length full_deck)
      && same_list (sort_up indices) (range_from 0 (length full_deck))
    then elim (pick full_deck (reverse indices)) [
      | none ↦ err not_permutation
      | some cards ↦ ok cards
    ]
    else err not_permutation

-- `Deck.deal(n)`: the last `n` cards, and the deck without them.
unfoldable pub deal : ℕ → List Card → Result Error (List Card × List Card)
deal n cards =
    if ltb (length cards) n
    then err too_few
    else ok (drop (length cards - n) cards, take (length cards - n) cards)
