-- ===== src/DealMap.antt =====
-- holdem/p2p/deal_map.py: which seat or board slot each position of the shuffled deck goes to, and
-- the two card numberings, the suit-major labels of the mental-poker deck and the rank-major
-- indices of the engine's `FULL_DECK`.
pub mod Numbering
pub mod Ring
pub mod Counting
pub mod Agreement
use texas_holdem.Base.{
  ℕ, zero, suc, ◌+◌, ◌*◌, ◌/◌, ◌%◌, max, Bool, false, ◌&&◌, Option, none, some, List, [], ◌∷◌, ◌++◌,
  map, length, mem, ltb, ◌==◌, if◌then◌else◌, Result, ok, err, ◌>>◌, guard,
}
use texas_holdem.Pots.{seat_set}

pub data Error : Type 0 where
  out_of_range : Error

-- `elgamal_to_engine_index`
unfoldable pub elgamal_to_engine_index : ℕ → Result Error ℕ
elgamal_to_engine_index idx = do guard (ltb idx 52) out_of_range; ok (idx % 13 * 4 + idx / 13)

-- `engine_to_elgamal_index`
unfoldable pub engine_to_elgamal_index : ℕ → Result Error ℕ
engine_to_elgamal_index idx = do guard (ltb idx 52) out_of_range; ok (idx % 4 * 13 + idx / 4)

-- `card_label`: the positions in `_RANKS` and in `_SUITS`.
unfoldable pub card_label : ℕ → Result Error (ℕ × ℕ)
card_label idx = do guard (ltb idx 52) out_of_range; ok (idx % 13, idx / 13)

-- A destination; the `seat` of a board slot is -1 and is left out.
pub data Destination : Type 0 where
  hole : (seat ordinal : ℕ) → Destination
  board : (ordinal : ℕ) → Destination

-- `max(seated)`, and 0 for no seat.
abbrev pub max_seat : List ℕ → ℕ
max_seat [] = 0
max_seat (i ∷ seats) = max i (max_seat seats)

-- The loop of `seat_deal_order`: `found` is `len(order)`.
unfoldable pub deal_walk : ℕ → List ℕ → ℕ → ℕ → ℕ → List ℕ
unfolding seat_set
deal_walk ring seats j found zero = []
deal_walk ring seats j found (suc rounds) =
    let next = (j + 1) % ring in
    let count = length (seat_set seats) in
    let rest = deal_walk ring seats next found rounds in
    let later = deal_walk ring seats next (suc found) rounds in
    if mem next seats
    then next ∷ (if suc found == count then [] else later)
    else if found == count
    then []
    else rest

-- `seat_deal_order`
unfoldable pub seat_deal_order : ℕ → List ℕ → List ℕ
unfolding deal_walk
seat_deal_order button [] = []
seat_deal_order button (i ∷ seats) =
    let ring = suc (max (max_seat (i ∷ seats)) button) in deal_walk ring (i ∷ seats) button 0 ring

-- `deal_map`
abbrev pub board_slots : List Destination
board_slots = board 2 ∷ board 1 ∷ board 0 ∷ board 3 ∷ board 4 ∷ []

unfoldable pub deal_map : ℕ → List ℕ → List Destination
unfolding seat_deal_order
deal_map button seats =
    let order = seat_deal_order button seats in
    map (λ seat. hole seat 0) order ++ map (λ seat. hole seat 1) order ++ board_slots

-- The last position of a destination with `test`, counted from `pos`: a dict keeps the last.
unfoldable pub position_of : (Destination → Bool) → ℕ → List Destination → Option ℕ
position_of test pos [] = none
position_of test pos (d ∷ destinations) = elim (position_of test (suc pos) destinations) [
  | some later ↦ some later
  | none ↦ if test d then some pos else none
]

abbrev pub is_hole : ℕ → ℕ → Destination → Bool
is_hole seat ordinal (hole s o) = (s == seat) && (o == ordinal)
is_hole seat ordinal (board o) = false

abbrev pub is_board : ℕ → Destination → Bool
is_board ordinal (hole s o) = false
is_board ordinal (board o) = o == ordinal

-- `hole_positions`, at one seat: `None` where no card of the seat is dealt.
abbrev pub hole_positions : ℕ → List ℕ → ℕ → List (Option ℕ)
hole_positions button seats seat =
    let destinations = deal_map button seats in
    position_of (is_hole seat 0) 0 destinations ∷ position_of (is_hole seat 1) 0 destinations ∷ []

-- `board_positions`; a missing slot would be a KeyError.
abbrev pub board_positions : ℕ → List ℕ → List (Option ℕ)
board_positions button seats =
    map (λ k. position_of (is_board k) 0 (deal_map button seats)) (0 ∷ 1 ∷ 2 ∷ 3 ∷ 4 ∷ [])
