-- ===== src/Positions.antt =====
-- Who is dealt in, the dead-button rule and the life of a seat between hands: `_dealt`,
-- `_blind_eligible`, `_advance_positions`, `add_chips`, `sit_out` and `sit_in` of holdem/engine.py.
pub mod Advance
use texas_holdem.Base.{
  ℕ, zero, suc, ◌+◌, ◌%◌, Bool, true, false, ◌&&◌, ◌||◌, not, Option, none, some, List, [], ◌∷◌,
  ltb, ◌==◌, if◌then◌else◌, length, get_elem?, keep, modify, Result, ok, err, ◌>>=◌, or_raise,
}
use texas_holdem.Table.{Player, Engine, Positions, Street, idle, next_seat}

-- A Python error that no caller handles: an index of `None`, or a deck that is too short.
pub data Fault : Type 0 where
  no_seat : Fault
  short_deck : Fault

-- `_blind_eligible`
abbrev pub blind_eligible : Bool → Player → Bool
blind_eligible deal_sitting_out p = ltb 0 p.stack && not (p.sitting_out && not deal_sitting_out)

-- `_dealt`
abbrev pub is_dealt : Bool → Player → Bool
is_dealt deal_sitting_out p =
    blind_eligible deal_sitting_out p && not (p.wait_for_bb && not p.post_entry)

-- The scan for the big blind: a seat with chips that is skipped while its player is away owes it.
unfoldable pub scan_blind : Bool → ℕ → ℕ → ℕ → ℕ → List Player → Option ℕ × List Player
scan_blind out n prev k zero players = (none, players)
scan_blind out n prev k (suc rounds) players = elim (get_elem? players ((prev + k) % n)) [
  | none ↦ (none, players)
  | some q ↦ elim (blind_eligible out q) [
    | true ↦ (some ((prev + k) % n), players)
    | false ↦ scan_blind out n prev (k + 1) rounds (
        if ltb 0 q.stack && q.sitting_out
        then modify ((prev + k) % n) (λ p. record p { owes_bb = true }) players
        else players)
  ]
]

abbrev pub place : Engine → List Player → ℕ → Option ℕ → Option ℕ → Engine
place e players button sb bb = record e {
  players = players;
  positions = record e.positions { button = button; sb_seat = sb; bb_seat = bb };
}

-- The first hand of a table.
unfoldable pub first_positions : Engine → Result Fault Engine
unfolding next_seat
first_positions e = do
  let dealt = is_dealt e.deal_sitting_out
  button ← or_raise (next_seat e.players e.button dealt) no_seat
  if length (keep dealt e.players) == 2
      then ok (place e e.players button (some button) (next_seat e.players button dealt))
      else (do
        sb ← or_raise (next_seat e.players button dealt) no_seat
        ok (place e e.players button (some sb) (next_seat e.players sb dealt)))

abbrev pub first_other : ℕ → List Player → Option ℕ
first_other seat [] = none
first_other seat (p ∷ players) = if p.idx == seat then first_other seat players else some p.idx

-- The seat that the big blind has reached owes and waits no more.
abbrev pub reached : Player → Player
reached q = record q { wait_for_bb = false; owes_bb = false; owes_sb = false }

-- A small blind that falls on a seat that is away is owed.
abbrev pub miss_small : Bool → Player → Player
miss_small out p =
    if ltb 0 p.stack && p.sitting_out && not out then record p { owes_sb = true } else p

abbrev pub or_keep : Option ℕ → ℕ → ℕ
or_keep none old = old
or_keep (some i) old = i

-- A later hand: the big blind moves to the next eligible seat, and the others trail it.
unfoldable pub later_positions : Engine → ℕ → Result Fault Engine
unfolding scan_blind
later_positions e prev_bb = do
  let out = e.deal_sitting_out
  let (found, scanned) = scan_blind out (length e.players) prev_bb 1 (length e.players) e.players
  new_bb ← or_raise found no_seat
  let players = modify new_bb reached scanned
  let dealt = keep (is_dealt out) players
  if length dealt == 2
      then (do
        other ← or_raise (first_other new_bb dealt) no_seat
        ok (place e players other (some other) (some new_bb)))
      else ok (
          place e (modify prev_bb (miss_small out) players) (or_keep e.sb_seat e.button)
            (some prev_bb) (some new_bb))

-- `_advance_positions`
unfoldable pub advance_positions : Engine → Result Fault Engine
unfolding first_positions later_positions
advance_positions e = elim e.bb_seat [
  | none ↦ first_positions e
  | some prev_bb ↦ later_positions e prev_bb
]

abbrev pub is_idle : Street → Bool
is_idle idle = true
is_idle _ = false

-- `add_chips`, for an amount that is a natural number; the Boolean is the result.
unfoldable pub add_chips : ℕ → ℕ → Engine → Bool × Engine
add_chips i amount e =
    if is_idle e.street && ltb 0 amount
    then (
      true,
      record e { players = modify i (λ p. record p { stack = p.stack + amount }) e.players },
    )
    else (false, e)

-- `sit_out`
unfoldable pub sit_out : ℕ → Engine → Engine
sit_out i e = record e { players = modify i (λ p. record p { sitting_out = true }) e.players }

abbrev pub seat_again : Bool → Player → Player
seat_again post_now p =
    if p.owes_bb || p.owes_sb
    then (if post_now
        then record p { sitting_out = false; post_entry = true }
        else record p { sitting_out = false; wait_for_bb = true })
    else record p { sitting_out = false }

-- `sit_in`
unfoldable pub sit_in : ℕ → Bool → Engine → Engine
sit_in i post_now e = record e { players = modify i (seat_again post_now) e.players }
