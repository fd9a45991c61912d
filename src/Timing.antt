-- ===== src/Timing.antt =====
-- holdem/p2p/casual_timing.py: which waits of a table are running, since when, and whether the wall
-- clock has jumped. Times are natural numbers of some unit, and a text is a list of code points.
pub mod Since
use texas_holdem.Base.{
  ℕ, zero, suc, ◌+◌, ◌-◌, Bool, true, false, ◌&&◌, ◌||◌, not, Option, none, some, List, [], ◌∷◌,
  map, ltb, leb, ◌==◌, if◌then◌else◌, any, all, keep,
}

pub record WaitToken : Type 0 where
  pub hand : ℕ
  pub phase : List ℕ
  pub actor : ℕ
  pub action_seq : ℕ
  pub detail : List ℕ

-- The equality of a frozen dataclass.
abbrev pub same_text : List ℕ → List ℕ → Bool
same_text [] [] = true
same_text (x ∷ xs) (y ∷ ys) = (x == y) && same_text xs ys
same_text _ _ = false

abbrev pub same_token : WaitToken → WaitToken → Bool
same_token a b =
    (a.hand == b.hand)
    && same_text a.phase b.phase
    && (a.actor == b.actor)
    && (a.action_seq == b.action_seq)
    && same_text a.detail b.detail

-- `WaitClock._started`
abbrev pub Started : Type 0
Started = List (WaitToken × ℕ)

abbrev pub started_at : WaitToken → Started → Option ℕ
started_at token [] = none
started_at token ((other, time) ∷ rest) =
    if same_token token other then some time else started_at token rest

abbrev pub or_now : ℕ → Option ℕ → ℕ
or_now now none = now
or_now now (some time) = time

-- `dict.fromkeys(waits)`: without repetitions.
abbrev pub once_each : List WaitToken → List WaitToken
once_each [] = []
once_each (t ∷ waits) = t ∷ keep (λ u. not (same_token u t)) (once_each waits)

-- `sync`, at the time `now`.
unfoldable pub sync : ℕ → List WaitToken → Started → Started
sync now waits started = map (λ t. (t, or_now now (started_at t started))) (once_each waits)

abbrev pub tokens : Started → List WaitToken
tokens = map λ (entry : WaitToken × ℕ). entry.0

-- `elapsed`, `remaining` and `expired`; `none` is a KeyError.
abbrev pub elapsed : ℕ → WaitToken → Started → Option ℕ
elapsed now token started = elim (started_at token started) [
  | none ↦ none
  | some time ↦ some (now - time)
]

abbrev pub remaining : ℕ → WaitToken → ℕ → Started → Option ℕ
remaining now token seconds started = elim (elapsed now token started) [
  | none ↦ none
  | some gone ↦ some (seconds - gone)
]

abbrev pub expired : ℕ → WaitToken → ℕ → Started → Option Bool
expired now token seconds started = elim (elapsed now token started) [
  | none ↦ none
  | some gone ↦ some (leb seconds gone)
]

-- `ClockJumpGuard`: the origin of both clocks, and what has been seen.
pub record JumpGuard : Type 0 where
  pub wall : ℕ
  pub mono : ℕ
  pub has_jumped : Bool

abbrev pub clock_jump_seconds : ℕ
clock_jump_seconds = 30

-- `abs((time - wall) - (monotonic - mono))`
abbrev pub difference : ℕ → ℕ → JumpGuard → ℕ
difference time monotonic g =
    (time + g.mono - (monotonic + g.wall)) + (monotonic + g.wall - (time + g.mono))

unfoldable pub jumped : ℕ → ℕ → JumpGuard → Bool × JumpGuard
jumped time monotonic g =
    let now = g.has_jumped || ltb clock_jump_seconds (difference time monotonic g) in
    (now, record g { has_jumped = now })
