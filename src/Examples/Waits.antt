-- ===== src/Examples/Waits.antt =====
-- A wait that goes on while another one ends.
use texas_holdem.Base.{ℕ, ◌≡◌, refl, true, false, some, List, [], ◌∷◌}
use texas_holdem.Timing.{WaitToken, started_at, expired, sync, jumped}
use texas_holdem.Timing.Since.{sync_all, since, sync_all-since}

abbrev turn_of : ℕ → WaitToken
turn_of actor = record { hand = 1; phase = 98 ∷ []; actor = actor; action_seq = 4; detail = [] }

abbrev syncs : List (ℕ × List WaitToken)
syncs =
    (40, turn_of 2 ∷ turn_of 2 ∷ []) ∷ (25, turn_of 1 ∷ turn_of 2 ∷ []) ∷ (10, turn_of 1 ∷ []) ∷ []

sync_all-since_example : started_at (turn_of 2) (sync_all syncs) ≡ since (turn_of 2) syncs
sync_all-since_example = sync_all-since (turn_of 2) syncs

expired_run : expired 55 (turn_of 2) 30 (sync_all syncs) ≡ some true
unfolding sync_all sync
expired_run = refl

jumped_run : (jumped 200 100 (record { wall = 70; mono = 5; has_jumped = false })).0 ≡ true
unfolding jumped
jumped_run = refl
