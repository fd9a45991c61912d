-- ===== src/Replica/Verdicts.antt =====
-- What the verdicts of `apply_action` mean.
use texas_holdem.Base.{
  ℕ, ◌+◌, ◌<◌, ◌≤◌, ◌≡◌, true, false, ◌++◌, ◌⊎◌, max, none, some, [], ◌∷◌, length,
}
use texas_holdem.Replica.{Entry, Replica}
use texas_holdem.Replica.Actions.{
  Verdict, applied, buffered, stale, rejected, overflow, crashed, max_pending, get_pending,
  same_entry, apply_now,
}

-- What a verdict on the action `x` with number `seq` says of the replica before and after.
pub data Means (seq : ℕ) (x : Entry) (r : Replica) : Verdict × Replica → Type 0 where
  was_applied :
      {f : Replica}
      → seq ≡ r.next_seq
      → (apply_now x r.live).0 ≡ applied
      → r.next_seq < f.next_seq
      → Means seq x r (applied, f)
  was_buffered :
      {f : Replica}
      → r.next_seq < seq
      → f.live ≡ r.live
      → f.next_seq ≡ r.next_seq
      → ((y : Entry) × (get_pending seq f.pending ≡ some y) × (same_entry y x ≡ true))
      → length f.pending ≤ max max_pending (length r.pending)
      → (f ≡ r) ⊎ (f ≡ record r { pending = r.pending ++ (seq, x) ∷ [] })
      → Means seq x r (buffered, f)
  was_stale : seq < r.next_seq → Means seq x r (stale, r)
  was_overflow :
      r.next_seq < seq
      → get_pending seq r.pending ≡ none
      → (r.next_seq + max_pending < seq) ⊎ (max_pending ≤ length r.pending)
      → Means seq x r (overflow, r)
  was_rejected :
      ((seq ≡ r.next_seq) × ((apply_now x r.live).0 ≡ rejected))
        ⊎ ((y : Entry) × (r.next_seq < seq)
            × (get_pending seq r.pending ≡ some y)
            × (same_entry y x ≡ false))
      → Means seq x r (rejected, r)
  was_crashed : seq ≡ r.next_seq → (apply_now x r.live).0 ≡ crashed → Means seq x r (crashed, r)
