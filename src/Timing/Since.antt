-- ===== src/Timing/Since.antt =====
-- Since when a wait is running, after any number of syncs.
use texas_holdem.Base.{
  ℕ, ◌≡◌, refl, sym, ap, ◌∙◌, Bool, true, false, not, Option, none, some, List, [], ◌∷◌, map,
  if◌then◌else◌, any, keep, arith, Bool-cases, inl, inr,
}
use texas_holdem.Timing.{
  WaitToken, same_text, same_token, Started, started_at, or_now, once_each, sync,
}

same_text-true : (xs ys : List ℕ) → same_text xs ys ≡ true → xs ≡ ys
same_text-true [] [] h = refl
same_text-true [] (y ∷ ys) h = cc
same_text-true (x ∷ xs) [] h = cc
same_text-true (x ∷ xs) (y ∷ ys) h =
    let first : x ≡ y = ground arith in λ i. first i ∷ same_text-true xs ys (ground arith) i

same_token-true : (a b : WaitToken) → same_token a b ≡ true → a ≡ b
same_token-true a b h =
    let hand : a.hand ≡ b.hand = ground arith in
    let actor : a.actor ≡ b.actor = ground arith in
    let seq : a.action_seq ≡ b.action_seq = ground arith in
    let phase = same_text-true a.phase b.phase (ground arith) in
    let detail = same_text-true a.detail b.detail (ground arith) in
    λ i. record {
      hand = hand i;
      phase = phase i;
      actor = actor i;
      action_seq = seq i;
      detail = detail i;
    }

abbrev pub waits_for : WaitToken → List WaitToken → Bool
waits_for token waits = any (same_token token) waits

-- Keeping the entries of a dict whose key is not `t` changes no other key.
started_at-keep :
    (token t : WaitToken) (f : WaitToken → ℕ) (waits : List WaitToken)
    → same_token token t ≡ false
    → started_at token (map (λ u. (u, f u)) (keep (λ u. not (same_token u t)) waits))
      ≡ started_at token (map (λ u. (u, f u)) waits)
started_at-keep token t f [] other = refl
started_at-keep token t f (u ∷ waits) other =
    let later = started_at-keep token t f waits other in
    elim (Bool-cases (same_token u t)) [
      | inl same ↦
          let apart : same_token token u ≡ false =
            ap (same_token token) (same_token-true u t same) ∙ other in
          rw (same, apart) later
      | inr stays ↦ rw (stays, later) refl
    ]

started_at-sync :
    (token : WaitToken) (f : WaitToken → ℕ) (waits : List WaitToken)
    → started_at token (map (λ u. (u, f u)) (once_each waits))
      ≡ (if waits_for token waits then some (f token) else none)
started_at-sync token f [] = refl
started_at-sync token f (t ∷ waits) = elim (Bool-cases (same_token token t)) [
  | inl same ↦ rw same (ap (λ (u : WaitToken). some (f u)) (sym (same_token-true token t same)))
  | inr other ↦
      rw other (started_at-keep token t f (once_each waits) other ∙ started_at-sync token f waits)
]

-- The syncs of a clock, the last one first.
unfoldable pub sync_all : List (ℕ × List WaitToken) → Started
sync_all [] = []
sync_all ((now, waits) ∷ earlier) = sync now waits (sync_all earlier)

-- The last syncs in a row that wait for a token, the last one first.
abbrev pub stretch : WaitToken → List (ℕ × List WaitToken) → List (ℕ × List WaitToken)
stretch token [] = []
stretch token ((now, waits) ∷ earlier) =
    if waits_for token waits then (now, waits) ∷ stretch token earlier else []

-- The time of the first sync of all.
abbrev pub oldest : List (ℕ × List WaitToken) → Option ℕ
oldest [] = none
oldest ((now, waits) ∷ []) = some now
oldest ((now, waits) ∷ sync ∷ earlier) = oldest (sync ∷ earlier)

-- Since when a token has been waited for without a break.
unfoldable pub since : WaitToken → List (ℕ × List WaitToken) → Option ℕ
since token syncs = oldest (stretch token syncs)

oldest-or_now :
    (now : ℕ) (waits : List WaitToken) (syncs : List (ℕ × List WaitToken))
    → some (or_now now (oldest syncs)) ≡ oldest ((now, waits) ∷ syncs)
oldest-or_now now waits [] = refl
oldest-or_now now waits ((time, others) ∷ []) = refl
oldest-or_now now waits ((time, others) ∷ sync ∷ earlier) =
    oldest-or_now now others (sync ∷ earlier)

-- After any syncs, a wait runs since the first sync of the last unbroken stretch of syncs that wait
-- for it, and does not run if the last sync does not: the clock that `expired` reads depends on no
-- other token, and a sync does not restart it.
pub sync_all-since :
    (token : WaitToken) (syncs : List (ℕ × List WaitToken))
    → started_at token (sync_all syncs) ≡ since token syncs
unfolding sync_all since sync
sync_all-since token [] = refl
sync_all-since token ((now, waits) ∷ earlier) =
    started_at-sync token (λ t. or_now now (started_at t (sync_all earlier))) waits
    ∙ ap (λ (before : Option ℕ). if waits_for token waits then some (or_now now before) else none)
        (sync_all-since token earlier)
    ∙ (elim (Bool-cases (waits_for token waits)) [
      | inl waited ↦ rw waited (oldest-or_now now waits (stretch token earlier))
      | inr idle ↦ rw idle refl
    ])
