-- ===== src/Evaluate/Straight.antt =====
-- Theorems on the straight table.
use texas_holdem.Base.{
  ℕ, zero, suc, ◌+◌, ◌≤◌, ◌<◌, ◌≡◌, refl, subst, ◌≢◌, Bool, true, false, ◌⊎◌, inl, inr, ◌==◌, arith,
  Bool-cases,
}
use texas_holdem.Evaluate.{Mask, ace_low, scan_run, straight_high}

-- The `n` ranks from `b` on are all in the mask.
abbrev pub Run : Mask → ℕ → ℕ → Type 0
Run mask b n = (d : ℕ) → d < n → mask (b + d) ≡ true

-- A straight from its lowest rank `b`, where an ace may stand for rank 1.
pub record IsStraight (mask : Mask) (b : ℕ) : Type 0 where
  pub low : 1 ≤ b
  pub high : b ≤ 10
  pub ranks : Run (ace_low mask) b 5

-- The result is 0 or the top of a run of five from `1` to `10`, and no lower than any such run that
-- starts at or below `r`.
record Finds (mask : Mask) (r res : ℕ) : Type 0 where
  found : (res ≡ 0) ⊎ ((b : ℕ) × (1 ≤ b) × (b ≤ 10) × Run mask b 5 × (res ≡ b + 4))
  best : (b : ℕ) → 1 ≤ b → b ≤ r → b ≤ 10 → Run mask b 5 → b + 4 ≤ res

Run-longer :
    (mask : Mask) (r n : ℕ)
    → mask (suc r) ≡ true
    → Run mask (suc (suc r)) n
    → Run mask (suc r) (suc n)
Run-longer mask r n at run zero h = let e : suc r + zero ≡ suc r = omega arith in rw e at
Run-longer mask r n at run (suc d) h =
    let e : suc r + suc d ≡ suc (suc r) + d = omega arith in rw e (run d (omega arith))

-- The run cannot be prolonged upwards.
abbrev Ends : Mask → ℕ → Type 0
Ends mask top = (13 < top) ⊎ (mask (suc top) ≡ false)

false≢true : {b : Bool} → b ≡ false → b ≡ true → ⊥
false≢true is_false is_true = cc

-- No run starts just above, so what was found below is still the best.
Finds-suc :
    (mask : Mask) (r res : ℕ)
    → (suc r ≤ 10 → Run mask (suc r) 5 → ⊥)
    → Finds mask r res
    → Finds mask (suc r) res
Finds-suc mask r res no_run finds = record {
  found = finds.found;
  best = λ b low below high is_run. elim (Bool-cases (b == suc r)) [
    | inl same ↦
        let e : b ≡ suc r = ground arith in
        absurd (no_run (omega arith) (subst (λ x. Run mask x 5) e is_run))
    | inr other ↦ let ne : b ≢ suc r = ground arith in finds.best b low (omega arith) high is_run
  ];
}

-- A run of five that starts here would be longer than the run there is.
blocked :
    (mask : Mask) (run r : ℕ)
    → run < 4
    → Ends mask (suc r + run)
    → suc r ≤ 10
    → Run mask (suc r) 5
    → ⊥
blocked mask run r small (inl at_top) high is_run = omega arith
blocked mask run r small (inr off) high is_run =
    let e : suc r + (run + 1) ≡ suc (suc r + run) = omega arith in
    false≢true (rw (← e) at off) (is_run (run + 1) (omega arith))

scan_run-Finds :
    (mask : Mask) (run r : ℕ)
    → run < 5
    → r + run ≤ 14
    → Run mask (suc r) run
    → Ends mask (r + run)
    → Finds mask r (scan_run mask run r)
unfolding scan_run
scan_run-Finds mask run zero small room has ends = record {
  found = inl refl;
  best = λ b low below high is_run. absurd (omega arith);
}
scan_run-Finds mask run (suc r) small room has ends = elim (Bool-cases (mask (suc r))) [
  | inl on ↦ elim (Bool-cases (run + 1 == 5)) [
    | inl five ↦
        let e : run ≡ 4 = ground arith in
        rw (on, five)
          (record {
            found = inr (
              suc r,
              omega arith,
              omega arith,
              Run-longer mask r 4 on (subst (Run mask (suc (suc r))) e has),
              refl,
            );
            best = λ b low below high is_run. omega arith;
          })
    | inr more ↦
        let ne : run < 4 = ground arith in
        let top : suc r + run ≡ r + (run + 1) = omega arith in
        let longer : suc run ≡ run + 1 = omega arith in
        rw (on, more)
          (Finds-suc mask r _ (blocked mask run r ne ends) (
            scan_run-Finds mask (run + 1) r (omega arith) (omega arith)
              (subst (Run mask (suc r)) longer (Run-longer mask r run on has))
              (subst (Ends mask) top ends)))
  ]
  | inr off ↦
      let top : r ≡ r + 0 = omega arith in
      let bottom : suc r ≡ suc r + 0 = omega arith in
      rw off (
        Finds-suc mask r _ (λ high is_run. false≢true (rw bottom at off) (is_run 0 (omega arith)))
          (scan_run-Finds mask 0 r (omega arith) (omega arith) (λ d below. absurd (omega arith))
            (subst (Ends mask) top (inr off))))
]

-- The straight that the table has for a mask: 0 if there is none, else the top of a straight, and
-- no straight is higher.
pub record IsBestStraight (mask : Mask) (res : ℕ) : Type 0 where
  pub found : (res ≡ 0) ⊎ ((b : ℕ) × IsStraight mask b × (res ≡ b + 4))
  pub best : (b : ℕ) → IsStraight mask b → b + 4 ≤ res

IsStraight-of :
    (mask : Mask) (res : ℕ)
    → ((res ≡ 0) ⊎ ((b : ℕ) × (1 ≤ b) × (b ≤ 10) × Run (ace_low mask) b 5 × (res ≡ b + 4)))
    → (res ≡ 0) ⊎ ((b : ℕ) × IsStraight mask b × (res ≡ b + 4))
IsStraight-of mask res (inl none_there) = inl none_there
IsStraight-of mask res (inr (b, low, high, ranks, top)) =
    inr (b, record { low = low; high = high; ranks = ranks }, top)

-- For every mask of ranks, the straight table has 0 if no five ranks in a row are in the mask, the
-- ace counting as high and as low, and the top of the highest such five otherwise.
pub straight_high-IsBestStraight : (mask : Mask) → IsBestStraight mask (straight_high mask)
unfolding straight_high
straight_high-IsBestStraight mask =
    let finds =
      scan_run-Finds (ace_low mask) 0 14 (omega arith) (omega arith)
        (λ d below. absurd (omega arith)) (inl (omega arith)) in
    record {
      found = IsStraight-of mask _ finds.found;
      best = λ b s. finds.best b s.low (omega (arith, s.high)) s.high s.ranks;
    }
