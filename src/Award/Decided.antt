-- ===== src/Award/Decided.antt =====
-- Lemmas on the winners that `award_pots` takes: those that `winners_in` decides on.
use texas_holdem.Base.{
  ℕ, suc, ◌≡◌, Option, some, List, [], ◌∷◌, length, All, subst, ok, >>=-eq-ok, ok-injective,
  or_raise, or_raise-eq-ok,
}
use texas_holdem.Table.{Player}
use texas_holdem.Pots.{Pot, payout}
use texas_holdem.Award.{
  unscored, endless_walk, PotRun, AwardedPot, run_shares, pay_winners, award_runs, award_pots,
}

module _ (winners_in : ℕ → List ℕ → Option (List ℕ)) where
  -- The runs of a pot, from run `r` on, go to the seats that `winners_in` names.
  abbrev pub Decided : List ℕ → ℕ → List PotRun → Type 0
  Decided eligible r [] = Unit
  Decided eligible r (run ∷ runs) =
      (winners_in r eligible ≡ some run.winners) × Decided eligible (suc r) runs

  pub award_runs-Decided :
      (button : ℕ) (eligible : List ℕ) (r : ℕ) (shares : List ℕ) (players after : List Player)
      (runs : List PotRun)
      → award_runs winners_in button eligible r shares players ≡ ok (after, runs)
      → Decided eligible r runs
  unfolding award_runs
  award_runs-Decided button eligible r [] players after runs h =
      subst (λ (x : List Player × List PotRun). Decided eligible r x.1) (ok-injective h) tt
  award_runs-Decided button eligible r (share ∷ shares) players after runs h =
      let (ws, is_ws, h₁) = >>=-eq-ok (or_raise (winners_in r eligible) unscored) _ h in
      let (ps, is_ps, h₂) =
        >>=-eq-ok (or_raise (payout (length players) button share ws) endless_walk) _ h₁ in
      let ((later, rest), is_rest, h₃) =
        >>=-eq-ok (award_runs winners_in button eligible (suc r) shares (pay_winners ps players)) _
          h₂ in
      subst (λ (x : List Player × List PotRun). Decided eligible r x.1) (ok-injective h₃)
        (
          or_raise-eq-ok (winners_in r eligible) unscored is_ws,
          award_runs-Decided button eligible (suc r) shares (pay_winners ps players) later rest
              is_rest,
        )

  pub award_pots-Decided :
      (button nruns : ℕ) (pots : List Pot) (players after : List Player) (awarded : List AwardedPot)
      → award_pots winners_in button nruns pots players ≡ ok (after, awarded)
      → All (λ (a : AwardedPot). Decided a.eligible 0 a.runs) awarded
  unfolding award_pots
  award_pots-Decided button nruns [] players after awarded h =
      subst
        (λ (x : List Player × List AwardedPot).
          All (λ (a : AwardedPot). Decided a.eligible 0 a.runs) x.1)
        (ok-injective h) tt
  award_pots-Decided button nruns (pot ∷ pots) players after awarded h =
      let ((paid, runs), is_runs, h₁) =
        >>=-eq-ok
          (award_runs winners_in button pot.eligible 0 (run_shares pot.amount nruns) players) _ h in
      let ((last, rest), is_rest, h₂) =
        >>=-eq-ok (award_pots winners_in button nruns pots paid) _ h₁ in
      subst
        (λ (x : List Player × List AwardedPot).
          All (λ (a : AwardedPot). Decided a.eligible 0 a.runs) x.1)
        (ok-injective h₂)
        (
          award_runs-Decided button pot.eligible 0 (run_shares pot.amount nruns) players paid runs
              is_runs,
          award_pots-Decided button nruns pots paid last rest is_rest,
        )
