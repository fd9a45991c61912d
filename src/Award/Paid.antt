-- ===== src/Award/Paid.antt =====
-- Theorems on who is paid by `award_pots`: every stack gains what the reported payouts say.
use texas_holdem.Base.{
  ℕ, suc, ◌+◌, ◌≡◌, sym, subst, ap, ◌∙◌, Option, some, List, [], ◌∷◌, arith, length, All, get_elem?,
  get_elem?-modify_self, get_elem?-modify_ne, modify, total, ◌==◌, if◌then◌else◌, ok, >>=-eq-ok,
  ok-injective, or_raise, Bool-cases, inl, inr,
}
use texas_holdem.Table.{Player}
use texas_holdem.Pots.{Pot, payout, pots_total}
use texas_holdem.Award.{
  unscored, endless_walk, PotRun, AwardedPot, run_shares, win, pay_winners, award_runs, award_pots,
}
use texas_holdem.Award.Chips.{Pays}
use texas_holdem.Award.Shared.{AllAwarded}
use texas_holdem.Award.Decided.{Decided}

-- What a seat gets of some payouts, of the runs of a pot, and of all pots.
abbrev pub gets : ℕ → List (ℕ × ℕ) → ℕ
gets k = total λ (entry : ℕ × ℕ). if k == entry.0 then entry.1 else 0

abbrev pub gets_of_runs : ℕ → List PotRun → ℕ
gets_of_runs k = total λ (run : PotRun). gets k run.payouts

abbrev pub gets_of_pots : ℕ → List AwardedPot → ℕ
gets_of_pots k = total λ (pot : AwardedPot). gets_of_runs k pot.runs

-- Every seat has been paid its due, and nothing else of it has changed.
abbrev pub Paid : (ℕ → ℕ) → List Player → List Player → Type 0
Paid due players after =
    (k : ℕ) (p : Player) → get_elem? players k ≡ some p → get_elem? after k ≡ some (win (due k) p)

win_none : (p : Player) → win 0 p ≡ p
win_none p = λ i. record p { stack = stacked i; won = won i }
  where
    stacked : p.stack + 0 ≡ p.stack
    stacked = omega arith

    won : p.won + 0 ≡ p.won
    won = omega arith

win_twice : (a b : ℕ) (p : Player) → win b (win a p) ≡ win (a + b) p
win_twice a b p = λ i. record p { stack = stacked i; won = won i }
  where
    stacked : p.stack + a + b ≡ p.stack + (a + b)
    stacked = omega arith

    won : p.won + a + b ≡ p.won + (a + b)
    won = omega arith

Paid-none : (players : List Player) → Paid (λ k. 0) players players
Paid-none players k p at = at ∙ ap (λ (q : Player). some q) (sym (win_none p))

Paid-trans :
    (first later : ℕ → ℕ) (players mid after : List Player)
    → Paid first players mid
    → Paid later mid after
    → Paid (λ k. first k + later k) players after
Paid-trans first later players mid after one two k p at =
    two k (win (first k) p) (one k p at)
    ∙ ap (λ (q : Player). some q) (win_twice (first k) (later k) p)

one_paid :
    (i a : ℕ) (players : List Player)
    → Paid (λ k. if k == i then a else 0) players (modify i (win a) players)
one_paid i a players k p at = elim (Bool-cases (k == i)) [
  | inl same ↦
      let here : i ≡ k = ground arith in
      rw same (
        subst (λ (j : ℕ). get_elem? (modify i (win a) players) j ≡ some (win a p)) here
          (get_elem?-modify_self i (win a) players p
            (subst (λ (j : ℕ). get_elem? players j ≡ some p) (sym here) at)))
  | inr apart ↦
      rw apart (get_elem?-modify_ne i k (win a) players (ground arith) ∙ Paid-none players k p at)
]

pay_winners-Paid :
    (ps : List (ℕ × ℕ)) (players : List Player)
    → Paid (λ k. gets k ps) players (pay_winners ps players)
unfolding pay_winners
pay_winners-Paid [] players = Paid-none players
pay_winners-Paid ((i, a) ∷ ps) players =
    Paid-trans (λ k. if k == i then a else 0) (λ k. gets k ps) players (modify i (win a) players) _
      (one_paid i a players) (pay_winners-Paid ps (modify i (win a) players))

module _ (winners_in : ℕ → List ℕ → Option (List ℕ)) where
  award_runs-Paid :
      (button : ℕ) (eligible : List ℕ) (r : ℕ) (shares : List ℕ) (players after : List Player)
      (runs : List PotRun)
      → award_runs winners_in button eligible r shares players ≡ ok (after, runs)
      → Paid (λ k. gets_of_runs k runs) players after
  unfolding award_runs
  award_runs-Paid button eligible r [] players after runs h =
      subst (λ (x : List Player × List PotRun). Paid (λ k. gets_of_runs k x.1) players x.0)
        (ok-injective h) (Paid-none players)
  award_runs-Paid button eligible r (share ∷ shares) players after runs h =
      let (ws, is_ws, h₁) = >>=-eq-ok (or_raise (winners_in r eligible) unscored) _ h in
      let (ps, is_ps, h₂) =
        >>=-eq-ok (or_raise (payout (length players) button share ws) endless_walk) _ h₁ in
      let ((later, rest), is_rest, h₃) =
        >>=-eq-ok (award_runs winners_in button eligible (suc r) shares (pay_winners ps players)) _
          h₂ in
      subst (λ (x : List Player × List PotRun). Paid (λ k. gets_of_runs k x.1) players x.0)
        (ok-injective h₃)
        (Paid-trans (λ k. gets k ps) (λ k. gets_of_runs k rest) players (pay_winners ps players)
          later (pay_winners-Paid ps players)
          (award_runs-Paid button eligible (suc r) shares (pay_winners ps players) later rest
            is_rest))

  pub award_pots-Paid :
      (button nruns : ℕ) (pots : List Pot) (players after : List Player) (awarded : List AwardedPot)
      → award_pots winners_in button nruns pots players ≡ ok (after, awarded)
      → Paid (λ k. gets_of_pots k awarded) players after
  unfolding award_pots
  award_pots-Paid button nruns [] players after awarded h =
      subst (λ (x : List Player × List AwardedPot). Paid (λ k. gets_of_pots k x.1) players x.0)
        (ok-injective h) (Paid-none players)
  award_pots-Paid button nruns (pot ∷ pots) players after awarded h =
      let ((paid, runs), is_runs, h₁) =
        >>=-eq-ok
          (award_runs winners_in button pot.eligible 0 (run_shares pot.amount nruns) players) _ h in
      let ((last, rest), is_rest, h₂) =
        >>=-eq-ok (award_pots winners_in button nruns pots paid) _ h₁ in
      subst (λ (x : List Player × List AwardedPot). Paid (λ k. gets_of_pots k x.1) players x.0)
        (ok-injective h₂)
        (Paid-trans (λ k. gets_of_runs k runs) (λ k. gets_of_pots k rest) players paid last
          (award_runs-Paid button pot.eligible 0 (run_shares pot.amount nruns) players paid runs
            is_runs)
          (award_pots-Paid button nruns pots paid last rest is_rest))

-- The pots of a hand as they are awarded.
pub record IsAward (winners_in : ℕ → List ℕ → Option (List ℕ)) (pots : List Pot)
    (contenders : List ℕ) (players after : List Player) (awarded : List AwardedPot) : Type 0 where
  pub pays : Pays (pots_total pots) contenders players after
  pub whole : AllAwarded pots awarded
  pub decided : All (λ (a : AwardedPot). Decided winners_in a.eligible 0 a.runs) awarded
  pub paid : Paid (λ k. gets_of_pots k awarded) players after
