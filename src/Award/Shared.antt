-- ===== src/Award/Shared.antt =====
-- Theorems on `award_pots`: the pots of a hand, their runs and their winners.
use texas_holdem.Base.{
  ℕ, suc, ◌<◌, ◌≡◌, refl, subst, ◌∙◌, true, Option, List, [], ◌∷◌, arith, length, sum, mem, All,
  Result, ok, err, ◌>>=◌, Bool-cases, inl, inr,
}
use texas_holdem.Table.{Player}
use texas_holdem.Pots.{Pot, pots_total, seat_set}
use texas_holdem.Pots.Eligible.{IsOpen}
use texas_holdem.Award.{Error, PotRun, AwardedPot, run_shares, award_runs, award_pots, all_winners}
use texas_holdem.Award.Chips.{
  Pays, Pays-none, Pays-trans, Within, Wins, IsFair, shared, RunsOk, mem-differ, sum-run_shares,
  length-run_shares, award_runs-RunsOk,
}

-- A pot as it is awarded: its amount is divided among its runs, each of them fair.
pub record IsAwarded (pot : Pot) (awarded : AwardedPot) : Type 0 where
  pub same_amount : awarded.amount ≡ pot.amount
  pub same_seats : awarded.eligible ≡ pot.eligible
  pub whole : shared awarded.runs ≡ pot.amount
  pub fair : All (IsFair pot.eligible) awarded.runs

abbrev pub AllAwarded : List Pot → List AwardedPot → Type 0
AllAwarded [] [] = Unit
AllAwarded (pot ∷ pots) (a ∷ awarded) = IsAwarded pot a × AllAwarded pots awarded
AllAwarded _ _ = ⊥

abbrev pub PotsOk :
    List Pot → List ℕ → List Player → Result Error (List Player × List AwardedPot) → Type 0
PotsOk pots contenders players (err reason) = ⊥
PotsOk pots contenders players (ok (after, awarded)) =
    Pays (pots_total pots) contenders players after × AllAwarded pots awarded

-- Winnings of some seats are winnings of more seats.
Pays-more :
    {gain : ℕ} {few many : List ℕ} {p q : List Player}
    → ((k : ℕ) → mem k few ≡ true → mem k many ≡ true)
    → Pays gain few p q
    → Pays gain many p q
Pays-more {few = few} {many = many} more pays = record {
  money = pays.money;
  stakes = pays.stakes;
  same_length = pays.same_length;
  standing = pays.standing;
  others = λ k out. elim (Bool-cases (mem k few)) [
    | inl inside ↦ absurd (mem-differ k k many (more k inside) out refl)
    | inr outside ↦ pays.others k outside
  ];
}

PotsOk-cons :
    (pot : Pot) (pots : List Pot) (awarded : AwardedPot) (contenders : List ℕ)
    (players mid : List Player) (r : Result Error (List Player × List AwardedPot))
    → IsAwarded pot awarded
    → Pays pot.amount contenders players mid
    → PotsOk pots contenders mid r
    → PotsOk (pot ∷ pots) contenders players (r >>= λ (after, rest). ok (after, awarded ∷ rest))
PotsOk-cons pot pots awarded contenders players mid (err reason) one first later = later
PotsOk-cons pot pots awarded contenders players mid (ok (after, rest)) one first (pays, all) =
    (Pays-trans refl first pays, (one, all))

module _ (winners_in : ℕ → List ℕ → Option (List ℕ)) (button n k : ℕ) (seat : button < n)
    (contenders : List ℕ) (inside : Within n contenders) where
  -- In every run, every pot that somebody contends for has a winner.
  abbrev pub DecidesAll : Type 0
  DecidesAll =
      (r : ℕ)
      → r < suc k
      → (pot : Pot) → IsOpen contenders pot
      → Wins pot.eligible (winners_in r pot.eligible)

  -- With one run or more, and pots that seats of the table contend for, of which every run has a
  -- winner among the eligible seats, `award_pots` returns: each pot is divided among its runs to the
  -- last chip, the payouts of a run add up to its share and go to its winners, who are eligible, the
  -- stacks gain the total of the pots, and a seat that does not contend keeps its state.
  pub award_pots-PotsOk :
      (pots : List Pot) (players : List Player)
      → DecidesAll
      → All (IsOpen contenders) pots
      → length players ≡ n
      → PotsOk pots contenders players (award_pots winners_in button (suc k) pots players)
  unfolding award_pots
  award_pots-PotsOk [] players decides all_open e = (Pays-none contenders players, tt)
  award_pots-PotsOk (pot ∷ pots) players decides all_open e =
      go (award_runs winners_in button pot.eligible 0 (run_shares pot.amount (suc k)) players)
        (award_runs-RunsOk winners_in button n (suc k) seat pot.eligible 0
          (run_shares pot.amount (suc k)) players (λ i there. inside i ((all_open.0).1 i there))
          (λ r below. decides r below pot all_open.0)
          (omega (arith, length-run_shares pot.amount k)) e)
        (λ after same. award_pots-PotsOk pots after decides all_open.1 same)
    where
      go :
          (r : Result Error (List Player × List PotRun))
          → RunsOk (sum (run_shares pot.amount (suc k))) pot.eligible players r
          → ((after : List Player)
              → length after ≡ n
              → PotsOk pots contenders after (award_pots winners_in button (suc k) pots after))
          → PotsOk (pot ∷ pots) contenders players (
              r >>= λ (paid, runs).
              award_pots winners_in button (suc k) pots paid >>= λ (after, awarded). ok (
                after,
                record {
                  amount = pot.amount;
                  eligible = pot.eligible;
                  runs = runs;
                  winners = seat_set (all_winners runs);
                }
                    ∷ awarded,
              ))
      go (err reason) is_ok later = is_ok
      go (ok (paid, runs)) (pays, all_fair, adds) later =
          let whole = sum-run_shares pot.amount k in
          let awarded : AwardedPot = record {
            amount = pot.amount;
            eligible = pot.eligible;
            runs = runs;
            winners = seat_set (all_winners runs);
          } in
          PotsOk-cons pot pots awarded contenders players paid _
            (record {
              same_amount = refl;
              same_seats = refl;
              whole = adds ∙ whole;
              fair = all_fair;
            })
            (Pays-more (all_open.0).1
              (subst (λ gain. Pays gain pot.eligible players paid) whole pays))
            (later paid (pays.same_length ∙ e))
