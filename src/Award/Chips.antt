-- ===== src/Award/Chips.antt =====
-- Theorems on the money of `award_runs`: what the winners of a pot are paid.
use native.Mathlib.Nat.{div-add-mod}
use texas_holdem.Base.{
  ℕ, zero, suc, ◌+◌, ◌*◌, ◌/◌, ◌≤◌, ◌<◌, ◌≡◌, ◌≢◌, refl, subst, ap, ◌∙◌, true, false, Option, none,
  some, List, [], ◌∷◌, arith, map, map-modify, length, length-modify, get_elem?, get_elem?-lt,
  get_elem?-modify_ne, modify, total, total-modify, total-modify_at, sum, mem, All, Result, ok, err,
  ◌>>=◌, or_raise, ==_refl,
}
use texas_holdem.Table.{Player, in_pot, is_contesting}
use texas_holdem.Betting.Chips.{chips}
use texas_holdem.Pots.{payout}
use texas_holdem.Pots.Payout.{paid, payees, Divides, payout-Divides}
use texas_holdem.Award.{Error, PotRun, replicate, run_shares, win, pay_winners, award_runs}

sum-replicate : (k q : ℕ) → sum (replicate k q) ≡ k * q
sum-replicate zero q = omega arith
sum-replicate (suc k) q = omega (arith, sum-replicate k q)

-- The shares of the runs are the whole pot.
pub sum-run_shares : (amount k : ℕ) → sum (run_shares amount (suc k)) ≡ amount
unfolding run_shares
sum-run_shares amount k =
    omega (arith, sum-replicate k (amount / suc k), div-add-mod amount (suc k))

length-replicate : (k q : ℕ) → length (replicate k q) ≡ k
length-replicate zero q = refl
length-replicate (suc k) q = ap suc (length-replicate k q)

pub length-run_shares : (amount k : ℕ) → length (run_shares amount (suc k)) ≡ suc k
unfolding run_shares
length-run_shares amount k = ap suc (length-replicate k (amount / suc k))

-- What is left of the table when `gain` chips are paid to some of the seats `may_win`.
pub record Pays (gain : ℕ) (may_win : List ℕ) (players after : List Player) : Type 0 where
  pub money : total chips after ≡ total chips players + gain
  pub stakes : total in_pot after ≡ total in_pot players
  pub same_length : length after ≡ length players
  pub standing : map is_contesting after ≡ map is_contesting players
  pub others : (k : ℕ) → mem k may_win ≡ false → get_elem? after k ≡ get_elem? players k

pub Pays-none : (may_win : List ℕ) (players : List Player) → Pays 0 may_win players players
Pays-none may_win players = record {
  money = omega arith;
  stakes = refl;
  same_length = refl;
  standing = refl;
  others = λ k out. refl;
}

pub Pays-trans :
    {a b whole : ℕ} {may_win : List ℕ} {p q r : List Player}
    → whole ≡ a + b
    → Pays a may_win p q
    → Pays b may_win q r
    → Pays whole may_win p r
Pays-trans e f g = record {
  money = omega (arith, f.money, g.money, e);
  stakes = g.stakes ∙ f.stakes;
  same_length = g.same_length ∙ f.same_length;
  standing = g.standing ∙ f.standing;
  others = λ k out. g.others k out ∙ f.others k out;
}

pub mem-differ : (i k : ℕ) (xs : List ℕ) → mem i xs ≡ true → mem k xs ≡ false → i ≢ k
mem-differ i k xs inside outside e = let same : mem i xs ≡ mem k xs = ap (λ j. mem j xs) e in cc

-- Seats of the table.
abbrev pub Within : ℕ → List ℕ → Type 0
Within n seats = (k : ℕ) → mem k seats ≡ true → k < n

module _ (n : ℕ) (may_win : List ℕ) (within : Within n may_win) where
  pay_winners-Pays :
      (ps : List (ℕ × ℕ)) (players : List Player)
      → length players ≡ n
      → ((k : ℕ) → mem k (payees ps) ≡ true → mem k may_win ≡ true)
      → Pays (paid ps) may_win players (pay_winners ps players)
  unfolding pay_winners
  pay_winners-Pays [] players e only = Pays-none may_win players
  pay_winners-Pays ((i, a) ∷ ps) players e only =
      let wins : mem i may_win ≡ true = only i (ground (arith, ==_refl i)) in
      let (p, at) = get_elem?-lt players i (omega (arith, within i wins)) in
      let one = modify i (win a) players in
      let later =
        pay_winners-Pays ps one (length-modify i (win a) players ∙ e)
          (λ k there. only k (ground arith)) in
      let first : Pays a may_win players one = record {
        money = omega (arith, total-modify_at chips (win a) i players p at);
        stakes = total-modify in_pot (win a) (λ x. refl) i players;
        same_length = length-modify i (win a) players;
        standing = map-modify is_contesting (win a) (λ x. refl) i players;
        others = λ k out. get_elem?-modify_ne i k (win a) players (mem-differ i k may_win wins out);
      } in
      Pays-trans refl first later

-- One run of a pot: its payouts add up to its share, they go to its winners, none of whom gets less
-- than the equal share, and these are eligible.
pub record IsFair (eligible : List ℕ) (run : PotRun) : Type 0 where
  pub adds_up : paid run.payouts ≡ run.amount
  pub to_winners : payees run.payouts ≡ run.winners
  pub even : All (λ (entry : ℕ × ℕ). run.amount / length run.winners ≤ entry.1) run.payouts
  pub may : (k : ℕ) → mem k run.winners ≡ true → mem k eligible ≡ true

abbrev pub shared : List PotRun → ℕ
shared = total λ (run : PotRun). run.amount

-- The winners of a run of a pot that `eligible` seats contend for.
abbrev pub Wins : List ℕ → Option (List ℕ) → Type 0
Wins eligible found =
    (ws : List ℕ) × (found ≡ some ws)
    × ((w : ℕ) × (mem w ws ≡ true))
    × ((k : ℕ) → mem k ws ≡ true → mem k eligible ≡ true)

abbrev pub RunsOk : ℕ → List ℕ → List Player → Result Error (List Player × List PotRun) → Type 0
RunsOk gain eligible players (err reason) = ⊥
RunsOk gain eligible players (ok (after, runs)) =
    Pays gain eligible players after × All (IsFair eligible) runs × (shared runs ≡ gain)

RunsOk-cons :
    (eligible : List ℕ) (run : PotRun) (players mid : List Player) (gain : ℕ)
    (r : Result Error (List Player × List PotRun))
    → IsFair eligible run
    → Pays run.amount eligible players mid
    → RunsOk gain eligible mid r
    → RunsOk (run.amount + gain) eligible players (r >>= λ (after, runs). ok (after, run ∷ runs))
RunsOk-cons eligible run players mid gain (err reason) fair first later = later
RunsOk-cons eligible run players mid gain (ok (after, runs)) fair first (pays, all_fair, adds) =
    (Pays-trans refl first pays, (fair, all_fair), omega (arith, adds))

module _ (winners_in : ℕ → List ℕ → Option (List ℕ)) (button n nruns : ℕ) (seat : button < n) where
  abbrev pub Decides : List ℕ → Type 0
  Decides eligible = (r : ℕ) → r < nruns → Wins eligible (winners_in r eligible)

  pub award_runs-RunsOk :
      (eligible : List ℕ) (r : ℕ) (shares : List ℕ) (players : List Player)
      → Within n eligible
      → Decides eligible
      → r + length shares ≤ nruns
      → length players ≡ n
      → RunsOk
          (sum shares)
          eligible
          players
          (award_runs winners_in button eligible r shares players)
  unfolding award_runs
  award_runs-RunsOk eligible r [] players within decides fits e =
      (Pays-none eligible players, tt, refl)
  award_runs-RunsOk eligible r (share ∷ shares) players within decides fits e =
      let (ws, found, (w, wins), only) = decides r (omega arith) in
      rw found (
        go ws only (payout (length players) button share ws)
          (payout-Divides (length players) button share ws w (omega arith)
            (omega (arith, within w (only w wins))) wins)
          (λ after same.
            award_runs-RunsOk eligible (suc r) shares after within decides (omega arith) same))
    where
      go :
          (ws : List ℕ)
          → ((k : ℕ) → mem k ws ≡ true → mem k eligible ≡ true)
          → (found : Option (List (ℕ × ℕ))) → Divides share ws found
          → ((after : List Player)
              → length after ≡ n
              → RunsOk
                  (sum shares)
                  eligible
                  after
                  (award_runs winners_in button eligible (suc r) shares after))
          → RunsOk (share + sum shares) eligible players (
              or_raise found Error.endless_walk >>= λ payouts.
              award_runs winners_in button eligible (suc r) shares (pay_winners payouts players)
              >>= λ (after, runs).
                  ok (after, record { winners = ws; amount = share; payouts = payouts } ∷ runs))
      go ws only none divides later = divides
      go ws only (some ps) (adds, to, least) later =
          let run : PotRun = record { winners = ws; amount = share; payouts = ps } in
          let paid_all =
            pay_winners-Pays n eligible within ps players e
              (λ k there. only k (subst (λ xs. mem k xs ≡ true) to there)) in
          RunsOk-cons eligible run players (pay_winners ps players) (sum shares) _
            (record { adds_up = adds; to_winners = to; even = least; may = only })
            (subst (λ x. Pays x eligible players (pay_winners ps players)) adds paid_all)
            (later (pay_winners ps players) (paid_all.same_length ∙ e))
