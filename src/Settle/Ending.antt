-- ===== src/Settle/Ending.antt =====
-- Lemmas on the last steps of `settle`, and what it leaves of a table.
use texas_holdem.Base.{
  ℕ, zero, suc, ◌+◌, ◌≡◌, refl, sym, ap, subst, ◌∙◌, Bool, true, false, Option, none, some, List,
  [], ◌∷◌, map, get_elem?, arith, length, length-map, mem, total, All,
}
use texas_holdem.Table.{Player, Engine, idle, in_pot, emit}
use texas_holdem.Betting.Chips.{chips}
use texas_holdem.Award.{PotRun, AwardedPot}
use texas_holdem.Award.Chips.{Pays}
use texas_holdem.Award.Shared.{AllAwarded}
use texas_holdem.Showdown.Scores.{idxs}
use texas_holdem.Settle.{Outcome, emit_runs, emit_alone, emit_pot, emit_pots, go_idle, clear_pot}
use texas_holdem.Award.Decided.{Decided}
use texas_holdem.Award.Paid.{gets_of_pots, Paid}
use texas_holdem.Showdown.{winners_in}
use texas_holdem.Settle.Paying.{Scoring, pots_of}

emit_runs-players :
    (k r : ℕ) (runs : List PotRun) (e : Engine) → (emit_runs k r runs e).players ≡ e.players
unfolding emit_runs emit
emit_runs-players k r [] e = refl
emit_runs-players k r (run ∷ runs) e = emit_runs-players k (suc r) runs _

emit_pot-players :
    (contest : Bool) (k : ℕ) (p : AwardedPot) (e : Engine)
    → (emit_pot contest k p e).players ≡ e.players
unfolding emit_pot emit
emit_pot-players true k p e = emit_runs-players k 1 p.runs e
emit_pot-players false k p e = alone_pot p.runs
  where
    alone_pot : (runs : List PotRun) → (emit_alone k p.amount runs e).players ≡ e.players
    alone_pot [] = refl
    alone_pot (run ∷ runs) = refl

pub emit_pots-players :
    (contest : Bool) (k : ℕ) (pots : List AwardedPot) (e : Engine)
    → (emit_pots contest k pots e).players ≡ e.players
unfolding emit_pots
emit_pots-players contest k [] e = refl
emit_pots-players contest k (p ∷ pots) e =
    emit_pots-players contest (suc k) pots _ ∙ emit_pot-players contest k p e

abbrev pub stacks : List Player → List ℕ
stacks = map λ (p : Player). p.stack

-- Every stack has grown by what the payouts of the pots say.
abbrev pub PaidStacks : List AwardedPot → List Player → List Player → Type 0
PaidStacks pots players after =
    (k s : ℕ)
    → get_elem? (stacks players) k ≡ some s
    → get_elem? (stacks after) k ≡ some (s + gets_of_pots k pots)

-- What the end of a hand leaves of the table `t`, whose players `alive` had not folded.
pub record Ends (alive : List Player) (t : Engine) (outcome : Outcome) (f : Engine) : Type 0 where
  pub money : total chips f.players ≡ total chips t.players
  pub awarded : AllAwarded (pots_of alive t.players) outcome.pots
  pub scoring : Scoring alive outcome.runs
  pub decided :
      All
        (λ (a : AwardedPot). Decided (winners_in alive outcome.runs) a.eligible 0 a.runs)
        outcome.pots
  pub no_stakes :
      All (λ (p : Player). (p.total_live ≡ 0) × (p.total_dead ≡ 0) × (p.bet ≡ 0)) f.players
  pub is_idle : f.street ≡ idle
  pub same_length : length f.players ≡ length t.players
  pub losers :
      (k : ℕ)
      → mem k (idxs alive) ≡ false
      → get_elem? (stacks f.players) k ≡ get_elem? (stacks t.players) k
  pub paid : PaidStacks outcome.pots t.players f.players

cleared :
    (players : List Player)
    → All
        (λ (p : Player). (p.total_live ≡ 0) × (p.total_dead ≡ 0) × (p.bet ≡ 0))
        (map clear_pot players)
cleared [] = tt
cleared (p ∷ players) = ((refl, refl, refl), cleared players)

cleared-chips :
    (players : List Player)
    → total chips (map clear_pot players) + total in_pot players ≡ total chips players
cleared-chips [] = refl
cleared-chips (p ∷ players) = omega (arith, cleared-chips players)

cleared-stacks : (players : List Player) → stacks (map clear_pot players) ≡ stacks players
cleared-stacks [] = refl
cleared-stacks (p ∷ players) = ap (◌∷◌ p.stack) (cleared-stacks players)

abbrev stack_of : Option Player → Option ℕ
stack_of none = none
stack_of (some p) = some p.stack

stack_at : (ps : List Player) (k : ℕ) → get_elem? (stacks ps) k ≡ stack_of (get_elem? ps k)
stack_at [] k = refl
stack_at (p ∷ ps) zero = refl
stack_at (p ∷ ps) (suc k) = stack_at ps k

stacks_at :
    (ps qs : List Player) (k : ℕ)
    → get_elem? ps k ≡ get_elem? qs k
    → get_elem? (stacks ps) k ≡ get_elem? (stacks qs) k
stacks_at ps qs k same = stack_at ps k ∙ ap stack_of same ∙ sym (stack_at qs k)

stacks-Paid :
    (pots : List AwardedPot) (players after : List Player)
    → Paid (λ k. gets_of_pots k pots) players after
    → PaidStacks pots players after
stacks-Paid pots players after paid k s at = go (get_elem? players k) refl
  where
    add_to : Option ℕ → Option ℕ
    add_to none = none
    add_to (some x) = some (x + gets_of_pots k pots)

    go :
        (found : Option Player)
        → get_elem? players k ≡ found
        → get_elem? (stacks after) k ≡ some (s + gets_of_pots k pots)
    go none is = let missing : none ≡ some s = sym (stack_at players k ∙ ap stack_of is) ∙ at in cc
    go (some p) is =
        let same : some p.stack ≡ some s = sym (stack_at players k ∙ ap stack_of is) ∙ at in
        stack_at after k ∙ ap stack_of (paid k p is) ∙ ap add_to same

-- The last steps of `settle` on a table that has been paid out.
pub Ends-idle :
    (alive : List Player) (t shown : Engine) (after : List Player) (outcome : Outcome)
    → shown.players ≡ after
    → Pays (total in_pot t.players) (idxs alive) t.players after
    → AllAwarded (pots_of alive t.players) outcome.pots
    → Scoring alive outcome.runs
    → All
        (λ (a : AwardedPot). Decided (winners_in alive outcome.runs) a.eligible 0 a.runs)
        outcome.pots
    → Paid (λ k. gets_of_pots k outcome.pots) t.players after
    → Ends alive t outcome (go_idle shown)
Ends-idle alive t shown after outcome same pays all scoring decided paid =
    subst
      (λ (ps : List Player).
        Ends alive t outcome (record shown { players = map clear_pot ps; street = idle }))
      (sym same)
      (record {
        money = omega (arith, cleared-chips after, pays.money, pays.stakes);
        awarded = all;
        scoring = scoring;
        decided = decided;
        no_stakes = cleared after;
        is_idle = refl;
        same_length = length-map clear_pot after ∙ pays.same_length;
        losers = λ k out.
            ap (λ (xs : List ℕ). get_elem? xs k) (cleared-stacks after)
            ∙ stacks_at after t.players k (pays.others k out);
        paid = λ k s at.
            ap (λ (xs : List ℕ). get_elem? xs k) (cleared-stacks after)
            ∙ stacks-Paid outcome.pots t.players after paid k s at;
      })
