-- ===== src/Settle/Paying.antt =====
-- Lemmas on steps 4 and 5 of `settle`, for one player left and for several.
use texas_holdem.Base.{
  suc, ◌+◌, ◌-◌, ◌<◌, ◌≡◌, refl, subst, ◌∙◌, List, [], ◌∷◌, map, arith, length, total, sum, All,
  Result, ok, err, ==_refl,
}
use texas_holdem.Table.{Player, Engine, in_pot}
use texas_holdem.Pots.{Pot, pot_layers}
use texas_holdem.Pots.Layers.{pot_layers-total}
use texas_holdem.Pots.Eligible.{pot_layers-IsOpen}
use texas_holdem.Award.{Error, AwardedPot, award_pots}
use texas_holdem.Award.Chips.{Pays, Within}
use texas_holdem.Award.Shared.{AllAwarded, PotsOk, DecidesAll, award_pots-PotsOk}
use texas_holdem.Award.Decided.{Decided, award_pots-Decided}
use texas_holdem.Award.Paid.{gets_of_pots, Paid, award_pots-Paid}
use texas_holdem.Showdown.{Run, winners_in}
use texas_holdem.Showdown.Scores.{idxs}
use texas_holdem.Showdown.Winners.{Complete, winners_in-Wins, winners_in-alone}
use texas_holdem.Settle.{live_stakes, count_runs, award_table}

-- The pots of a table for the players that are left.
abbrev pub pots_of : List Player → List Player → List Pot
pots_of alive players =
    pot_layers (live_stakes players) (map (λ (p : Player). p.total_dead) players) (idxs alive)

-- Every run has the scores that the pots need.
pub data Scoring : List Player → List Run → Type 0 where
  alone : (p : Player) → Scoring (p ∷ []) []
  several :
      {p q : Player} {left : List Player} {runs : List Run}
      → 0 < length runs
      → Complete (p ∷ q ∷ left) runs
      → Scoring (p ∷ q ∷ left) runs

staked :
    (players : List Player)
    → sum (live_stakes players) + sum (map (λ (p : Player). p.total_dead) players)
      ≡ total in_pot players
staked [] = refl
staked (p ∷ players) = omega (arith, staked players)

module _ (e : Engine) (has_button : e.button < length e.players) where
  Scoring-DecidesAll :
      (alive : List Player) (runs : List Run) (inside : Within (length e.players) (idxs alive))
      → Scoring alive runs
      → DecidesAll
          (winners_in alive runs)
          e.button
          (length e.players)
          (count_runs runs - 1)
          has_button
          (idxs alive)
          inside
  Scoring-DecidesAll alive runs inside (alone p) r below pot is_open =
      winners_in-alone p [] r pot is_open
  Scoring-DecidesAll alive runs inside (several {p} {q} {left} some_run complete) r below pot
        is_open =
      winners_in-Wins p q left runs r pot complete (omega arith) is_open

  abbrev pub PaidOut : List Player → List Run → Type 0
  PaidOut alive runs =
      (after : List Player) × (pots : List AwardedPot) × (award_table alive runs e
        ≡ ok (record e { players = after }, pots))
      × Pays (total in_pot e.players) (idxs alive) e.players after
      × AllAwarded (pots_of alive e.players) pots
      × All (λ (a : AwardedPot). Decided (winners_in alive runs) a.eligible 0 a.runs) pots
      × Paid (λ k. gets_of_pots k pots) e.players after

  award_table-eq :
      (alive : List Player) (runs : List Run) (after : List Player) (pots : List AwardedPot)
      → award_pots
          (winners_in alive runs)
          e.button
          (count_runs runs)
          (pots_of alive e.players)
          e.players
        ≡ ok (after, pots)
      → award_table alive runs e ≡ ok (record e { players = after }, pots)
  unfolding award_table
  award_table-eq alive runs after pots h = rw (h, award_table) refl

  from_pots :
      (alive : List Player) (runs : List Run) (r : Result Error (List Player × List AwardedPot))
      → award_pots
          (winners_in alive runs)
          e.button
          (count_runs runs)
          (pots_of alive e.players)
          e.players
        ≡ r
      → PotsOk (pots_of alive e.players) (idxs alive) e.players r
      → PaidOut alive runs
  from_pots alive runs (err reason) is paid = elim paid [ ]
  from_pots alive runs (ok (after, pots)) is (pays, all) =
      let whole =
        pot_layers-total (live_stakes e.players) (map (λ (p : Player). p.total_dead) e.players)
          (idxs alive)
        ∙ staked e.players in
      (
        after,
        pots,
        award_table-eq alive runs after pots is,
        subst (λ gain. Pays gain (idxs alive) e.players after) whole pays,
        all,
        award_pots-Decided (winners_in alive runs) e.button (count_runs runs)
            (pots_of alive e.players) e.players after pots is,
        award_pots-Paid (winners_in alive runs) e.button (count_runs runs) (pots_of alive e.players)
            e.players after pots is,
      )

  pub award_table-PaidOut :
      (alive : List Player) (runs : List Run)
      → Within (length e.players) (idxs alive)
      → Scoring alive runs
      → 0 < length alive
      → PaidOut alive runs
  award_table-PaidOut [] runs inside scoring some_left = absurd (omega arith)
  award_table-PaidOut (p ∷ alive) runs inside scoring some_left =
      let runs_are : suc (count_runs runs - 1) ≡ count_runs runs = omega arith in
      let open_pots =
        pot_layers-IsOpen (live_stakes e.players) (map (λ (q : Player). q.total_dead) e.players)
          (idxs (p ∷ alive)) p.idx (rw (==_refl p.idx) refl) in
      from_pots (p ∷ alive) runs _ refl (
        subst
          (λ n. PotsOk (pots_of (p ∷ alive) e.players) (idxs (p ∷ alive)) e.players (
            award_pots (winners_in (p ∷ alive) runs) e.button n (pots_of (p ∷ alive) e.players)
              e.players))
          runs_are
          (award_pots-PotsOk (winners_in (p ∷ alive) runs) e.button (length e.players)
            (count_runs runs - 1) has_button (idxs (p ∷ alive)) inside
            (pots_of (p ∷ alive) e.players) e.players
            (Scoring-DecidesAll (p ∷ alive) runs inside scoring) open_pots refl))
