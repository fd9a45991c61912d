-- ===== src/Replica/Calls.antt =====
-- What the calls of a replica that return have found and done.
use texas_holdem.Base.{
  ℕ, ltb, ◌≡◌, sym, Bool, true, ◌&&◌, not, any, Option, some, List, ◌++◌, length, sum, mem, arith,
  Result, ok, err, >>=-eq-ok, ok-injective, or_raise, or_raise-eq-ok, ◌==◌,
}
use texas_holdem.Cards.{Card}
use texas_holdem.Betting.Chips.{guard-eq-ok}
use texas_holdem.Table.{Player, Engine, contested}
use texas_holdem.Positions.{Fault}
use texas_holdem.Streets.{next_street}
use texas_holdem.Settle.{Outcome, settle}
use texas_holdem.Settle
use texas_holdem.Replica.{
  settled, Replica, recompute_phase, engine_result, exactly, put_hole, set_own_hole, wrong_cards,
  no_such_seat, no_deck, no_street, not_conserved, wrong_phase, incomplete_board, unverified,
  stacks_of,
}
use texas_holdem.Replica.Showdown.{
  is_street_over, street_cards, advance_street, check_holes, put_holes, set_all_holes, can_finish,
  settle_result, finish_hand,
}

pub engine_result-eq-ok {ℓ} :
    {A : Type ℓ} (r : Result Fault A) {a : A} → engine_result r ≡ ok a → r ≡ ok a
engine_result-eq-ok (err f) h = cc
engine_result-eq-ok (ok a) h = cc

settle_result-eq-ok {ℓ} :
    {A : Type ℓ} (r : Result Settle.Error A) {a : A} → settle_result r ≡ ok a → r ≡ ok a
settle_result-eq-ok (err f) h = cc
settle_result-eq-ok (ok a) h = cc

-- The engine with the revealed cards on the tail of its deck.
abbrev pub loaded : List Card → List Card → Engine → Engine
loaded deck revealed e = record e { deck = some (deck ++ revealed) }

pub record Advanced (cards : List (Option Card)) (r f : Replica) : Type 0 where
  pub over : is_street_over r.phase ≡ true
  pub need : ℕ
  pub has_need : street_cards r.engine.street ≡ some need
  pub revealed : List Card
  pub has_cards : exactly need cards ≡ some revealed
  pub deck : List Card
  pub has_deck : r.engine.deck ≡ some deck
  pub after : Engine
  pub dealt : next_street (loaded deck revealed r.engine) ≡ ok after
  pub is : f ≡ record r { live = recompute_phase (record r.live { engine = after }) }

pub advance_street-Advanced :
    (cards : List (Option Card)) (r f : Replica)
    → advance_street cards r ≡ ok f
    → Advanced cards r f
unfolding advance_street
advance_street-Advanced cards r f h =
    let (h₁, k₁) = guard-eq-ok (is_street_over r.phase) wrong_phase _ h in
    let (need, h₂, k₂) = >>=-eq-ok (or_raise (street_cards r.engine.street) no_street) _ k₁ in
    let (revealed, h₃, k₃) = >>=-eq-ok (or_raise (exactly need cards) wrong_cards) _ k₂ in
    let (deck, h₄, k₄) = >>=-eq-ok (or_raise r.engine.deck no_deck) _ k₃ in
    let (after, h₅, k₅) =
      >>=-eq-ok (engine_result (next_street (loaded deck revealed r.engine))) _ k₄ in
    record {
      over = h₁;
      need = need;
      has_need = or_raise-eq-ok _ no_street h₂;
      revealed = revealed;
      has_cards = or_raise-eq-ok _ wrong_cards h₃;
      deck = deck;
      has_deck = or_raise-eq-ok _ no_deck h₄;
      after = after;
      dealt = engine_result-eq-ok _ h₅;
      is = sym (ok-injective k₅);
    }

pub record Finished (force_tabled : Bool) (r f : Replica) : Type 0 where
  pub can : can_finish r.phase ≡ true
  pub outcome : Outcome
  pub after : Engine
  pub paid : settle 1 force_tabled r.engine ≡ ok (outcome, after)
  pub kept : sum (stacks_of after) ≡ r.start_total
  pub is : f ≡ record r { live = record { engine = after; phase = settled }; result = some outcome }

pub finish_hand-Finished :
    (force_tabled : Bool) (r f : Replica)
    → finish_hand force_tabled r ≡ ok f
    → Finished force_tabled r f
unfolding finish_hand
finish_hand-Finished force_tabled r f h =
    let alive = contested r.engine.players in
    let (h₁, k₁) = guard-eq-ok (can_finish r.phase) wrong_phase _ h in
    let (h₂, k₂) =
      guard-eq-ok (not (ltb 1 (length alive) && ltb (length r.engine.board) 5)) incomplete_board _
        k₁ in
    let (h₃, k₃) =
      guard-eq-ok
        (not (ltb 1 (length alive) && any (λ (p : Player). not (mem p.idx r.real_holes)) alive))
        unverified _ k₂ in
    let ((outcome, after), h₄, k₄) =
      >>=-eq-ok (settle_result (settle 1 force_tabled r.engine)) _ k₃ in
    let (h₅, k₅) = guard-eq-ok (sum (stacks_of after) == r.start_total) not_conserved _ k₄ in
    record {
      can = h₁;
      outcome = outcome;
      after = after;
      paid = settle_result-eq-ok _ h₄;
      kept = ground (arith, h₅);
      is = sym (ok-injective k₅);
    }

pub set_own_hole_inv :
    (seat : ℕ) (cards : List (Option Card)) (r f : Replica)
    → set_own_hole seat cards r ≡ ok f
    → (hole : List Card) × (exactly 2 cards ≡ some hole) × (f ≡ put_hole seat hole r)
unfolding set_own_hole
set_own_hole_inv seat cards r f h =
    let (hole, h₁, k₁) = >>=-eq-ok (or_raise (exactly 2 cards) wrong_cards) _ h in
    let (h₂, k₂) = guard-eq-ok (ltb seat (length r.engine.players)) no_such_seat _ k₁ in
    (hole, or_raise-eq-ok _ wrong_cards h₁, sym (ok-injective k₂))

pub set_all_holes_inv :
    (holes : List (ℕ × List (Option Card))) (r f : Replica)
    → set_all_holes holes r ≡ ok f
    → (checked : List (ℕ × List Card)) × (check_holes (length r.engine.players) r.engine.board holes
        ≡ ok checked)
      × (f ≡ put_holes checked r)
unfolding set_all_holes
set_all_holes_inv holes r f h =
    let (checked, h₁, k₁) =
      >>=-eq-ok (check_holes (length r.engine.players) r.engine.board holes) _ h in
    (checked, h₁, sym (ok-injective k₁))
