-- ===== src/Settle/Whole.antt =====
-- Theorems on `settle` as a whole.
use texas_holdem.Base.{
  ℕ, ◌+◌, ◌-◌, ◌*◌, ◌<◌, ◌≤◌, ◌≡◌, refl, sym, ap, subst, ◌∙◌, Bool, false, some, List, [], ◌∷◌,
  ◌++◌, map, get_elem?, arith, ==_refl, length, length-map, mem, total, All, ok,
}
use texas_holdem.Cards.{Card}
use texas_holdem.Table.{Player, Engine, idle, contested}
use texas_holdem.Table.Seats.{Seated}
use texas_holdem.Betting.Chips.{chips, bank}
use texas_holdem.Pots.{Pot, uncalled, pot_layers}
use texas_holdem.Award.Shared.{AllAwarded}
use texas_holdem.Streets.Runout.{board_size}
use texas_holdem.Showdown.Scores.{idxs}
use texas_holdem.Settle.{
  Boards, Outcome, live_stakes, give_refund, run_boards, settle_boards, settle,
}
use texas_holdem.Settle.Dealing.{HandsOf, HandsOf-same, dealt_boards}
use texas_holdem.Settle.Ending.{Ends, stacks, PaidStacks}
use texas_holdem.Settle.Finish.{same-length, Dealt, settle_boards-EndsOk}
use texas_holdem.Settle.Paying.{pots_of, Scoring, alone, several}
use texas_holdem.Settle.Best.{Won, FromBoards, ScoredRuns, runs-ScoredRuns, all-Won}
use texas_holdem.Award.{AwardedPot}
use texas_holdem.Award.Decided.{Decided}
use texas_holdem.Showdown.{Run, winners_in}
use texas_holdem.Pots.Eligible.{pot_layers-IsOpen}
use texas_holdem.Settle.Returned.{hand_of, give_refund-Returned}
use texas_holdem.Settle.Rolling.{Core, core}
use texas_holdem.Settle.RunOuts.{to_come, RunsOut, run_boards-RunsOut}

-- A table on which a hand can end: somebody is left, and for a showdown the street's board is there,
-- the deck has the cards of two run-outs, and every player left can make a hand of the board and the
-- cards that can still come.
pub record IsOver (e : Engine) (cards : List Card) : Type 0 where
  pub seated : Seated e.players
  pub has_button : e.button < length e.players
  pub some_left : 0 < length (contested e.players)
  pub has_deck : e.deck ≡ some cards
  pub has_board :
      1 < length (contested e.players)
      → (board_size e.street ≡ some (length e.board)) × (2 * (5 - length e.board) ≤ length cards)
  pub hands :
      1 < length (contested e.players)
      → HandsOf (contested e.players) (e.board ++ to_come e.board cards)

-- The table after the uncalled bet has gone back.
abbrev pub returned : Engine → Engine
returned e = give_refund (uncalled (live_stakes e.players)) e

-- What `settle` leaves of the table `e`.
pub record Settled (e : Engine) (cards : List Card) (outcome : Outcome) (f : Engine) : Type 0 where
  pub money : bank f ≡ bank e
  pub refund : outcome.refund ≡ uncalled (live_stakes e.players)
  pub awarded :
      AllAwarded (pots_of (contested (returned e).players) (returned e).players) outcome.pots
  pub scored :
      1 < length (contested e.players)
      → ScoredRuns (returned e) cards (contested (returned e).players) outcome.runs
  pub best :
      1 < length (contested e.players)
      → All (λ (a : AwardedPot). Won outcome.runs a.eligible 0 a.runs) outcome.pots
  pub no_stakes :
      All (λ (p : Player). (p.total_live ≡ 0) × (p.total_dead ≡ 0) × (p.bet ≡ 0)) f.players
  pub is_idle : f.street ≡ idle
  pub same_length : length f.players ≡ length e.players
  pub losers :
      (k : ℕ)
      → mem k (idxs (contested e.players)) ≡ false
      → get_elem? (stacks f.players) k ≡ get_elem? (stacks (returned e).players) k
  pub paid : PaidStacks outcome.pots (returned e).players f.players

same-idxs : (xs ys : List Player) → map hand_of xs ≡ map hand_of ys → idxs xs ≡ idxs ys
same-idxs xs ys same = of_hands xs ∙ ap (map (λ (h : ℕ × List Card). h.0)) same ∙ sym (of_hands ys)
  where
    of_hands : (ps : List Player) → idxs ps ≡ map (λ (h : ℕ × List Card). h.0) (map hand_of ps)
    of_hands [] = refl
    of_hands (p ∷ ps) = ap (◌∷◌ p.idx) (of_hands ps)

same_many : (xs ys : List Player) → map hand_of xs ≡ map hand_of ys → length xs ≡ length ys
same_many xs ys same =
    sym (length-map hand_of xs)
    ∙ ap (λ (hs : List (ℕ × List Card)). length hs) same
    ∙ length-map hand_of ys

module _ (xs ys : List Player) (same : map core xs ≡ map core ys) where
  same-stacks : stacks xs ≡ stacks ys
  same-stacks = of_cores xs ∙ ap (map (λ (c : Core). c.stack)) same ∙ sym (of_cores ys)
    where
      of_cores : (ps : List Player) → stacks ps ≡ map (λ (c : Core). c.stack) (map core ps)
      of_cores [] = refl
      of_cores (p ∷ ps) = ap (◌∷◌ p.stack) (of_cores ps)

  same-live_stakes : live_stakes xs ≡ live_stakes ys
  same-live_stakes = of_cores xs ∙ ap (map (λ (c : Core). c.live)) same ∙ sym (of_cores ys)
    where
      of_cores : (ps : List Player) → live_stakes ps ≡ map (λ (c : Core). c.live) (map core ps)
      of_cores [] = refl
      of_cores (p ∷ ps) = ap (◌∷◌ p.total_live) (of_cores ps)

  same_dead : map (λ (p : Player). p.total_dead) xs ≡ map (λ (p : Player). p.total_dead) ys
  same_dead = of_cores xs ∙ ap (map (λ (c : Core). c.dead)) same ∙ sym (of_cores ys)
    where
      of_cores :
          (ps : List Player)
          → map (λ (p : Player). p.total_dead) ps ≡ map (λ (c : Core). c.dead) (map core ps)
      of_cores [] = refl
      of_cores (p ∷ ps) = ap (◌∷◌ p.total_dead) (of_cores ps)

  same-chips : total chips xs ≡ total chips ys
  same-chips =
      of_cores xs ∙ ap (total (λ (c : Core). c.stack + c.live + c.dead)) same ∙ sym (of_cores ys)
    where
      of_cores :
          (ps : List Player)
          → total chips ps ≡ total (λ (c : Core). c.stack + c.live + c.dead) (map core ps)
      of_cores [] = refl
      of_cores (p ∷ ps) = omega (arith, of_cores ps)

-- Several players left: every pot goes to best hands.
alive-Won :
    (alive players : List Player) (runs : List Run) (awarded : List AwardedPot)
    → Scoring alive runs
    → 1 < length alive
    → AllAwarded (pots_of alive players) awarded
    → All (λ (a : AwardedPot). Decided (winners_in alive runs) a.eligible 0 a.runs) awarded
    → All (λ (a : AwardedPot). Won runs a.eligible 0 a.runs) awarded
alive-Won alive players runs awarded (alone p) many all decided = absurd (omega (arith, many))
alive-Won alive players runs awarded (several {p} {q} {left} some_run complete) many all decided =
    all-Won p q left runs complete (pots_of (p ∷ q ∷ left) players) awarded
      (pot_layers-IsOpen (live_stakes players) (map (λ (x : Player). x.total_dead) players)
        (idxs (p ∷ q ∷ left)) p.idx (rw (==_refl p.idx) refl))
      all decided

-- From the table with its boards dealt to the end.
whole :
    (e : Engine) (cards : List Card) (b : Boards) (outcome : Outcome) (f : Engine)
    → RunsOut (returned e) cards b
    → (1 < length (contested (returned e).players)
        → FromBoards (contested (returned e).players) b.boards outcome.runs)
    → outcome.refund ≡ uncalled (live_stakes e.players)
    → Ends (contested (returned e).players) b.table outcome f
    → Settled e cards outcome f
whole e cards b outcome f out from refund ends =
    let same = out.cores in
    let r = give_refund-Returned e in
    let many = same_many (contested (returned e).players) (contested e.players) r.hands in
    let back = (returned e).players in
    let live = same-live_stakes b.table.players back same in
    let dead = same_dead b.table.players back same in
    let losing = same-idxs (contested back) (contested e.players) r.hands in
    record {
      money = ends.money ∙ same-chips b.table.players back same ∙ r.money;
      refund = refund;
      awarded =
          subst (λ (ps : List Pot). AllAwarded ps outcome.pots)
            (λ i. pot_layers (live i) (dead i) (idxs (contested back))) ends.awarded;
      scored = λ several_left.
          runs-ScoredRuns (returned e) cards (contested back) b.boards outcome.runs
            (out.run_out (omega (arith, many))) (from (omega (arith, many)));
      best = λ several_left.
          alive-Won (contested back) b.table.players outcome.runs outcome.pots ends.scoring
            (omega (arith, many)) ends.awarded ends.decided;
      no_stakes = ends.no_stakes;
      is_idle = ends.is_idle;
      same_length = ends.same_length ∙ same-length b.table.players back same ∙ r.same_length;
      losers = λ k out.
          ends.losers k (ap (λ (ks : List ℕ). mem k ks) losing ∙ out)
          ∙ ap (λ (xs : List ℕ). get_elem? xs k) (same-stacks b.table.players back same);
      paid = λ k s at.
          ends.paid k s
            (ap (λ (xs : List ℕ). get_elem? xs k) (same-stacks b.table.players back same) ∙ at);
    }

-- The boards of step 2 are ready for the showdown.
ready :
    (e : Engine) (cards : List Card) (b : Boards)
    → IsOver e cards
    → RunsOut (returned e) (to_come e.board cards) b
    → Dealt (returned e).players b
ready e cards b over out =
    let r = give_refund-Returned e in
    let back = (returned e).players in
    let many = same_many (contested back) (contested e.players) r.hands in
    record {
      seated = r.seated over.seated;
      cores = out.cores;
      has_button = omega (arith, out.same_button, r.same_button, r.same_length, over.has_button);
      some_left = omega (arith, many, over.some_left);
      some_board = out.some_board;
      hands = λ several.
          dealt_boards (returned e) (to_come e.board cards) (contested back) b.boards
            (out.run_out several)
            (subst
              (λ (board : List Card). HandsOf (contested back) (board ++ to_come e.board cards))
              (sym r.same_board)
              (HandsOf-same (contested e.players) (contested back)
                (e.board ++ to_come e.board cards) r.hands (over.hands (omega (arith, many)))));
    }

settle-eq :
    (runs : ℕ) (force_tabled : Bool) (e : Engine) (b : Boards)
    → run_boards runs force_tabled (returned e) ≡ ok b
    → settle runs force_tabled e
      ≡ settle_boards (uncalled (live_stakes e.players)) (contested (returned e).players) b
unfolding settle
settle-eq runs force_tabled e b h = rw h refl

pub settle-Settled :
    (runs : ℕ) (force_tabled : Bool) (e : Engine) (cards : List Card)
    → IsOver e cards
    → (outcome : Outcome) × (f : Engine) × (settle runs force_tabled e ≡ ok (outcome, f))
      × Settled e (to_come e.board cards) outcome f
settle-Settled runs force_tabled e cards over =
    let r = give_refund-Returned e in
    let many = same_many (contested (returned e).players) (contested e.players) r.hands in
    let (b, dealt, out) =
      run_boards-RunsOut (returned e) cards (r.same_deck ∙ over.has_deck) runs force_tabled
        (λ several.
          let (size, enough) = over.has_board (omega (arith, many)) in
          (
            ap board_size r.same_street
                ∙ size
                ∙ ap (λ (board : List Card). some (length board)) (sym r.same_board),
            subst (λ (board : List Card). 2 * (5 - length board) ≤ length cards) (sym r.same_board)
                enough,
          )) in
    let out' =
      subst (λ (board : List Card). RunsOut (returned e) (to_come board cards) b) r.same_board
        out in
    let (outcome, f, is, refund, from, ends) =
      settle_boards-EndsOk (uncalled (live_stakes e.players)) (returned e).players b
        (ready e cards b over out') in
    (
      outcome,
      f,
      settle-eq runs force_tabled e b dealt ∙ is,
      whole e (to_come e.board cards) b outcome f out' from refund ends,
    )
