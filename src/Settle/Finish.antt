-- ===== src/Settle/Finish.antt =====
-- Lemmas on steps 3 to 7 of `settle`, from a table with its boards dealt.
use texas_holdem.Base.{
  ℕ, ◌<◌, ◌≡◌, refl, sym, ap, ◌∙◌, Bool, true, Option, List, [], ◌∷◌, map, ltb, lt-get_elem?, ◌&&◌,
  not, arith, length, length-map, All, Result, or_raise-eq-ok, ok,
}
use texas_holdem.Cards.{Card}
use texas_holdem.Table.{Player, Engine, contested, is_contesting}
use texas_holdem.Table.Seats.{Seated, idx_where-mem}
use texas_holdem.Award.{AwardedPot}
use texas_holdem.Award.Chips.{Within}
use texas_holdem.Pots.{seat_set}
use texas_holdem.Showdown.{score_runs, Run, Hand}
use texas_holdem.Showdown.Scores.{idxs}
use texas_holdem.Showdown.Winners.{HandsOn, score_runs-Complete}
use texas_holdem.Settle.{
  Error, Boards, Outcome, scored, award_table, show_table, emit_pots, go_idle, pot_winners,
  settle_boards,
}
use texas_holdem.Settle.Paying.{Scoring, alone, several, award_table-PaidOut}
use texas_holdem.Settle.Rolling.{Core, core}
use texas_holdem.Settle.Shown.{show_table-shows}
use texas_holdem.Settle.Best.{FromBoards, score_runs-FromBoards}
use texas_holdem.Settle.Ending.{Ends, Ends-idle, emit_pots-players}

-- A table whose boards are dealt: players `before` sat at it when the hand was over.
pub record Dealt (before : List Player) (b : Boards) : Type 0 where
  pub seated : Seated before
  pub cores : map core b.table.players ≡ map core before
  pub has_button : b.table.button < length before
  pub some_left : 0 < length (contested before)
  pub some_board : 0 < length b.boards
  pub hands : 1 < length (contested before) → All (HandsOn (contested before)) b.boards

abbrev standing_of : Core → Bool
standing_of c = c.in_seat && not c.folded

same-standing :
    (xs ys : List Player) → map core xs ≡ map core ys → map is_contesting xs ≡ map is_contesting ys
same-standing xs ys same = from_core xs ∙ ap (map standing_of) same ∙ sym (from_core ys)
  where
    from_core : (ps : List Player) → map is_contesting ps ≡ map standing_of (map core ps)
    from_core [] = refl
    from_core (p ∷ ps) = ap (◌∷◌ (is_contesting p)) (from_core ps)

pub same-length : (xs ys : List Player) → map core xs ≡ map core ys → length xs ≡ length ys
same-length xs ys same =
    sym (length-map core xs) ∙ ap (λ (cs : List Core). length cs) same ∙ length-map core ys

scored-Scoring :
    (alive : List Player) (boards : List (List Card))
    → 0 < length alive
    → 0 < length boards
    → (1 < length alive → All (HandsOn alive) boards)
    → (runs : List Run) × (scored alive boards ≡ ok runs) × Scoring alive runs
unfolding scored
scored-Scoring [] boards some_left some_board hands = absurd (omega arith)
scored-Scoring (p ∷ []) boards some_left some_board hands = ([], refl, alone p)
scored-Scoring (p ∷ q ∷ left) boards some_left some_board hands =
    let (runs, found, same, complete) =
      score_runs-Complete boards (p ∷ q ∷ left) (hands (omega arith)) in
    let many : ltb 1 (length (p ∷ q ∷ left)) ≡ true = ground arith in
    (runs, rw many (rw found refl), several (omega (arith, same)) complete)

scored-FromBoards :
    (alive : List Player) (boards : List (List Card)) (runs : List Run)
    → scored alive boards ≡ ok runs
    → 1 < length alive
    → FromBoards alive boards runs
unfolding scored
scored-FromBoards alive boards runs is many =
    let several : ltb 1 (length alive) ≡ true = ground arith in
    score_runs-FromBoards alive boards runs
      (or_raise-eq-ok (score_runs boards alive) Error.unscored (rw several at is))

contested-Within :
    (players : List Player) → Seated players → Within (length players) (idxs (contested players))
contested-Within players seated k there =
    let (j, p, at, on, is) = idx_where-mem is_contesting players k there in
    omega (arith, lt-get_elem? players j at, seated j p at, is)

shows :
    (before alive : List Player) (tabled : Bool) (winners : List ℕ) (runs : List Run) (e : Engine)
    → contested before ≡ alive
    → Seated before
    → map is_contesting e.players ≡ map is_contesting before
    → length e.players ≡ length before
    → e.button < length before
    → Scoring alive runs
    → (order : List ℕ) × (hands : List Hand) × (f : Engine) × (show_table alive tabled winners runs
          e
        ≡ ok (order, hands, f))
      × (f.players ≡ e.players)
unfolding show_table
shows before alive tabled winners runs e is seated stand same has_button (alone p) =
    ([], [], e, refl, refl)
shows before alive tabled winners runs e is seated stand same has_button
      (several {p} {q} {left} some_run complete) =
    show_table-shows p q left tabled winners runs before e is seated stand same has_button some_run
      complete

ended :
    (refund : Option (ℕ × ℕ)) (alive : List Player) (b : Boards) (runs : List Run)
    (paid shown : Engine) (pots : List AwardedPot) (order : List ℕ) (hands : List Hand)
    → scored alive b.boards ≡ ok runs
    → award_table alive runs b.table ≡ ok (paid, pots)
    → show_table alive b.tabled (seat_set (pot_winners pots)) runs paid ≡ ok (order, hands, shown)
    → settle_boards refund alive b
      ≡ ok (
        record {
          pots = pots;
          refund = refund;
          winners = seat_set (pot_winners pots);
          runs = runs;
          order = order;
          hands = hands;
          tabled = b.tabled;
        },
        go_idle (emit_pots (ltb 1 (length alive)) 0 pots shown),
      )
unfolding settle_boards
ended refund alive b runs paid shown pots order hands is_scored is_paid is_shown =
    rw is_scored (rw is_paid (rw is_shown refl))

abbrev pub EndsOk : List Player → Option (ℕ × ℕ) → Boards → Result Error (Outcome × Engine) → Type 0
EndsOk alive refund b r =
    (outcome : Outcome) × (f : Engine) × (r ≡ ok (outcome, f))
    × (outcome.refund ≡ refund)
    × (1 < length alive → FromBoards alive b.boards outcome.runs)
    × Ends alive b.table outcome f

pub settle_boards-EndsOk :
    (refund : Option (ℕ × ℕ)) (before : List Player) (b : Boards)
    → Dealt before b
    → EndsOk (contested before) refund b (settle_boards refund (contested before) b)
settle_boards-EndsOk refund before b d =
    let alive = contested before in
    let same = same-length b.table.players before d.cores in
    let (runs, is_scored, scoring) =
      scored-Scoring alive b.boards d.some_left d.some_board d.hands in
    let (after, pots, is_paid, pays, all, decided, paid_all) =
      award_table-PaidOut b.table (omega (arith, same, d.has_button)) alive runs
        (λ k there. omega (arith, same, contested-Within before d.seated k there)) scoring
        d.some_left in
    let (order, hands, shown, is_shown, same_players) =
      shows before alive b.tabled (seat_set (pot_winners pots)) runs
        (record b.table { players = after }) refl d.seated
        (pays.standing ∙ same-standing b.table.players before d.cores) (pays.same_length ∙ same)
        d.has_button scoring in
    (
      _,
      _,
      ended refund alive b runs _ shown pots order hands is_scored is_paid is_shown,
      refl,
      scored-FromBoards alive b.boards runs is_scored,
      Ends-idle alive b.table (emit_pots (ltb 1 (length alive)) 0 pots shown) after _
          (emit_pots-players (ltb 1 (length alive)) 0 pots shown ∙ same_players) pays all scoring
          decided paid_all,
    )
