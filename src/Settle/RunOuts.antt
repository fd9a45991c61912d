-- ===== src/Settle/RunOuts.antt =====
-- Lemmas on the boards of step 2 of `settle`.
use texas_holdem.Base.{
  ℕ, ◌+◌, ◌-◌, ◌*◌, ◌<◌, ◌≤◌, ◌≡◌, refl, ap, Bool, true, false, ◌&&◌, ◌||◌, some, List, [], ◌∷◌,
  ◌++◌, map, if◌then◌else◌, ltb, ◌==◌, take, drop, arith, Bool-cases, inl, inr, length,
  length-append, total, total-append, All, Result, ok,
}
use texas_holdem.Cards.{Card, deal}
use texas_holdem.Cards.Dealing.{deal-total}
use texas_holdem.Table.{Player, Engine, contested, emit, Event}
use texas_holdem.Streets.{complete_board}
use texas_holdem.Streets.Board.{undealt}
use texas_holdem.Streets.Runout.{board_size, complete_board-peek_runout}
use texas_holdem.Settle.{Error, Boards, run_twice, run_once, run_boards, at_showdown}
use texas_holdem.Settle.Rolling.{core, complete_board-Rolls}

-- A complete board with cards of the table only.
pub record IsRunOut (e : Engine) (cards board : List Card) : Type 0 where
  pub five : 5 ≤ length board
  pub part : (m : Card → ℕ) → total m board ≤ total m e.board + total m cards

-- The cards of the deck that a showdown can still deal: none on a complete board.
abbrev pub to_come : List Card → List Card → List Card
to_come board cards = if ltb (length board) 5 then cards else []

pub record RunsOut (e : Engine) (cards : List Card) (b : Boards) : Type 0 where
  pub cores : map core b.table.players ≡ map core e.players
  pub same_button : b.table.button ≡ e.button
  pub some_board : 0 < length b.boards
  pub run_out : 1 < length (contested e.players) → All (IsRunOut e cards) b.boards

abbrev pub RunsOutOk : Engine → List Card → Result Error Boards → Type 0
RunsOutOk e cards r = (b : Boards) × (r ≡ ok b) × RunsOut e cards b

deal-enough :
    (n : ℕ) (cards : List Card)
    → n ≤ length cards
    → (out : List Card) × (left : List Card) × (deal n cards ≡ ok (out, left))
unfolding deal
deal-enough n cards h = elim (Bool-cases (ltb (length cards) n)) [
  | inl short ↦ absurd (ground arith)
  | inr fits ↦ (drop (length cards - n) cards, take (length cards - n) cards, rw fits refl)
]

abbrev no_cards : Card → ℕ
no_cards c = 0

total_one : (xs : List Card) → total (λ c. 1) xs ≡ length xs
total_one [] = refl
total_one (x ∷ xs) = omega (arith, total_one xs)

-- The table after two run-outs `one` and `two`.
abbrev both_boards : List Card → List Card → List Card → Engine → Boards
both_boards one two rest e =
    let first = e.board ++ one in
    let second = e.board ++ two in
    record {
      table = emit (Event.deal_board 2 second) (
          emit (Event.deal_board 1 first)
            (record e { deck = some rest; board = first; board2 = some second }));
      boards = first ∷ second ∷ [];
      tabled = true;
    }

module _ (e : Engine) (cards : List Card) (has_deck : e.deck ≡ some cards) where
  dealt_twice :
      (one left two rest : List Card)
      → deal (5 - length e.board) cards ≡ ok (one, left)
      → deal (5 - length e.board) left ≡ ok (two, rest)
      → RunsOutOk e cards (run_twice e)
  unfolding run_twice emit
  dealt_twice one left two rest is_one is_two =
      let need = 5 - length e.board in
      (
        both_boards one two rest e,
        rw (has_deck, run_twice) (rw is_one (rw is_two refl)),
        record {
          cores = refl;
          same_button = refl;
          some_board = omega arith;
          run_out = λ several. (
            record {
              five = omega (
                arith,
                length-append e.board one,
                (deal-total no_cards need cards one left is_one).0,
              );
              part = λ m.
                  omega (
                    arith,
                    total-append m e.board one,
                    (deal-total m need cards one left is_one).1,
                  );
            },
            (
              record {
                five = omega (
                  arith,
                  length-append e.board two,
                  (deal-total no_cards need left two rest is_two).0,
                );
                part = λ m. omega (
                  arith,
                  total-append m e.board two,
                  (deal-total m need cards one left is_one).1,
                  (deal-total m need left two rest is_two).1,
                );
              },
              tt,
            ),
          );
        },
      )

  run_twice-RunsOut : 2 * (5 - length e.board) ≤ length cards → RunsOutOk e cards (run_twice e)
  run_twice-RunsOut enough =
      let need = 5 - length e.board in
      let (one, left, is_one) = deal-enough need cards (omega arith) in
      let (one_size, one_parts) = deal-total (λ c. 1) need cards one left is_one in
      let (two, rest, is_two) =
        deal-enough need left (omega (arith, total_one one, total_one left, total_one cards)) in
      dealt_twice one left two rest is_one is_two

  run_once-RunsOut :
      (force_tabled : Bool)
      → 0 < length e.players
      → board_size e.street ≡ some (length e.board)
      → 5 - length e.board ≤ length cards
      → RunsOutOk e cards (run_once force_tabled e)
  unfolding run_once
  run_once-RunsOut force_tabled some_seat size enough =
      let (f, done, board) = complete_board-peek_runout cards e some_seat size has_deck enough in
      let (rolls, five) = complete_board-Rolls 3 e f done in
      let whole = ap (λ d. total (λ (c : Card). 1) (undealt d)) has_deck in
      (
        at_showdown (force_tabled || ltb (length e.board) 5) f,
        rw (done, run_once) refl,
        record {
          cores = rolls.cores;
          same_button = rolls.same_button;
          some_board = omega arith;
          run_out = λ several. (
            record {
              five = five;
              part = λ m. omega (arith, rolls.cards m, ap (λ d. total m (undealt d)) has_deck);
            },
            tt,
          );
        },
      )

  -- A complete board stays as it is.
  run_once-full :
      (force_tabled : Bool)
      → ltb (length e.board) 5 ≡ false
      → RunsOutOk e [] (run_once force_tabled e)
  unfolding run_once complete_board
  run_once-full force_tabled full =
      let done : complete_board 3 e ≡ some (ok e) = rw full refl in
      (
        at_showdown (force_tabled || ltb (length e.board) 5) e,
        rw (done, run_once) refl,
        record {
          cores = refl;
          same_button = refl;
          some_board = omega arith;
          run_out = λ several. (record { five = ground arith; part = λ m. omega arith }, tt);
        },
      )

  run_once-to_come :
      (force_tabled : Bool)
      → 0 < length e.players
      → board_size e.street ≡ some (length e.board)
      → 5 - length e.board ≤ length cards
      → RunsOutOk e (to_come e.board cards) (run_once force_tabled e)
  run_once-to_come force_tabled some_seat size enough = elim (Bool-cases (ltb (length e.board) 5)) [
    | inl short ↦ rw short (run_once-RunsOut force_tabled some_seat size enough)
    | inr full ↦ rw full (run_once-full force_tabled full)
  ]

  -- The table can go on to the showdown: it has a seat, the board of its street, and the cards for
  -- as many run-outs as there may be.
  pub run_boards-RunsOut :
      (runs : ℕ) (force_tabled : Bool)
      → (1 < length (contested e.players)
          → (board_size e.street ≡ some (length e.board))
            × (2 * (5 - length e.board) ≤ length cards))
      → RunsOutOk e (to_come e.board cards) (run_boards runs force_tabled e)
  unfolding run_boards
  run_boards-RunsOut runs force_tabled ready =
      elim (Bool-cases (ltb 1 (length (contested e.players)))) [
        | inl several ↦
            let (size, enough) = ready (ground arith) in
            elim (Bool-cases ((runs == 2) && ltb (length e.board) 5)) [
              | inl twice ↦
                  let short : ltb (length e.board) 5 ≡ true = ground arith in
                  rw (several, twice) (rw short (run_twice-RunsOut enough))
              | inr once ↦
                  rw (several, once)
                    (run_once-to_come force_tabled (some_seat e.players (ground arith)) size
                      (omega (arith, enough)))
            ]
        | inr over ↦ (
          record { table = e; boards = e.board ∷ []; tabled = force_tabled },
          rw over refl,
          record {
            cores = refl;
            same_button = refl;
            some_board = omega arith;
            run_out = λ several. absurd (ground arith);
          },
        )
      ]
    where
      some_seat : (players : List Player) → 1 < length (contested players) → 0 < length players
      some_seat [] h = absurd (omega arith)
      some_seat (p ∷ players) h = omega arith
