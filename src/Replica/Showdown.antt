-- ===== src/Replica/Showdown.antt =====
-- The streets and the showdown of `ReplicaTable`: `advance_street`, `set_all_holes`, `finish` and the
-- fields that `state_digest` hashes. The canonical form of `_normalize_result` is that of `Outcome`.
use texas_holdem.Base.{
  ℕ, Bool, true, false, ◌&&◌, not, Option, none, some, List, [], ◌∷◌, ◌++◌, map, ltb, ◌==◌,
  if◌then◌else◌, any, length, mem, sum, Result, ok, err, ◌>>=◌, ◌>>◌, guard, or_raise,
}
use texas_holdem.Cards.{Card}
use texas_holdem.Table.{Player, Street, preflop, flop, turn, contested}
use texas_holdem.Pots.{seat_set}
use texas_holdem.Streets.{next_street}
use texas_holdem.Settle.{Outcome, settle}
use texas_holdem.Settle
use texas_holdem.Replica.{
  Phase, street_over, showdown, hand_over, settled, Replica, Error, wrong_phase, no_street,
  wrong_cards, no_such_seat, dealt_twice, incomplete_board, unverified, not_conserved, no_deck,
  settling, recompute_phase, engine_result, exactly, put_hole, stacks_of,
}

abbrev pub is_street_over : Phase → Bool
is_street_over street_over = true
is_street_over _ = false

-- The cards that the next street deals.
abbrev pub street_cards : Street → Option ℕ
street_cards preflop = some 3
street_cards flop = some 1
street_cards turn = some 1
street_cards _ = none

-- `advance_street`: the revealed cards go on the tail of the dummy deck, and are dealt.
unfoldable pub advance_street : List (Option Card) → Replica → Result Error Replica
unfolding recompute_phase
advance_street cards r = do
  guard (is_street_over r.phase) wrong_phase
  need ← or_raise (street_cards r.engine.street) no_street
  revealed ← or_raise (exactly need cards) wrong_cards
  deck ← or_raise r.engine.deck no_deck
  after ← engine_result (next_street (record r.engine { deck = some (deck ++ revealed) }))
  ok (record r { live = recompute_phase (record r.live { engine = after }) })

abbrev pub same_card : Card → Card → Bool
same_card c d = (c.v == d.v) && (c.s == d.s)

-- The cards of one seat against those that are dealt already; the result adds them.
unfoldable pub check_dealt : List Card → List Card → Result Error (List Card)
check_dealt seen [] = ok seen
check_dealt seen (c ∷ cards) =
    let rest = check_dealt (c ∷ seen) cards in
    if any (same_card c) seen then err dealt_twice else rest

-- The first loop of `set_all_holes`. Seats are natural numbers by their type.
unfoldable pub check_holes :
    ℕ → List Card → List (ℕ × List (Option Card)) → Result Error (List (ℕ × List Card))
unfolding check_dealt
check_holes n seen [] = ok []
check_holes n seen ((seat, cards) ∷ holes) = do
  guard (ltb seat n) no_such_seat
  hole ← or_raise (exactly 2 cards) wrong_cards
  dealt ← check_dealt seen hole
  rest ← check_holes n dealt holes
  ok ((seat, hole) ∷ rest)

-- The second loop.
unfoldable pub put_holes : List (ℕ × List Card) → Replica → Replica
put_holes [] r = r
put_holes ((seat, hole) ∷ holes) r = put_holes holes (put_hole seat hole r)

unfoldable pub set_all_holes : List (ℕ × List (Option Card)) → Replica → Result Error Replica
unfolding check_holes put_holes
set_all_holes holes r = do
  checked ← check_holes (length r.engine.players) r.engine.board holes
  ok (put_holes checked r)

abbrev pub can_finish : Phase → Bool
can_finish showdown = true
can_finish hand_over = true
can_finish _ = false

abbrev pub settle_result {ℓ} : {A : Type ℓ} → Result Settle.Error A → Result Error A
settle_result (err reason) = err (settling reason)
settle_result (ok a) = ok a

-- `finish`. An error carries no state; when it is `not_conserved`, the engine of the source has been
-- paid, and the session voids the hand.
unfoldable pub finish_hand : Bool → Replica → Result Error Replica
unfolding settle
finish_hand force_tabled r = do
  guard (can_finish r.phase) wrong_phase
  let alive = contested r.engine.players
  guard (not (ltb 1 (length alive) && ltb (length r.engine.board) 5)) incomplete_board
  guard (not (ltb 1 (length alive) && any (λ (p : Player). not (mem p.idx r.real_holes)) alive))
      unverified
  (outcome, after) ← settle_result (settle 1 force_tabled r.engine)
  guard (sum (stacks_of after) == r.start_total) not_conserved
  ok (record r { live = record { engine = after; phase = settled }; result = some outcome })

-- What `state_digest` hashes of a player, and of the table.
pub record Digest : Type 0 where
  pub hand_no : ℕ
  pub seq : ℕ
  pub phase : Phase
  pub street : Street
  pub actor : Option ℕ
  pub seats : ℕ × Option ℕ × Option ℕ
  pub bets : ℕ × ℕ × ℕ
  pub need : List ℕ
  pub no_raise : List ℕ
  pub board : List Card
  pub players : List (ℕ × (ℕ × ℕ × ℕ × ℕ) × (Bool × Bool × Bool))
  pub result : Option Outcome

abbrev pub digest_player : Player → ℕ × (ℕ × ℕ × ℕ × ℕ) × (Bool × Bool × Bool)
digest_player p =
    (p.idx, (p.stack, p.bet, p.total_live, p.total_dead), (p.folded, p.all_in, p.in_seat))

unfoldable pub state_digest : Replica → Digest
state_digest r =
    let e = r.engine in
    record {
      hand_no = r.hand_no;
      seq = r.next_seq;
      phase = r.phase;
      street = e.street;
      actor = e.actor;
      seats = (e.button, e.sb_seat, e.bb_seat);
      bets = (e.current_bet, e.min_raise, e.raises_this_street);
      need = seat_set e.need_to_act;
      no_raise = seat_set e.no_raise;
      board = e.board;
      players = map digest_player e.players;
      result = r.result;
    }
