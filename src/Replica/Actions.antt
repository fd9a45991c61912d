-- ===== src/Replica/Actions.antt =====
-- The actions of `ReplicaTable`: `apply_action`, `_apply_now` and `_drain_pending`.
use texas_holdem.Base.{
  ℕ, zero, suc, ◌+◌, ◌-◌, Bool, true, false, ◌&&◌, ◌||◌, Option, none, some, List, [], ◌∷◌, ◌++◌,
  ltb, leb, ◌==◌, if◌then◌else◌, length, err, ok,
}
use texas_holdem.Base.Int.{ℤ, pos, negsuc}
use texas_holdem.Table.{Engine}
use texas_holdem.Betting.{Action, fold, call, raise, unknown, Amount, legal, act}
use texas_holdem.Replica.{Phase, betting, Entry, Live, Replica, recompute_phase}

-- The verdict of `apply_action`. `crashed` is no verdict: the IndexError of `legal`.
pub data Verdict : Type 0 where
  applied buffered stale rejected overflow crashed : Verdict

abbrev pub to_amount : ℤ → Amount
to_amount (pos n) = Amount.whole n
to_amount (negsuc n) = Amount.negative

-- `action == "raise" and not e.legal(seat)["can_raise"]`
abbrev pub may_go_on : Action → Engine → ℕ → Option Bool
may_go_on raise e seat = elim (legal e seat) [ none ↦ none | some lg ↦ some lg.can_raise ]
may_go_on action e seat = some true

abbrev pub is_betting : Phase → Bool
is_betting betting = true
is_betting _ = false

abbrev pub is_actor : Option ℕ → ℕ → Bool
is_actor none seat = false
is_actor (some i) seat = seat == i

abbrev pub is_action : Action → Bool
is_action (unknown word) = false
is_action _ = true

-- `e.act`, with its `IllegalAction` caught.
unfoldable pub act_now : Entry → Live → Verdict × Live
unfolding recompute_phase
act_now x l = elim (act x.seat x.action (to_amount x.amount) l.engine) [
  | err refusal ↦ (rejected, l)
  | ok after ↦ (applied, recompute_phase (record l { engine = after }))
]

-- `_apply_now`
unfoldable pub apply_now : Entry → Live → Verdict × Live
unfolding act_now legal
apply_now x l =
    if is_betting l.phase && is_actor l.engine.actor x.seat && is_action x.action
    then (elim (may_go_on x.action l.engine x.seat) [
      | none ↦ (crashed, l)
      | some false ↦ (rejected, l)
      | some true ↦ act_now x l
    ])
    else (rejected, l)

-- The dict `_pending`: `get`, `pop`, and the test of equal entries.
abbrev pub get_pending : ℕ → List (ℕ × Entry) → Option Entry
get_pending seq [] = none
get_pending seq ((k, x) ∷ pending) = if seq == k then some x else get_pending seq pending

abbrev pub remove : ℕ → List (ℕ × Entry) → List (ℕ × Entry)
remove seq [] = []
remove seq ((k, x) ∷ pending) = if seq == k then pending else (k, x) ∷ remove seq pending

abbrev pub same_action : Action → Action → Bool
same_action fold fold = true
same_action call call = true
same_action raise raise = true
same_action (unknown v) (unknown w) = v == w
same_action _ _ = false

abbrev pub same_int : ℤ → ℤ → Bool
same_int (pos m) (pos n) = m == n
same_int (negsuc m) (negsuc n) = m == n
same_int _ _ = false

abbrev pub same_entry : Entry → Entry → Bool
same_entry x y = (x.seat == y.seat) && same_action x.action y.action && same_int x.amount y.amount

-- `_drain_pending`, with the length of the buffer as fuel. A `crashed`, which would be raised out of
-- `apply_action`, stops it like a refusal.
unfoldable pub drain_pending : ℕ → Replica → Replica
unfolding apply_now
drain_pending zero r = r
drain_pending (suc fuel) r = elim (get_pending r.next_seq r.pending) [
  | none ↦ r
  | some x ↦
      let (verdict, after) = apply_now x r.live in
      let popped = record r { live = after; pending = remove r.next_seq r.pending } in
      elim verdict [
        | applied ↦ drain_pending fuel (record popped { next_seq = r.next_seq + 1 })
        | _ ↦ popped
      ]
]

abbrev pub max_pending : ℕ
max_pending = 64

-- A later action: it waits for its turn.
unfoldable pub buffer : ℕ → Entry → Replica → Verdict × Replica
buffer seq x r = elim (get_pending seq r.pending) [
  | some old ↦ (if same_entry old x then buffered else rejected, r)
  | none ↦
      if ltb max_pending (seq - r.next_seq) || leb max_pending (length r.pending)
      then (overflow, r)
      else (buffered, record r { pending = r.pending ++ (seq, x) ∷ [] })
]

-- The action whose turn it is.
unfoldable pub apply_next : Entry → Replica → Verdict × Replica
unfolding drain_pending
apply_next x r =
    let (verdict, after) = apply_now x r.live in
    let stepped = record r { live = after } in
    elim verdict [
      | applied ↦
          (applied, drain_pending (length r.pending) (record stepped { next_seq = r.next_seq + 1 }))
      | other ↦ (other, stepped)
    ]

-- `apply_action`
unfoldable pub apply_action : ℕ → Entry → Replica → Verdict × Replica
unfolding buffer apply_next
apply_action seq x r =
    if ltb seq r.next_seq
    then (stale, r)
    else if ltb r.next_seq seq
    then buffer seq x r
    else apply_next x r
