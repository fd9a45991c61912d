-- ===== src/Dispatch/Prefix.antt =====
-- What a worker has handled of the items that it has accepted.
use mathlib.Core.List.{append-nil, append_assoc}
use texas_holdem.Base.{
  ℕ, suc, ◌<◌, ◌≤◌, ◌≡◌, refl, sym, ap, subst, ◌∙◌, true, false, ◌||◌, List, [], ◌∷◌, ◌++◌, length,
  length-append, arith, Bool-cases, inl, inr, All, All-append,
}
use texas_holdem.Dispatch.{
  Item, sentinel, Consumer, unborn, waiting, exited, holding, cleared, Worker, is_full, start,
  put_nowait, get_item, test_item, call_handler, finish_item, begin_stop, put_sentinel, is_sentinel,
}
use texas_holdem.Dispatch.Steps.{
  System, Step, starts, checks, puts, gets, tests, calls, finishes, stops, leaves, stays, discards,
  empties, signals, Runs, created, steps, accepted_by,
}

-- The item that the consumer has taken from the queue and not handed to its handler.
abbrev pub in_hand : Consumer → List Item
in_hand (holding x) = x ∷ []
in_hand (cleared x) = x ∷ []
in_hand _ = []

-- The item that is handed to its handler next, since it has passed the test.
abbrev pub ready : Consumer → List Item
ready (cleared x) = x ∷ []
ready _ = []

abbrev IsWork : Item → Type 0
IsWork x = is_sentinel x ≡ false

-- A worker that has accepted `accepted`, so far.
pub record Orderly (maxsize : ℕ) (accepted : List Item) (w : Worker) : Type 0 where
  pub size : w.maxsize ≡ maxsize
  pub bounded : 0 < maxsize → length w.queue ≤ maxsize
  pub in_order : (rest : List Item) × ((w.handled ++ ready w.consumer) ++ rest ≡ accepted)
  pub whole : w.stopping ≡ false → w.handled ++ (in_hand w.consumer ++ w.queue) ≡ accepted
  pub no_sentinel :
      w.stopping ≡ false → All (λ x. is_sentinel x ≡ false) (in_hand w.consumer ++ w.queue)

module _ (maxsize : ℕ) (before : List Item) (w : Worker) (o : Orderly maxsize before w) where
  -- A step that accepts nothing.
  silent : {f : Worker} → Orderly maxsize before f → Orderly maxsize (before ++ []) f
  silent {f} good = subst (λ (a : List Item). Orderly maxsize a f) (sym (append-nil before)) good

  room_for_one : is_full w ≡ false → (x : Item) → 0 < maxsize → length (w.queue ++ x ∷ []) ≤ maxsize
  room_for_one room x limited =
      let size = o.size in
      let few : length w.queue < maxsize = ground arith in
      omega (arith, length-append w.queue (x ∷ []), few)

  -- A step that hands nothing over, and that keeps what waits until the worker is stopped.
  carry :
      (f : Worker)
      → f.maxsize ≡ w.maxsize
      → f.handled ≡ w.handled
      → ready f.consumer ≡ ready w.consumer
      → (0 < maxsize → length f.queue ≤ maxsize)
      → (f.stopping ≡ false
          → (w.stopping ≡ false) × (in_hand w.consumer ++ w.queue ≡ in_hand f.consumer ++ f.queue))
      → Orderly maxsize before f
  carry f size handled hand bounded going = record {
    size = size ∙ o.size;
    bounded = bounded;
    in_order = let (rest, same) = o.in_order in (rest, (λ i. (handled i ++ hand i) ++ rest) ∙ same);
    whole = λ h. let (h', same) = going h in (λ i. handled i ++ sym same i) ∙ o.whole h';
    no_sentinel = λ h. let (h', same) = going h in subst (All IsWork) same (o.no_sentinel h');
  }

  put-Orderly :
      (x : Item)
      → is_sentinel x ≡ false
      → Orderly maxsize (before ++ accepted_by (put_nowait x w).0 x) (put_nowait x w).1
  unfolding put_nowait
  put-Orderly x work = elim (Bool-cases (is_full w)) [
    | inl full ↦
        rw full
          (silent (carry (record w { refused = _ }) refl refl refl o.bounded (λ h. (h, refl))))
    | inr room ↦
        let (rest, same) = o.in_order in
        rw room record {
          size = o.size;
          bounded = room_for_one room x;
          in_order = (
            rest ++ x ∷ [],
            sym (append_assoc (w.handled ++ ready w.consumer) rest (x ∷ []))
                ∙ ap (λ (a : List Item). a ++ x ∷ []) same,
          );
          whole = λ going.
              ap (λ (a : List Item). w.handled ++ a)
                (sym (append_assoc (in_hand w.consumer) w.queue (x ∷ [])))
              ∙ sym (append_assoc w.handled (in_hand w.consumer ++ w.queue) (x ∷ []))
              ∙ ap (λ (a : List Item). a ++ x ∷ []) (o.whole going);
          no_sentinel = λ going.
              subst (All IsWork) (append_assoc (in_hand w.consumer) w.queue (x ∷ [])) (
                All-append IsWork (in_hand w.consumer ++ w.queue) (x ∷ []) (o.no_sentinel going)
                  (work, tt));
        }
  ]

  test-Orderly : (x : Item) → w.consumer ≡ holding x → Orderly maxsize before (test_item x w)
  unfolding test_item
  test-Orderly x is = elim (Bool-cases w.stopping) [
    | inl ending ↦
        let ends : (is_sentinel x || w.stopping) ≡ true = ground arith in
        rw ends (
          carry (record w { consumer = exited }) refl refl (ap ready (sym is)) o.bounded
            (λ h. absurd (ground arith)))
    | inr going ↦
        let (first, later) =
          subst (λ (c : Consumer). All IsWork (in_hand c ++ w.queue)) is (o.no_sentinel going) in
        let all : w.handled ++ (x ∷ w.queue) ≡ before =
          subst (λ (c : Consumer). w.handled ++ (in_hand c ++ w.queue) ≡ before) is
            (o.whole going) in
        let goes_on : (is_sentinel x || w.stopping) ≡ false = ground arith in
        rw goes_on record {
          size = o.size;
          bounded = o.bounded;
          in_order = (w.queue, append_assoc w.handled (x ∷ []) w.queue ∙ all);
          whole = λ h. all;
          no_sentinel = λ h. (first, later);
        }
  ]

  call-Orderly : (x : Item) → w.consumer ≡ cleared x → Orderly maxsize before (call_handler x w)
  call-Orderly x is =
      let (rest, same) =
        subst (λ (c : Consumer). (rest : List Item) × ((w.handled ++ ready c) ++ rest ≡ before)) is
          o.in_order in
      record {
        size = o.size;
        bounded = o.bounded;
        in_order =
            (rest, ap (λ (a : List Item). a ++ rest) (append-nil (w.handled ++ x ∷ [])) ∙ same);
        whole = λ going.
            append_assoc w.handled (x ∷ []) w.queue
            ∙ subst (λ (c : Consumer). w.handled ++ (in_hand c ++ w.queue) ≡ before) is
                (o.whole going);
        no_sentinel = λ going.
            (subst (λ (c : Consumer). All IsWork (in_hand c ++ w.queue)) is
              (o.no_sentinel going)).1;
      }

  start-Orderly : w.consumer ≡ unborn → Orderly maxsize before (start w)
  unfolding start
  start-Orderly is = elim (Bool-cases w.started) [
    | inl again ↦
        rw again (carry (record w { started = true }) refl refl refl o.bounded (λ h. (h, refl)))
    | inr first ↦ rw first (
        carry (record w { started = true; consumer = waiting }) refl refl (ap ready (sym is))
          o.bounded (λ h. (h, ap (λ (c : Consumer). in_hand c ++ w.queue) is)))
  ]

Step-Orderly :
    (maxsize : ℕ) (before : List Item) (s : System) (more : List Item) (f : System)
    → Step s more f
    → Orderly maxsize before s.worker
    → Orderly maxsize (before ++ more) f.worker
Step-Orderly maxsize before s more f (starts is) o =
    silent maxsize before s.worker o (start-Orderly maxsize before s.worker o is)
Step-Orderly maxsize before s more f (checks x work open_) o = silent maxsize before s.worker o o
Step-Orderly maxsize before s more f (puts x front back work is) o =
    put-Orderly maxsize before s.worker o x work
Step-Orderly maxsize before s more f (gets {x} {queue} free is) o =
    let size : length s.worker.queue ≡ suc (length queue) = ap length is in
    silent maxsize before s.worker o (
      carry maxsize before s.worker o (get_item x queue s.worker) refl refl (ap ready (sym free))
        (λ limited. omega (arith, size, o.bounded limited))
        (λ h. (h, λ i. in_hand (free i) ++ is i)))
Step-Orderly maxsize before s more f (tests {x} is) o =
    silent maxsize before s.worker o (test-Orderly maxsize before s.worker o x is)
Step-Orderly maxsize before s more f (calls {x} is) o =
    silent maxsize before s.worker o (call-Orderly maxsize before s.worker o x is)
Step-Orderly maxsize before s more f (finishes is) o = silent maxsize before s.worker o (
    carry maxsize before s.worker o (finish_item s.worker) refl refl (ap ready (sym is)) o.bounded
      (λ h. (h, ap (λ (c : Consumer). in_hand c ++ s.worker.queue) is)))
Step-Orderly maxsize before s more f (stops free) o = silent maxsize before s.worker o (
    carry maxsize before s.worker o (begin_stop s.worker) refl refl refl o.bounded
      (λ h. absurd (ground arith)))
Step-Orderly maxsize before s more f (leaves at none_yet) o = silent maxsize before s.worker o o
Step-Orderly maxsize before s more f (stays at going) o = silent maxsize before s.worker o o
Step-Orderly maxsize before s more f (discards {x} {queue} at ending is) o =
    let size : length s.worker.queue ≡ suc (length queue) = ap length is in
    silent maxsize before s.worker o (
      carry maxsize before s.worker o (record s.worker { queue = queue }) refl refl refl
        (λ limited. omega (arith, size, o.bounded limited)) (λ h. absurd (ground arith)))
Step-Orderly maxsize before s more f (empties at is) o = silent maxsize before s.worker o o
Step-Orderly maxsize before s more f (signals at ending going room) o =
    silent maxsize before s.worker o (
      carry maxsize before s.worker o (put_sentinel s.worker) refl refl refl
        (room_for_one maxsize before s.worker o room sentinel) (λ h. absurd (ground arith)))

-- Messages and callbacks are handled one by one in the order in which they were accepted, none of
-- them twice and none skipped, however the callers, the consumer and the stop are interleaved: what
-- has been handled, with the item that is about to be, is a beginning of what has been accepted.
-- Until the worker is stopped, the item in the consumer's hands and the queue are exactly the rest;
-- and a bounded queue never holds more than its bound.
pub Runs-Orderly :
    (maxsize : ℕ) (accepted : List Item) (s : System)
    → Runs maxsize accepted s
    → Orderly maxsize accepted s.worker
Runs-Orderly maxsize accepted s created = record {
  size = refl;
  bounded = λ limited. omega arith;
  in_order = ([], refl);
  whole = λ going. refl;
  no_sentinel = λ going. tt;
}
Runs-Orderly maxsize accepted s (steps {before} {more} {s = v} runs step) =
    Step-Orderly maxsize before v more s step (Runs-Orderly maxsize before v runs)
