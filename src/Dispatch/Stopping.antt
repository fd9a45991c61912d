-- ===== src/Dispatch/Stopping.antt =====
-- The end of a worker: nothing new is accepted or handled, and the consumer leaves.
use texas_holdem.Base.{
  ℕ, suc, ◌+◌, ◌≤◌, ◌≡◌, refl, sym, ap, ◌∙◌, Bool, true, false, if◌then◌else◌, ◌||◌, List, [], ◌∷◌,
  ◌++◌, length, length-append, arith, Bool-cases, inl, inr,
}
use mathlib.Core.List.{append-nil}
use texas_holdem.Dispatch.{
  Item, Consumer, unborn, waiting, exited, holding, cleared, handling, is_full, start, put_nowait,
  test_item, is_sentinel,
}
use texas_holdem.Dispatch.Prefix.{ready}
use texas_holdem.Dispatch.Steps.{
  System, Step, starts, checks, puts, gets, tests, calls, finishes, stops, leaves, stays, discards,
  empties, signals, accepted_by,
}

-- Whether a step is one of the consumer's.
abbrev pub turns : {s f : System} {more : List Item} → Step s more f → ℕ
turns (gets free is) = 1
turns (tests is) = 1
turns (calls is) = 1
turns (finishes is) = 1
turns _ = 0

-- Any further steps, with the number of those of the consumer and what they accept.
pub data Later (s : System) : ℕ → List Item → System → Type 0 where
  now : Later s 0 [] s
  next :
      {n : ℕ} {before more : List Item} {f g : System}
      → Later s n before f
      → (step : Step f more g) → Later s (n + turns step) (before ++ more) g

-- How many steps a consumer has left when its worker is stopped.
abbrev pub left : Consumer → ℕ
left unborn = 2
left waiting = 2
left exited = 0
left (holding x) = 1
left (cleared x) = 4
left (handling x) = 3

-- What has changed after some steps of a worker that is stopped.
pub record Ended (s : System) (n : ℕ) (accepted : List Item) (f : System) : Type 0 where
  pub stays_stopped : f.worker.stopping ≡ true
  pub no_more :
      f.worker.handled ++ ready f.worker.consumer ≡ s.worker.handled ++ ready s.worker.consumer
  pub only_passed : length accepted + length f.passed ≤ length s.passed
  pub bounded : n + left f.worker.consumer ≤ left s.worker.consumer

unchanged :
    (s f : System)
    → f.worker.stopping ≡ true
    → f.worker.handled ≡ s.worker.handled
    → f.worker.consumer ≡ s.worker.consumer
    → f.passed ≡ s.passed
    → Ended s 0 [] f
unchanged s f ending handled same passed = record {
  stays_stopped = ending;
  no_more = λ i. handled i ++ ready (same i);
  only_passed = let e : length f.passed ≡ length s.passed = ap length passed in omega (arith, e);
  bounded =
      let e : left f.worker.consumer ≡ left s.worker.consumer = ap left same in omega (arith, e);
}

-- The consumer goes from `c` to `d`.
moves :
    (s : System) (c d : Consumer) (handled : List Item)
    → s.worker.stopping ≡ true
    → s.worker.consumer ≡ c
    → handled ++ ready d ≡ s.worker.handled ++ ready c
    → (n : ℕ) → n + left d ≤ left c
    → (f : System) → f.worker.stopping ≡ true
    → f.worker.handled ≡ handled
    → f.worker.consumer ≡ d
    → f.passed ≡ s.passed
    → Ended s n [] f
moves s c d handled ending is same n less f ending' handled' is' passed = record {
  stays_stopped = ending';
  no_more =
      (λ i. handled' i ++ ready (is' i))
      ∙ same
      ∙ ap (λ (x : Consumer). s.worker.handled ++ ready x) (sym is);
  only_passed = let e : length f.passed ≡ length s.passed = ap length passed in omega (arith, e);
  bounded =
      let e : left s.worker.consumer ≡ left c = ap left is in
      let e' : left f.worker.consumer ≡ left d = ap left is' in omega (arith, e, e', less);
}

put-Ended :
    (s : System) (x : Item) (front back : List Item)
    → s.worker.stopping ≡ true
    → s.passed ≡ front ++ x ∷ back
    → Ended s 0
        (accepted_by (put_nowait x s.worker).0 x)
        (record s { worker = (put_nowait x s.worker).1; passed = front ++ back })
unfolding put_nowait
put-Ended s x front back ending is =
    let many : length s.passed ≡ length front + suc (length back) =
      ap length is ∙ length-append front (x ∷ back) in
    let fewer = length-append front back in
    elim (Bool-cases (is_full s.worker)) [
      | inl full ↦ rw full (record {
        stays_stopped = ending;
        no_more = refl;
        only_passed = omega (arith, many, fewer);
        bounded = omega arith;
      })
      | inr room ↦ rw room (record {
        stays_stopped = ending;
        no_more = refl;
        only_passed = omega (arith, many, fewer);
        bounded = omega arith;
      })
    ]

start-Ended :
    (s : System) (is_started : Bool)
    → s.worker.consumer ≡ unborn
    → s.worker.stopping ≡ true
    → Ended s 0 [] (record s {
      worker =
          if is_started then s.worker else record s.worker { started = true; consumer = waiting };
    })
start-Ended s true is ending = unchanged s s ending refl refl refl
start-Ended s false is ending =
    moves s unborn waiting s.worker.handled ending is refl 0 (omega arith)
      (record s { worker = record s.worker { started = true; consumer = waiting } }) ending refl
      refl refl

Step-Ended :
    (s : System) (more : List Item) (f : System) (step : Step s more f)
    → s.worker.stopping ≡ true
    → Ended s (turns step) more f
unfolding start test_item
Step-Ended s more f (starts is) ending = start-Ended s s.worker.started is ending
Step-Ended s more f (checks x work open_) ending = absurd (ground arith)
Step-Ended s more f (puts x front back work is) ending = put-Ended s x front back ending is
Step-Ended s more f (gets {x} {queue} free is) ending =
    moves s waiting (holding x) s.worker.handled ending free refl 1 (omega arith) f ending refl refl
      refl
Step-Ended s more f (tests {x} is) ending =
    let ends : (is_sentinel x || s.worker.stopping) ≡ true = ground arith in
    rw ends (
      moves s (holding x) exited s.worker.handled ending is refl 1 (omega arith)
        (record s { worker = record s.worker { consumer = exited } }) ending refl refl refl)
Step-Ended s more f (calls {x} is) ending =
    moves s (cleared x) (handling x) (s.worker.handled ++ x ∷ []) ending is
      (append-nil (s.worker.handled ++ x ∷ [])) 1 (omega arith) f ending refl refl refl
Step-Ended s more f (finishes {x} is) ending =
    moves s (handling x) waiting s.worker.handled ending is refl 1 (omega arith) f ending refl refl
      refl
Step-Ended s more f (stops free) ending = unchanged s f refl refl refl refl
Step-Ended s more f (leaves at none_yet) ending = unchanged s f ending refl refl refl
Step-Ended s more f (stays at going) ending = unchanged s f ending refl refl refl
Step-Ended s more f (discards at stopping is) ending = unchanged s f ending refl refl refl
Step-Ended s more f (empties at is) ending = unchanged s f ending refl refl refl
Step-Ended s more f (signals at stopping going room) ending = unchanged s f ending refl refl refl

-- `stop` cancels: once its flag is set, and whatever steps follow, the flag stays, only the item
-- that has already passed the consumer's test is still handed to its handler, only calls that had
-- already passed the test of `_enqueue` still put their item into the queue, and the consumer takes
-- no more steps than `left` says, which is four or fewer.
pub stopped-Ended :
    (s : System) (n : ℕ) (accepted : List Item) (f : System)
    → s.worker.stopping ≡ true
    → Later s n accepted f
    → Ended s n accepted f
stopped-Ended s n accepted f ending now = unchanged s s ending refl refl refl
stopped-Ended s n accepted f ending (next {n = m} {before} {more} {f = g} later step) =
    let first = stopped-Ended s m before g ending later in
    let last = Step-Ended g more f step first.stays_stopped in
    record {
      stays_stopped = last.stays_stopped;
      no_more = last.no_more ∙ first.no_more;
      only_passed = omega (arith, length-append before more, first.only_passed, last.only_passed);
      bounded = omega (arith, first.bounded, last.bounded);
    }
