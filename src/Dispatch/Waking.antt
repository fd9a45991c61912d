-- ===== src/Dispatch/Waking.antt =====
-- The sentinel of `stop`: the consumer does not wait for ever.
use texas_holdem.Base.{
  ℕ, ◌≤◌, ◌<◌, ◌≡◌, refl, sym, ap, ◌∙◌, Bool, true, false, ◌||◌, ◌⊎◌, List, [], ◌∷◌, ◌++◌, length,
  length-append, arith, Bool-cases, inl, inr,
}
use texas_holdem.Dispatch.{
  Item, sentinel, Consumer, unborn, waiting, exited, holding, cleared, handling, is_full, start,
  put_nowait, test_item, is_sentinel,
}
use texas_holdem.Dispatch.Steps.{
  Stopper, joining, System, Step, starts, checks, puts, gets, tests, calls, finishes, stops, leaves,
  stays, discards, empties, signals, Runs, created, steps,
}
use texas_holdem.Dispatch.Stopping.{turns, Later, left, stopped-Ended}

abbrev is_unborn : Consumer → Bool
is_unborn unborn = true
is_unborn _ = false

-- Whether the consumer will come to a `get` before its next test.
abbrev will_get : Consumer → Bool
will_get exited = false
will_get (holding x) = false
will_get _ = true

abbrev is_joining : Stopper → Bool
is_joining joining = true
is_joining _ = false

-- Once `stop` has put its sentinel, a consumer that comes to a `get` finds an item there.
record Awake (s : System) : Type 0 where
  born : s.worker.started ≡ true → is_unborn s.worker.consumer ≡ false
  ended : is_joining s.stopper ≡ true → (s.worker.stopping ≡ true) × (s.worker.started ≡ true)
  fed : is_joining s.stopper ≡ true → will_get s.worker.consumer ≡ true → 0 < length s.worker.queue

contradiction : false ≡ true → ⊥
contradiction e = cc

-- A step after which `stop` is not in its join.
before_join :
    (f : System)
    → is_joining f.stopper ≡ false
    → (f.worker.started ≡ true → is_unborn f.worker.consumer ≡ false)
    → Awake f
before_join f at born = record {
  born = born;
  ended = λ joined. absurd (contradiction (sym at ∙ joined));
  fed = λ joined. absurd (contradiction (sym at ∙ joined));
}

put-Awake :
    (s : System) (x : Item) (left_over : List Item)
    → Awake s
    → Awake (record s { worker = (put_nowait x s.worker).1; passed = left_over })
unfolding put_nowait
put-Awake s x left_over a = elim (Bool-cases (is_full s.worker)) [
  | inl full ↦ rw full (record { born = a.born; ended = a.ended; fed = a.fed })
  | inr room ↦ rw room (record {
    born = a.born;
    ended = a.ended;
    fed = λ joined will. omega (arith, length-append s.worker.queue (x ∷ []), a.fed joined will);
  })
]

Step-Awake : (s : System) (more : List Item) (f : System) → Step s more f → Awake s → Awake f
unfolding start test_item
Step-Awake s more f (starts is) a = elim (Bool-cases s.worker.started) [
  | inl again ↦ absurd (contradiction (sym (a.born again) ∙ ap is_unborn is))
  | inr first ↦ rw first record {
    born = λ going. refl;
    ended = λ joined. absurd (contradiction (sym first ∙ (a.ended joined).1));
    fed = λ joined. absurd (contradiction (sym first ∙ (a.ended joined).1));
  }
]
Step-Awake s more f (checks x work open_) a = record { born = a.born; ended = a.ended; fed = a.fed }
Step-Awake s more f (puts x front back work is) a = put-Awake s x (front ++ back) a
Step-Awake s more f (gets {x} {queue} free is) a = record {
  born = λ going. refl;
  ended = a.ended;
  fed = λ joined will. absurd (contradiction will);
}
Step-Awake s more f (tests {x} is) a = elim (Bool-cases (is_sentinel x || s.worker.stopping)) [
  | inl ends ↦ rw ends record {
    born = λ going. refl;
    ended = a.ended;
    fed = λ joined will. absurd (contradiction will);
  }
  | inr goes_on ↦ rw goes_on record {
    born = λ going. refl;
    ended = a.ended;
    fed = λ joined. let (ending, going) = a.ended joined in absurd (ground arith);
  }
]
Step-Awake s more f (calls {x} is) a = record {
  born = λ going. refl;
  ended = a.ended;
  fed = λ joined will. a.fed joined (ap will_get is);
}
Step-Awake s more f (finishes {x} is) a = record {
  born = λ going. refl;
  ended = a.ended;
  fed = λ joined will. a.fed joined (ap will_get is);
}
Step-Awake s more f (stops free) a = before_join f refl a.born
Step-Awake s more f (leaves at none_yet) a = before_join f refl a.born
Step-Awake s more f (stays at going) a = before_join f refl a.born
Step-Awake s more f (discards {x} {queue} (inl at) stopping is) a =
    before_join f (ap is_joining at) a.born
Step-Awake s more f (discards {x} {queue} (inr at) stopping is) a =
    before_join f (ap is_joining at) a.born
Step-Awake s more f (empties at is) a = before_join f refl a.born
Step-Awake s more f (signals at stopping going room) a = record {
  born = a.born;
  ended = λ joined. (stopping, going);
  fed = λ joined will. omega (arith, length-append s.worker.queue (sentinel ∷ []));
}

Runs-Awake : (maxsize : ℕ) (accepted : List Item) (s : System) → Runs maxsize accepted s → Awake s
Runs-Awake maxsize accepted s created = before_join s refl (λ going. absurd (contradiction going))
Runs-Awake maxsize accepted s (steps {before} {more} {s = v} runs step) =
    Step-Awake v more s step (Runs-Awake maxsize before v runs)

-- The consumer can take a step.
abbrev pub CanGo : System → Type 0
CanGo s = (f : System) × (step : Step s [] f) × (turns step ≡ 1)

four_left : (c : Consumer) → left c ≤ 4
four_left unborn = omega arith
four_left waiting = omega arith
four_left exited = omega arith
four_left (holding x) = omega arith
four_left (cleared x) = omega arith
four_left (handling x) = omega arith

-- `stop` ends the worker. In whatever state a new worker has come to, however its threads have been
-- interleaved, once `stop` has put its sentinel the consumer is at its end or can take its next step,
-- and from then on it takes at most four steps, whatever the other threads do.
pub stop-exits :
    (maxsize : ℕ) (accepted : List Item) (s : System)
    → Runs maxsize accepted s
    → s.stopper ≡ joining
    → ((s.worker.consumer ≡ exited) ⊎ CanGo s)
      × ((n : ℕ) (more : List Item) (f : System) → Later s n more f → n ≤ 4)
stop-exits maxsize accepted s runs at =
    let a = Runs-Awake maxsize accepted s runs in
    let joined = ap is_joining at in
    let (ending, going) = a.ended joined in
    (
      go s.worker.consumer refl s.worker.queue refl (a.born going) (a.fed joined),
      λ n more f later.
          let ended = stopped-Ended s n more f ending later in
          omega (arith, ended.bounded, four_left s.worker.consumer),
    )
  where
    go :
        (c : Consumer)
        → s.worker.consumer ≡ c
        → (queue : List Item) → s.worker.queue ≡ queue
        → is_unborn s.worker.consumer ≡ false
        → (will_get s.worker.consumer ≡ true → 0 < length s.worker.queue)
        → (s.worker.consumer ≡ exited) ⊎ CanGo s
    go unborn is queue holds born fed = absurd (contradiction (sym born ∙ ap is_unborn is))
    go waiting is [] holds born fed =
        let some_item = fed (ap will_get is) in
        let none_there : length s.worker.queue ≡ 0 = ap length holds in
        absurd (omega (arith, some_item, none_there))
    go waiting is (x ∷ queue) holds born fed = inr (_, gets is holds, refl)
    go exited is queue holds born fed = inl is
    go (holding x) is queue holds born fed = inr (_, tests is, refl)
    go (cleared x) is queue holds born fed = inr (_, calls is, refl)
    go (handling x) is queue holds born fed = inr (_, finishes is, refl)
