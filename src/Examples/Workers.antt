-- ===== src/Examples/Workers.antt =====
-- A worker with room for two items, and a stop while its first item is about to be handled.
use texas_holdem.Base.{ℕ, ◌≤◌, ◌≡◌, ◌⊎◌, refl, false, List, [], ◌∷◌, inl}
use texas_holdem.Dispatch.{
  Item, message, callback, sentinel, exited, Worker, new_worker, start, put_nowait, submit,
  get_item, test_item, call_handler, begin_stop, stop,
}
use texas_holdem.Dispatch.Steps.{
  System, new_system, starts, checks, puts, gets, tests, calls, stops, stays, discards, empties,
  signals, joining, flagged, Runs, created, steps,
}
use texas_holdem.Dispatch.Prefix.{Orderly, Runs-Orderly}
use texas_holdem.Dispatch.Stopping.{Later, now, next, Ended, stopped-Ended}
use texas_holdem.Dispatch.Waking.{CanGo, stop-exits}

abbrev started : System
started = record (new_system 2) { worker = start (new_worker 2) }

-- Two calls have been accepted, a third has passed the test, and the first item has passed the test of
-- the consumer.
abbrev two : Worker
two = (put_nowait (callback 2) (put_nowait (message 1) started.worker).1).1

abbrev busy : System
busy = record started {
  worker = test_item (message 1) (get_item (message 1) (callback 2 ∷ []) two);
  passed = message 3 ∷ [];
}

busy-Runs : Runs 2 (message 1 ∷ callback 2 ∷ []) busy
unfolding start put_nowait test_item
busy-Runs =
    steps
      (steps
        (steps
          (steps
            (steps
              (steps (steps (steps created (starts refl)) (checks (message 1) refl refl))
                (puts (message 1) [] [] refl refl))
              (checks (callback 2) refl refl))
            (puts (callback 2) [] [] refl refl))
          (checks (message 3) refl refl))
        (gets refl refl))
      (tests refl)

Runs-Orderly_example : Orderly 2 (message 1 ∷ callback 2 ∷ []) busy.worker
Runs-Orderly_example = Runs-Orderly 2 (message 1 ∷ callback 2 ∷ []) busy busy-Runs

abbrev halted : System
halted = record busy { worker = begin_stop busy.worker; stopper = flagged }

-- The item that has passed the test is handled, and the call that has passed its test is accepted.
abbrev late : System
late = record halted {
  worker = (put_nowait (message 3) (call_handler (message 1) halted.worker)).1;
  passed = [];
}

stopped-Ended_example : Ended halted 1 (message 3 ∷ []) late
unfolding start put_nowait test_item
stopped-Ended_example =
    stopped-Ended halted 1 (message 3 ∷ []) late refl
      (next (next now (calls refl)) (puts (message 3) [] [] refl refl))

abbrev joined : System
joined = record halted {
  worker = record halted.worker { queue = sentinel ∷ [] };
  stopper = joining;
}

joined-Runs : Runs 2 (message 1 ∷ callback 2 ∷ []) joined
unfolding start put_nowait test_item
joined-Runs =
    steps
      (steps
        (steps (steps (steps busy-Runs (stops (inl refl))) (stays refl refl))
          (discards (inl refl) refl refl))
        (empties refl refl))
      (signals refl refl refl refl)

stop-exits_example :
    ((joined.worker.consumer ≡ exited) ⊎ CanGo joined)
    × ((n : ℕ) (more : List Item) (f : System) → Later joined n more f → n ≤ 4)
stop-exits_example = stop-exits 2 (message 1 ∷ callback 2 ∷ []) joined joined-Runs refl

refused_run : (submit 3 two).0 ≡ false
unfolding start put_nowait submit
refused_run = refl

stop_run : (stop busy.worker).queue ≡ sentinel ∷ []
unfolding start put_nowait test_item stop
stop_run = refl
