-- ===== src/Dispatch/Steps.antt =====
-- The steps of a worker and the threads that use it, in any interleaving.
use texas_holdem.Base.{ℕ, ◌≡◌, ◌⊎◌, Bool, true, false, List, [], ◌∷◌, ◌++◌}
use texas_holdem.Dispatch.{
  Item, unborn, waiting, holding, cleared, handling, Worker, new_worker, is_full, start,
  may_enqueue, put_nowait, get_item, test_item, call_handler, finish_item, begin_stop, put_sentinel,
  is_sentinel,
}

-- The thread in `stop`: not there, past the flag, in the first loop, in the second, or in `join`.
pub data Stopper : Type 0 where
  outside flagged discarding signalling joining : Stopper

-- A worker, the items of the calls that are between the test of `_enqueue` and its `put_nowait`, and
-- the thread in `stop`.
pub record System : Type 0 where
  pub worker : Worker
  pub passed : List Item
  pub stopper : Stopper

abbrev pub new_system : ℕ → System
new_system maxsize = record { worker = new_worker maxsize; passed = []; stopper = outside }

-- The items that a call has put into the queue.
abbrev pub accepted_by : Bool → Item → List Item
accepted_by true x = x ∷ []
accepted_by false x = []

abbrev pub with_worker : System → Worker → System
with_worker s w = record s { worker = w }

-- One step, with the items of work that it puts into the queue. A step that changes nothing, like a
-- call that `_enqueue` turns away at its test, is left out.
pub data Step (s : System) : List Item → System → Type 0 where
  starts : s.worker.consumer ≡ unborn → Step s [] (with_worker s (start s.worker))
  checks :
      (x : Item)
      → is_sentinel x ≡ false
      → may_enqueue s.worker ≡ true
      → Step s [] (record s { passed = x ∷ s.passed })
  puts :
      (x : Item) (front back : List Item)
      → is_sentinel x ≡ false
      → s.passed ≡ front ++ x ∷ back
      → Step s
          (accepted_by (put_nowait x s.worker).0 x)
          (record s { worker = (put_nowait x s.worker).1; passed = front ++ back })
  gets :
      {x : Item} {queue : List Item}
      → s.worker.consumer ≡ waiting
      → s.worker.queue ≡ x ∷ queue
      → Step s [] (with_worker s (get_item x queue s.worker))
  tests :
      {x : Item} → s.worker.consumer ≡ holding x → Step s [] (with_worker s (test_item x s.worker))
  calls :
      {x : Item}
      → s.worker.consumer ≡ cleared x
      → Step s [] (with_worker s (call_handler x s.worker))
  finishes :
      {x : Item} → s.worker.consumer ≡ handling x → Step s [] (with_worker s (finish_item s.worker))
  stops :
      (s.stopper ≡ outside) ⊎ (s.stopper ≡ joining)
      → Step s [] (record s { worker = begin_stop s.worker; stopper = flagged })
  leaves :
      s.stopper ≡ flagged → s.worker.started ≡ false → Step s [] (record s { stopper = outside })
  stays :
      s.stopper ≡ flagged → s.worker.started ≡ true → Step s [] (record s { stopper = discarding })
  -- `get_nowait`, in the first loop or after `put_nowait` has found the queue full in the second.
  discards :
      {x : Item} {queue : List Item}
      → (s.stopper ≡ discarding) ⊎ (s.stopper ≡ signalling)
      → s.worker.stopping ≡ true
      → s.worker.queue ≡ x ∷ queue
      → Step s [] (with_worker s (record s.worker { queue = queue }))
  empties :
      s.stopper ≡ discarding → s.worker.queue ≡ [] → Step s [] (record s { stopper = signalling })
  signals :
      s.stopper ≡ signalling
      → s.worker.stopping ≡ true
      → s.worker.started ≡ true
      → is_full s.worker ≡ false
      → Step s [] (record s { worker = put_sentinel s.worker; stopper = joining })

-- Steps from a new worker, with the items accepted on the way.
pub data Runs (maxsize : ℕ) : List Item → System → Type 0 where
  created : Runs maxsize [] (new_system maxsize)
  steps :
      {before more : List Item} {s f : System}
      → Runs maxsize before s
      → Step s more f
      → Runs maxsize (before ++ more) f
