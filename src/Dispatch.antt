-- ===== src/Dispatch.antt =====
-- `MessageWorker` of holdem/p2p/dispatch.py: a bounded queue with one consumer. The event loop, the
-- consumer and the thread that stops it are interleaved as steps. A handler is foreign code: what is
-- kept of it is the order in which items of work are handled.
pub mod Steps
pub mod Prefix
pub mod Stopping
pub mod Waking
use texas_holdem.Base.{
  ℕ, zero, suc, ◌+◌, Bool, true, false, ◌||◌, ◌&&◌, not, List, [], ◌∷◌, ◌++◌, length, ltb, leb,
  if◌then◌else◌,
}

-- What is queued: a message or a callback, by a number of its own, or the sentinel.
pub data Item : Type 0 where
  message callback : ℕ → Item
  sentinel : Item

-- The thread of `_run`: not started, in `get`, with an item that it has not tested, with an item that
-- has passed the test, in a handler, or at its end.
pub data Consumer : Type 0 where
  unborn waiting exited : Consumer
  holding cleared handling : Item → Consumer

pub record Worker : Type 0 where
  pub queue : List Item
  pub maxsize : ℕ
  pub stopping : Bool
  pub started : Bool
  pub refused : ℕ
  pub consumer : Consumer
  -- The items that `_run` has handed to their handlers.
  pub handled : List Item

abbrev pub default_maxsize : ℕ
default_maxsize = 1024

-- `MessageWorker.__init__`
abbrev pub new_worker : ℕ → Worker
new_worker maxsize = record {
  queue = [];
  maxsize = maxsize;
  stopping = false;
  started = false;
  refused = 0;
  consumer = unborn;
  handled = [];
}

-- `queue.Full`: a queue of maximal size 0 is unbounded.
abbrev pub is_full : Worker → Bool
is_full w = ltb 0 w.maxsize && leb w.maxsize (length w.queue)

unfoldable pub start : Worker → Worker
start w = if w.started then w else record w { started = true; consumer = waiting }

-- `_enqueue`: the test, and `put_nowait`. Other threads may run between the two.
abbrev pub may_enqueue : Worker → Bool
may_enqueue w = not w.stopping && w.started

unfoldable pub put_nowait : Item → Worker → Bool × Worker
put_nowait x w =
    if is_full w
    then (false, record w { refused = w.refused + 1 })
    else (true, record w { queue = w.queue ++ x ∷ [] })

unfoldable pub enqueue : Item → Worker → Bool × Worker
unfolding put_nowait
enqueue x w = if may_enqueue w then put_nowait x w else (false, w)

unfoldable pub submit : ℕ → Worker → Bool × Worker
unfolding enqueue
submit msg w = enqueue (message msg) w

unfoldable pub submit_event : ℕ → Worker → Bool × Worker
unfolding enqueue
submit_event fn w = enqueue (callback fn) w

abbrev pub is_sentinel : Item → Bool
is_sentinel sentinel = true
is_sentinel _ = false

-- One round of `_run`: `get`, the test for the end, and the call of the handler.
abbrev pub get_item : Item → List Item → Worker → Worker
get_item x queue w = record w { queue = queue; consumer = holding x }

unfoldable pub test_item : Item → Worker → Worker
test_item x w = record w { consumer = if is_sentinel x || w.stopping then exited else cleared x }

abbrev pub call_handler : Item → Worker → Worker
call_handler x w = record w { consumer = handling x; handled = w.handled ++ x ∷ [] }

-- The handler returns or raises; `_run` goes on in either case.
abbrev pub finish_item : Worker → Worker
finish_item w = record w { consumer = waiting }

-- `stop`, up to the join: the flag is set, the backlog goes, and the sentinel is put.
abbrev pub begin_stop : Worker → Worker
begin_stop w = record w { stopping = true }

abbrev pub put_sentinel : Worker → Worker
put_sentinel w = record w { queue = w.queue ++ sentinel ∷ [] }

unfoldable pub stop : Worker → Worker
stop w = if w.started then put_sentinel (record (begin_stop w) { queue = [] }) else begin_stop w

abbrev pub depth : Worker → ℕ
depth w = length w.queue

abbrev pub is_running : Consumer → Bool
is_running unborn = false
is_running exited = false
is_running _ = true

abbrev pub is_alive : Worker → Bool
is_alive w = w.started && is_running w.consumer
