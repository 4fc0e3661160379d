-- ===== src/Bridge/Tasks.antt =====
-- websocket_bridge.py: requests that share one `WebSocketBridgePool`. Between two awaits a task runs
-- alone, and the lock makes each critical section such a part; so any order of the parts of all
-- tasks is a run.
pub mod Exclusive
pub mod Owners
pub mod Keys
use codex_reset_proxy.Prelude.{
  ℕ, zero, suc, ◌+◌, Bool, true, false, Option, none, some, List, [], ◌∷◌, ◌++◌, ◌≡◌, ◌<◌, ◌==◌,
  if◌then◌else◌, map,
}
use codex_reset_proxy.Bridge.Pool.{Key, Entry, Idle, take_idle, put_idle, drain}

-- What all tasks share: the dict of the pool, the connections opened so far, which are those below
-- `next`, and the closed ones. `opened_for` tells the key for which each was opened.
pub record Shared : Type 0 where
  pub idle : Idle
  pub next : ℕ
  pub closed : List ℕ
  pub opened_for : ℕ → Key

-- How far the request of a task is on its connection.
pub data Phase : Type 0 where
  -- the first `_send_websocket_json`
  sending : Phase
  -- the first `recv`
  awaiting : Phase
  -- behind `open_websocket_bridge_with_retries`; the stream of events has not been asked for an item
  unstarted : Phase
  -- in the `try` of `stream_websocket_as_sse`
  streaming : Phase
  -- the background task, up to and with the checks of `release`
  checking : Phase

-- The phase behind one that goes well.
abbrev pub next_phase : Phase → Phase
next_phase sending = awaiting
next_phase awaiting = unstarted
next_phase unstarted = streaming
next_phase streaming = checking
next_phase checking = checking

-- Where an error, or a consumer that goes away, makes the task close its connection.
abbrev pub can_drop : Phase → Bool
can_drop unstarted = false
can_drop _ = true

-- Where a task may end and leave its connection as it is: an exception of the first `recv` that no
-- `except` clause names; a stream that is closed before its first item; an exception in the check
-- for a pending message.
abbrev pub can_lose : Phase → Bool
can_lose awaiting = true
can_lose unstarted = true
can_lose checking = true
can_lose _ = false

-- Where a task stands, with the connections that it has in its hands.
pub data Task : Type 0 where
  -- before the critical section of `_checkout`, for the key of its request
  checks_out : Key → Task
  -- behind it: the entry selected, and the stale ones that it still has to close
  discards : Key → Option Entry → List Entry → Task
  -- in `_open_websocket_connection`
  opens : Key → Task
  -- a request on its connection
  serves : Phase → Key → ℕ → Task
  -- before the critical section of `release`
  stores : Key → ℕ → Task
  -- before the critical section of `aclose`
  shuts_down : Task
  -- closing the entries that a critical section has taken out of the pool
  closes : List Entry → Task
  ended : Task
  -- ended without giving up its connection
  lost : ℕ → Task

abbrev pub close_in : ℕ → Shared → Shared
close_in c s = record s { closed = c ∷ s.closed }

abbrev pub open_in : Key → Shared → Shared
open_in k s = record s {
  next = suc s.next;
  opened_for = λ c. if c == s.next then k else s.opened_for c;
}

-- The next part of one task. Which entries are usable, how a connection attempt ends and what
-- becomes of a request is the outside's choice. A retry is a task that begins anew.
pub data TaskStep (max_idle : ℕ) : Task → Shared → Task → Shared → Type 0 where
  takes :
      (k : Key) (usable : Entry → Bool) (s : Shared)
      → TaskStep max_idle
          (checks_out k)
          s
          (discards k (take_idle usable k s.idle).0 (take_idle usable k s.idle).1)
          (record s { idle = (take_idle usable k s.idle).2 })
  closes_stale :
      (k : Key) (selected : Option Entry) (e : Entry) (stale : List Entry) (s : Shared)
      → TaskStep max_idle
          (discards k selected (e ∷ stale))
          s
          (discards k selected stale)
          (close_in e.context s)
  reuses :
      (k : Key) (e : Entry) (s : Shared)
      → TaskStep max_idle (discards k (some e) []) s (serves sending k e.context) s
  misses : (k : Key) (s : Shared) → TaskStep max_idle (discards k none []) s (opens k) s
  connects :
      (k : Key) (s : Shared) → TaskStep max_idle (opens k) s (serves sending k s.next) (open_in k s)
  refused : (k : Key) (s : Shared) → TaskStep max_idle (opens k) s ended s
  -- entering the context raises, and it is closed
  breaks :
      (k : Key) (s : Shared) → TaskStep max_idle (opens k) s ended (close_in s.next (open_in k s))
  advances :
      (phase : Phase) (k : Key) (c : ℕ) (s : Shared)
      → TaskStep max_idle (serves phase k c) s (serves (next_phase phase) k c) s
  -- an error that is handled, an abandoned stream, or a check of `release` that fails
  drops :
      (phase : Phase) (k : Key) (c : ℕ) (s : Shared)
      → can_drop phase ≡ true
      → TaskStep max_idle (serves phase k c) s ended (close_in c s)
  loses :
      (phase : Phase) (k : Key) (c : ℕ) (s : Shared)
      → can_lose phase ≡ true
      → TaskStep max_idle (serves phase k c) s (lost c) s
  -- the checks of `release`, of which the first is that the pool keeps connections at all
  completes :
      (k : Key) (c : ℕ) (s : Shared)
      → 0 < max_idle
      → TaskStep max_idle (serves checking k c) s (stores k c) s
  puts :
      (e : Entry) (s : Shared)
      → TaskStep max_idle
          (stores e.key e.context)
          s
          (closes (put_idle max_idle e s.idle).1)
          (record s { idle = (put_idle max_idle e s.idle).0 })
  drains :
      (s : Shared) → TaskStep max_idle shuts_down s (closes (drain s.idle)) (record s { idle = [] })
  closes_next :
      (e : Entry) (es : List Entry) (s : Shared)
      → TaskStep max_idle (closes (e ∷ es)) s (closes es) (close_in e.context s)

-- All tasks, and what they share.
pub record System : Type 0 where
  pub tasks : List Task
  pub shared : Shared

-- A step of the system is one part of one of its tasks; a task may also begin.
pub data Step (max_idle : ℕ) : System → System → Type 0 where
  moves :
      (before after : List Task) {t u : Task} {s s' : Shared}
      → TaskStep max_idle t s u s'
      → Step max_idle
          (record { tasks = before ++ t ∷ after; shared = s })
          (record { tasks = before ++ u ∷ after; shared = s' })
  begins : (k : Key) (y : System) → Step max_idle y (record y { tasks = checks_out k ∷ y.tasks })
  ends : (y : System) → Step max_idle y (record y { tasks = shuts_down ∷ y.tasks })

pub data Reach (max_idle : ℕ) (y : System) : System → Type 0 where
  here : Reach max_idle y y
  then_step : {x z : System} → Reach max_idle y x → Step max_idle x z → Reach max_idle y z

-- The pool as `__init__` makes it, without a task.
abbrev pub initial : Key → System
initial k = record {
  tasks = [];
  shared = record { idle = []; next = 0; closed = []; opened_for = λ c. k };
}
