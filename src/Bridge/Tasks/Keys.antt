-- ===== src/Bridge/Tasks/Keys.antt =====
-- websocket_bridge.py: the keys for which connections are used, while tasks run in any order.
use codex_reset_proxy.Prelude.{
  ℕ, ◌≡◌, refl, Bool, true, Option, none, some, List, [], ◌∷◌, ◌++◌, All,
}
use codex_reset_proxy.Bridge.Pool.{Key, Entry}
use codex_reset_proxy.Bridge.Pool.Invariant.{IsPool, take_idle-IsPool, put_idle-IsPool}
use codex_reset_proxy.Bridge.Tasks.{
  Shared, Task, discards, TaskStep, takes, closes_stale, reuses, misses, connects, refused, breaks,
  advances, drops, loses, completes, puts, drains, closes_next, System, Step, moves, begins, ends,
  Reach, here, then_step, initial,
}
use codex_reset_proxy.Bridge.Tasks.Owners.{
  IsFor, IsKeptIdle, IsOwn, take_idle-IsKept, put_idle-IsKept, IsFor-new, IsKeptIdle-grow,
  IsOwn-grow,
}

abbrev pub IsOwnIn : ℕ → Shared → Task → Type 0
IsOwnIn max_idle s = IsOwn s.opened_for s.next max_idle

-- The pool is well-formed, each idle connection stands under the key for which it was opened, and
-- each task uses a connection that was opened for its key.
abbrev pub IsSound : ℕ → Shared → Type 0
IsSound max_idle s = IsPool max_idle s.idle × IsKeptIdle s.opened_for s.next s.idle

abbrev pub IsIsolated : ℕ → System → Type 0
IsIsolated max_idle y = IsSound max_idle y.shared × All (IsOwnIn max_idle y.shared) y.tasks

selected-IsOwn :
    (own : ℕ → Key) (n max_idle : ℕ) (k : Key) (usable : Entry → Bool) (selected : Option Entry)
    (stale : List Entry)
    → ((e : Entry) → selected ≡ some e → (e.key ≡ k) × (usable e ≡ true))
    → ((e : Entry) → selected ≡ some e → IsFor own n e.key e.context)
    → IsOwn own n max_idle (discards k selected stale)
selected-IsOwn own n max_idle k usable none stale found kept = tt
selected-IsOwn own n max_idle k usable (some e) stale found kept =
    rw (found e refl).0 at (kept e refl)

module _ (max_idle : ℕ) where
  TaskStep-IsSound :
      {s s' : Shared} {t u : Task}
      → TaskStep max_idle t s u s'
      → IsSound max_idle s
      → IsOwnIn max_idle s t
      → IsSound max_idle s' × IsOwnIn max_idle s' u
  TaskStep-IsSound (takes k usable s) (p, i) o =
      let (pool, found) = take_idle-IsPool max_idle usable k s.idle p in
      let (idle, kept) = take_idle-IsKept s.opened_for s.next usable k s.idle i in
      ((pool, idle), selected-IsOwn s.opened_for s.next max_idle k usable _ _ found kept)
  TaskStep-IsSound (closes_stale k none e stale s) h o = (h, o)
  TaskStep-IsSound (closes_stale k (some x) e stale s) h o = (h, o)
  TaskStep-IsSound (reuses k e s) h o = (h, o)
  TaskStep-IsSound (misses k s) h o = (h, tt)
  TaskStep-IsSound (connects k s) (p, i) o =
      ((p, IsKeptIdle-grow s.opened_for s.next k s.idle i), IsFor-new s.opened_for s.next k)
  TaskStep-IsSound (refused k s) h o = (h, tt)
  TaskStep-IsSound (breaks k s) (p, i) o = ((p, IsKeptIdle-grow s.opened_for s.next k s.idle i), tt)
  TaskStep-IsSound (advances phase k c s) h o = (h, o)
  TaskStep-IsSound (drops phase k c s _) h o = (h, tt)
  TaskStep-IsSound (loses phase k c s _) h o = (h, tt)
  TaskStep-IsSound (completes k c s m) h o = (h, (m, o))
  TaskStep-IsSound (puts e s) (p, i) (m, o) = (
    (
      put_idle-IsPool max_idle e s.idle m p,
      put_idle-IsKept s.opened_for s.next max_idle e s.idle o i,
    ),
    tt,
  )
  TaskStep-IsSound (drains s) h o = ((tt, tt), tt)
  TaskStep-IsSound (closes_next e es s) h o = (h, tt)

  -- The other tasks keep what they have.
  TaskStep-others :
      {s s' : Shared} {t u : Task}
      → TaskStep max_idle t s u s'
      → (v : Task) → IsOwnIn max_idle s v
      → IsOwnIn max_idle s' v
  TaskStep-others (connects k s) v o = IsOwn-grow s.opened_for s.next k max_idle v o
  TaskStep-others (breaks k s) v o = IsOwn-grow s.opened_for s.next k max_idle v o
  TaskStep-others (takes k usable s) v o = o
  TaskStep-others (closes_stale k sel e stale s) v o = o
  TaskStep-others (reuses k e s) v o = o
  TaskStep-others (misses k s) v o = o
  TaskStep-others (refused k s) v o = o
  TaskStep-others (advances phase k c s) v o = o
  TaskStep-others (drops phase k c s _) v o = o
  TaskStep-others (loses phase k c s _) v o = o
  TaskStep-others (completes k c s m) v o = o
  TaskStep-others (puts e s) v o = o
  TaskStep-others (drains s) v o = o
  TaskStep-others (closes_next e es s) v o = o

  others :
      {s s' : Shared} {t u : Task}
      → TaskStep max_idle t s u s'
      → (ts : List Task) → All (IsOwnIn max_idle s) ts
      → All (IsOwnIn max_idle s') ts
  others step [] h = tt
  others step (v ∷ ts) h = (TaskStep-others step v h.0, others step ts h.1)

  in_place :
      {s s' : Shared} {t u : Task}
      → TaskStep max_idle t s u s'
      → (before after : List Task) → IsSound max_idle s
      → All (IsOwnIn max_idle s) (before ++ t ∷ after)
      → IsSound max_idle s' × All (IsOwnIn max_idle s') (before ++ u ∷ after)
  in_place step [] after h k =
      let (sound, o) = TaskStep-IsSound step h k.0 in (sound, (o, others step after k.1))
  in_place step (v ∷ before) after h k =
      let (sound, rest) = in_place step before after h k.1 in
      (sound, (TaskStep-others step v k.0, rest))

  Step-IsIsolated :
      {x y : System} → Step max_idle x y → IsIsolated max_idle x → IsIsolated max_idle y
  Step-IsIsolated (moves before after st) h = in_place st before after h.0 h.1
  Step-IsIsolated (begins k y) h = (h.0, (tt, h.1))
  Step-IsIsolated (ends y) h = (h.0, (tt, h.1))

  -- However the tasks of one pool interleave, a request is served only on a connection that was
  -- opened for its own key, that is for its URL and identity headers; and the pool keeps each idle
  -- connection under that key, no more of them than configured.
  pub Reach-IsIsolated :
      (k : Key) {y : System} → Reach max_idle (initial k) y → IsIsolated max_idle y
  Reach-IsIsolated k here = ((tt, tt), tt)
  Reach-IsIsolated k (then_step r st) = Step-IsIsolated st (Reach-IsIsolated k r)
