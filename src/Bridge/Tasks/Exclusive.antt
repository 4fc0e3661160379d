-- ===== src/Bridge/Tasks/Exclusive.antt =====
-- websocket_bridge.py: where each connection is, while tasks run in any order.
use codex_reset_proxy.Prelude.{ℕ, ◌+◌, ◌≡◌, List, [], ◌∷◌, ◌++◌, ltb, ◌==◌, if◌then◌else◌, arith}
use codex_reset_proxy.Bridge.Pool.{Key, drain}
use codex_reset_proxy.Bridge.Pool.Dict.{count, idle_count}
use codex_reset_proxy.Bridge.Pool.Selection.{chosen, take_idle-count, put_idle-count}
use codex_reset_proxy.Bridge.World.{held_count}
use codex_reset_proxy.Bridge.Tasks.{
  Shared, Task, discards, serves, stores, closes, TaskStep, takes, closes_stale, reuses, misses,
  connects, refused, breaks, advances, drops, loses, lost, completes, puts, drains, closes_next,
  System, Step, moves, begins, ends, Reach, here, then_step, initial,
}

-- How often a task has the connection c in its hands, or has ended without giving it up.
abbrev pub owned_count : ℕ → Task → ℕ
owned_count c (discards k selected stale) = count c (chosen selected) + count c stale
owned_count c (serves phase k d) = if d == c then 1 else 0
owned_count c (stores k d) = if d == c then 1 else 0
owned_count c (closes es) = count c es
owned_count c (lost d) = if d == c then 1 else 0
owned_count c _ = 0

abbrev pub owned_by : ℕ → List Task → ℕ
owned_by c [] = 0
owned_by c (t ∷ ts) = owned_count c t + owned_by c ts

abbrev pub opened_count : ℕ → Shared → ℕ
opened_count c s = if ltb c s.next then 1 else 0

abbrev pub shared_count : ℕ → Shared → ℕ
shared_count c s = held_count c s.closed + idle_count c s.idle

-- Every connection that was opened is closed, idle, in the hands of one task or left by one that
-- ended, and only once.
abbrev pub IsExclusive : System → Type 0
IsExclusive y = (c : ℕ) → opened_count c y.shared ≡ shared_count c y.shared + owned_by c y.tasks

owned_by-append :
    (c : ℕ) (xs ys : List Task) → owned_by c (xs ++ ys) ≡ owned_by c xs + owned_by c ys
owned_by-append c [] ys = omega arith
owned_by-append c (x ∷ xs) ys = omega (arith, owned_by-append c xs ys)

module _ (max_idle c : ℕ) where
  TaskStep-count :
      {s s' : Shared} {t u : Task}
      → TaskStep max_idle t s u s'
      → owned_count c u + shared_count c s' + opened_count c s
        ≡ owned_count c t + shared_count c s + opened_count c s'
  TaskStep-count (takes k usable s) = omega (arith, take_idle-count c usable k s.idle)
  TaskStep-count (closes_stale k selected e stale s) = omega arith
  TaskStep-count (reuses k e s) = omega arith
  TaskStep-count (misses k s) = omega arith
  TaskStep-count (connects k s) = ground arith
  TaskStep-count (refused k s) = omega arith
  TaskStep-count (breaks k s) = ground arith
  TaskStep-count (advances phase k d s) = omega arith
  TaskStep-count (drops phase k d s h) = omega arith
  TaskStep-count (loses phase k d s h) = omega arith
  TaskStep-count (completes k d s h) = omega arith
  TaskStep-count (puts e s) = omega (arith, put_idle-count c max_idle e s.idle)
  TaskStep-count (drains s) = unfold drain in omega arith
  TaskStep-count (closes_next e es s) = omega arith

Step-IsExclusive : (max_idle : ℕ) {x y : System} → Step max_idle x y → IsExclusive x → IsExclusive y
Step-IsExclusive max_idle (moves before after {t} {u} step) h = λ c. omega (
  arith,
  h c,
  TaskStep-count max_idle c step,
  owned_by-append c before (t ∷ after),
  owned_by-append c before (u ∷ after),
)
Step-IsExclusive max_idle (begins k y) h = λ c. omega (arith, h c)
Step-IsExclusive max_idle (ends y) h = λ c. omega (arith, h c)

-- However the tasks of one pool interleave, each connection that was opened is, exactly once,
-- closed, idle in the pool, in the hands of one task, or left by one task that ended without giving
-- it up: none is closed twice, none that is idle or in use is closed, and no two requests have the
-- same. A task ends so only on an unhandled exception of the first `recv`, when its stream is closed
-- before the first item, or on an exception in the check for a pending message.
pub Reach-IsExclusive :
    (max_idle : ℕ) (k : Key) {y : System} → Reach max_idle (initial k) y → IsExclusive y
unfolding drain
Reach-IsExclusive max_idle k here = λ c. ground arith
Reach-IsExclusive max_idle k (then_step r step) =
    Step-IsExclusive max_idle step (Reach-IsExclusive max_idle k r)
