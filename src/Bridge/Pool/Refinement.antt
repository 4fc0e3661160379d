-- ===== src/Bridge/Pool/Refinement.antt =====
-- websocket_bridge.py: the pool's dict of buckets against a bounded stack of connections for each
-- key, the newest on top.
use codex_reset_proxy.Prelude.{ℕ, ◌<◌, ◌≡◌, refl, ap, ◌∙◌, Bool, Option, none, List, [], ◌∷◌}
use codex_reset_proxy.Bridge.Pool.{Key, Entry, Idle, take_idle, put_idle}
use codex_reset_proxy.Bridge.Pool.Invariant.{IsPool, take_idle-IsPool, put_idle-IsPool}
use codex_reset_proxy.Bridge.Pool.Stacks.{
  Stacks, take_from, put_onto, view, take_idle-view, put_idle-view,
}

-- What callers do to a pool.
pub data Use : Type 0 where
  checkout : (Entry → Bool) → Key → Use
  release : Entry → Use

-- What they get back: the entry found, and those to close.
abbrev pub Answer : Type 0
Answer = Option Entry × List Entry

abbrev pub run_pool : ℕ → List Use → Idle → List Answer × Idle
run_pool n [] idle = ([], idle)
run_pool n (checkout usable k ∷ us) idle =
    let (found, stale, idle') = take_idle usable k idle in
    let (answers, last) = run_pool n us idle' in ((found, stale) ∷ answers, last)
run_pool n (release e ∷ us) idle =
    let (idle', older) = put_idle n e idle in
    let (answers, last) = run_pool n us idle' in ((none, older) ∷ answers, last)

abbrev pub run_stacks : ℕ → List Use → Stacks → List Answer × Stacks
run_stacks n [] st = ([], st)
run_stacks n (checkout usable k ∷ us) st =
    let (found, stale, st') = take_from usable k st in
    let (answers, last) = run_stacks n us st' in ((found, stale) ∷ answers, last)
run_stacks n (release e ∷ us) st =
    let (st', older) = put_onto n e st in
    let (answers, last) = run_stacks n us st' in ((none, older) ∷ answers, last)

-- For every sequence of checkouts and releases, the pool gives the answers of a bounded stack of
-- connections per key: a checkout takes the newest usable one and throws away those above it, a
-- release throws away the oldest ones beyond the bound; and the buckets then stand for the stacks.
-- This is from any well-formed pool, for a bound of at least 1.
pub run_pool-stacks :
    (n : ℕ) (uses : List Use) (idle : Idle)
    → 0 < n
    → IsPool n idle
    → let (answers, last) = run_pool n uses idle in
      (answers, view last) ≡ run_stacks n uses (view idle)
run_pool-stacks n [] idle h p = refl
run_pool-stacks n (checkout usable k ∷ us) idle h p =
    let (found, stale, idle') = take_idle usable k idle in
    ap (λ (r : List Answer × Stacks). ((found, stale) ∷ r.0, r.1))
      (run_pool-stacks n us idle' h (take_idle-IsPool n usable k idle p).0)
    ∙ ap
        (λ (t : Option Entry × List Entry × Stacks).
          let r = run_stacks n us t.2 in ((t.0, t.1) ∷ r.0, r.1))
        (take_idle-view n usable k idle p)
run_pool-stacks n (release e ∷ us) idle h p =
    let (idle', older) = put_idle n e idle in
    ap (λ (r : List Answer × Stacks). ((none, older) ∷ r.0, r.1))
      (run_pool-stacks n us idle' h (put_idle-IsPool n e idle h p))
    ∙ ap (λ (t : Stacks × List Entry). let r = run_stacks n us t.0 in ((none, t.1) ∷ r.0, r.1))
        (put_idle-view n e idle)
