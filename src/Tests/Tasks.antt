-- ===== src/Tests/Tasks.antt =====
-- Tasks on one pool, the pool against its stacks, and pool keys, at concrete inputs.
use mathlib.Core.List.{Permᴰ}
use codex_reset_proxy.Prelude.{true, none, some, List, [], ◌∷◌, ◌≡◌, refl, ◌↔◌, ◌==◌, arith}
use codex_reset_proxy.Text.{codes}
use codex_reset_proxy.Headers.{Header}
use codex_reset_proxy.Bridge.Pool.{Key, Entry, take_idle, put_idle, drain, key_eqb}
use codex_reset_proxy.Bridge.Pool.Refinement.{
  Use, checkout, release, run_pool, run_stacks, run_pool-stacks,
}
use codex_reset_proxy.Bridge.Pool.Stacks.{view}
use codex_reset_proxy.Bridge.Request.{identity_headers, websocket_pool_key}
use codex_reset_proxy.Bridge.Request.Identity.{identity, websocket_pool_key_iff}
use codex_reset_proxy.Tests.Samples.{runtime, settings}
use codex_reset_proxy.Bridge.Tasks.{
  System, sending, awaiting, unstarted, streaming, serves, closes, lost, advances, loses, drains,
  Reach, here, then_step, begins, ends, moves, takes, misses, connects, completes, puts, initial,
  open_in,
}
use codex_reset_proxy.Bridge.Tasks.Exclusive.{IsExclusive, Reach-IsExclusive}
use codex_reset_proxy.Bridge.Tasks.Keys.{IsIsolated, Reach-IsIsolated}

abbrev key_a : Key
key_a = record { url = codes "wss://a"; identity_digest = codes "d1" }

abbrev stored : Entry
stored = record { context = 0; key = key_a; created_at = 5; last_used_at = 5 }

-- One request that is served on a new connection, which then returns to the pool, while a second one
-- opens its own, and a third one ends on an exception of its first `recv`.
abbrev connected : System
connected = record {
  tasks = serves sending key_a 0 ∷ serves sending key_a 1 ∷ lost 2 ∷ [];
  shared = open_in key_a (open_in key_a (open_in key_a (initial key_a).shared));
}

abbrev after_three : System
after_three = record {
  tasks = closes [] ∷ serves sending key_a 1 ∷ lost 2 ∷ [];
  shared = record connected.shared { idle = (put_idle 2 stored []).0 };
}

three_connect : Reach 2 (initial key_a) connected
unfolding take_idle codex_reset_proxy.Bridge.Pool.bucket_of
three_connect =
    then_step
      (then_step
        (then_step
          (then_step
            (then_step
              (then_step
                (then_step
                  (then_step
                    (then_step
                      (then_step
                        (then_step
                          (then_step (then_step (then_step here (begins key_a _)) (begins key_a _))
                            (begins key_a _))
                          (moves [] _ (takes key_a (λ e. true) _)))
                        (moves (_ ∷ []) _ (takes key_a (λ e. true) _)))
                      (moves (_ ∷ _ ∷ []) [] (takes key_a (λ e. true) _)))
                    (moves [] _ (misses key_a _)))
                  (moves (_ ∷ []) _ (misses key_a _)))
                (moves (_ ∷ _ ∷ []) [] (misses key_a _)))
              (moves [] _ (connects key_a _)))
            (moves (_ ∷ []) _ (connects key_a _)))
          (moves (_ ∷ _ ∷ []) [] (connects key_a _)))
        (moves (_ ∷ _ ∷ []) [] (advances sending key_a 2 _)))
      (moves (_ ∷ _ ∷ []) [] (loses awaiting key_a 2 _ refl))

three_requests : Reach 2 (initial key_a) after_three
unfolding put_idle codex_reset_proxy.Bridge.Pool.bucket_of
three_requests =
    then_step
      (then_step
        (then_step
          (then_step
            (then_step (then_step three_connect (moves [] _ (advances sending key_a 0 _)))
              (moves [] _ (advances awaiting key_a 0 _)))
            (moves [] _ (advances unstarted key_a 0 _)))
          (moves [] _ (advances streaming key_a 0 _)))
        (moves [] _ (completes key_a 0 _ (omega arith))))
      (moves [] _ (puts stored _))

-- A release may come behind the end of the pool: then nobody closes its connection.
abbrev shut : System
shut = record {
  tasks = closes [] ∷ closes [] ∷ [];
  shared = record (open_in key_a (initial key_a).shared) { idle = (put_idle 2 stored []).0 };
}

late_release : Reach 2 (initial key_a) shut
unfolding take_idle put_idle drain codex_reset_proxy.Bridge.Pool.bucket_of
late_release =
    then_step
      (then_step
        (then_step
          (then_step
            (then_step
              (then_step
                (then_step
                  (then_step
                    (then_step
                      (then_step
                        (then_step (then_step here (begins key_a _))
                          (moves [] _ (takes key_a (λ e. true) _)))
                        (moves [] _ (misses key_a _)))
                      (moves [] _ (connects key_a _)))
                    (moves [] _ (advances sending key_a 0 _)))
                  (moves [] _ (advances awaiting key_a 0 _)))
                (moves [] _ (advances unstarted key_a 0 _)))
              (moves [] _ (advances streaming key_a 0 _)))
            (moves [] _ (completes key_a 0 _ (omega arith))))
          (ends _))
        (moves [] _ (drains _)))
      (moves (_ ∷ []) [] (puts stored _))

Reach-IsExclusive_example : IsExclusive after_three
Reach-IsExclusive_example = Reach-IsExclusive 2 key_a three_requests

Reach-IsIsolated_example : IsIsolated 2 after_three
Reach-IsIsolated_example = Reach-IsIsolated 2 key_a three_requests

abbrev second : Entry
second = record { context = 1; key = key_a; created_at = 6; last_used_at = 6 }

abbrev uses : List Use
uses =
    release stored
    ∷ release second
    ∷ checkout (λ e. e.context == 0) key_a
    ∷ checkout (λ e. true) key_a
    ∷ []

run_pool-stacks_example :
    let (answers, last) = run_pool 2 uses [] in (answers, view last) ≡ run_stacks 2 uses (view [])
run_pool-stacks_example = run_pool-stacks 2 uses [] (omega arith) tt

-- The second checkout finds nothing, as the first threw away the newer connection.
run_stacks_run :
    (run_stacks 2 uses (λ k. [])).0
    ≡ (none, []) ∷ (none, []) ∷ (some stored, second ∷ []) ∷ (none, []) ∷ []
unfolding key_eqb codex_reset_proxy.Text.eqb
run_stacks_run = refl

abbrev headers_a : List Header
headers_a =
    (codes "Authorization", codes "k")
    ∷ (codes "Accept", codes "x")
    ∷ (codes "cookie", codes "c")
    ∷ []

abbrev headers_b : List Header
headers_b = (codes "Cookie", codes "c") ∷ (codes "authorization", codes "k") ∷ []

same_identity :
    identity_headers runtime settings headers_a ≡ identity_headers runtime settings headers_b
unfolding identity_headers codex_reset_proxy.Bridge.Request.sort
    codex_reset_proxy.Bridge.Request.insert codex_reset_proxy.Bridge.Request.pair_leb
    codex_reset_proxy.Bridge.Request.text_leb codex_reset_proxy.Bridge.Request.is_identity_header
    codex_reset_proxy.Text.eqb codex_reset_proxy.Text.elem codex_reset_proxy.Text.lower_byte
    codex_reset_proxy.Text.contains codex_reset_proxy.Text.starts_with
same_identity = refl

websocket_pool_key_iff_example :
    (websocket_pool_key runtime settings (codes "wss://a") headers_a
      ≡ websocket_pool_key runtime settings (codes "wss://a") headers_b)
    ↔ ((codes "wss://a" ≡ codes "wss://a")
        × Permᴰ (identity runtime settings headers_a) (identity runtime settings headers_b))
websocket_pool_key_iff_example =
    websocket_pool_key_iff runtime settings (codes "wss://a") (codes "wss://a") headers_a headers_b
      (λ same. same_identity)
