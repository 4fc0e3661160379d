-- ===== src/Tests/Bridge.antt =====
-- The pool and the bridge at concrete inputs.
use codex_reset_proxy.Prelude.{
  ℕ, ◌≡◌, refl, Bool, true, false, none, some, List, [], ◌∷◌, ◌⊎◌, ◌==◌, arith,
}
use codex_reset_proxy.Text.{codes, eqb}
use codex_reset_proxy.Bridge.Pool.{
  Key, Entry, Idle, Bucket, take_idle, put_idle, store_rest, bucket_of, or_new, key_eqb, drain,
}
use codex_reset_proxy.Bridge.Pool.Invariant.{IsPool, take_idle-IsPool, put_idle-IsPool}
use codex_reset_proxy.Bridge.Pool.Selection.{Scanned, take_idle-Scanned}
use codex_reset_proxy.Bridge.Request.{Exn, timeout}
use codex_reset_proxy.Bridge.World.{
  Outside, World, IsBalanced, Event, creates, entered, message, text, raises, Received, receives,
}
use codex_reset_proxy.Bridge.Connect.{Opened}
use codex_reset_proxy.Bridge.Connect.Balance.{Opens}
use codex_reset_proxy.Bridge.Retry.{open_websocket_bridge_with_retries}
use codex_reset_proxy.Bridge.Retry.Balance.{
  open_websocket_bridge_with_retries-Opens, RecvRaisesHandled, IsHandled,
}
use codex_reset_proxy.Bridge.Release.{background, aclose}
use codex_reset_proxy.Bridge.Release.Balance.{Ends, background-Ends, aclose-IsBalanced}
use codex_reset_proxy.Bridge.Stream.{stream_websocket_as_sse}
use codex_reset_proxy.Bridge.Stream.Balance.{Settles, stream_websocket_as_sse-Settles}
use codex_reset_proxy.Tests.Samples.{runtime, settings, client_headers, completed_text}

abbrev key_a : Key
key_a = record { url = codes "wss://a"; identity_digest = codes "d1" }

abbrev idle_entry : ℕ → Entry
idle_entry c = record { context = c; key = key_a; created_at = 0; last_used_at = 0 }

abbrev pooled : Idle
pooled = (key_a, idle_entry 1 ∷ idle_entry 2 ∷ []) ∷ []

abbrev is_first : Entry → Bool
is_first e = e.context == 1

pooled-IsPool : IsPool 2 pooled
unfolding bucket_of
pooled-IsPool = ((omega arith, omega arith, (refl, (refl, tt))), refl, tt)

take_idle_run : take_idle is_first key_a pooled ≡ (some (idle_entry 1), idle_entry 2 ∷ [], [])
unfolding take_idle bucket_of key_eqb eqb codex_reset_proxy.Bridge.Pool.del_bucket
take_idle_run = refl

take_idle-IsPool_example :
    let (selected, stale, idle') = take_idle is_first key_a pooled in
    IsPool 2 idle' × ((e : Entry) → selected ≡ some e → (e.key ≡ key_a) × (is_first e ≡ true))
take_idle-IsPool_example = take_idle-IsPool 2 is_first key_a pooled pooled-IsPool

put_idle-IsPool_example : IsPool 2 (put_idle 2 (idle_entry 3) pooled).0
put_idle-IsPool_example = put_idle-IsPool 2 (idle_entry 3) pooled (omega arith) pooled-IsPool

take_idle-Scanned_example :
    let (selected, stale, idle') = take_idle is_first key_a pooled in
    (rest : Bucket) × Scanned is_first (or_new (bucket_of key_a pooled)) selected stale rest
    × (((bucket_of key_a pooled ≡ none) × (idle' ≡ pooled))
        ⊎ (idle' ≡ store_rest key_a rest pooled))
take_idle-Scanned_example = take_idle-Scanned is_first key_a pooled

-- Connections open, and the first socket does not answer; the second completes a response.
abbrev answer : List Event → Received
answer [] = raises timeout
answer (receives ℕ.zero ∷ es) = raises timeout
answer (_ ∷ es) = message (text completed_text)

abbrev pub outside : Outside
outside = record {
  connect = λ log. entered;
  send = λ log. none;
  recv = answer;
  now = λ log. 0;
  attributes = λ log c. record { closed = some false; state = none };
}

abbrev pub start : World
start = record { next = 0; idle = []; log = [] }

pub start-IsBalanced : IsBalanced [] start
unfolding drain
start-IsBalanced c = refl

only_timeout : (e : Exn) → raises timeout ≡ raises e → IsHandled e
only_timeout timeout h = tt
only_timeout _ h = absurd (ground arith)

pub answer-handled : RecvRaisesHandled outside
answer-handled [] e h = only_timeout e h
answer-handled (receives ℕ.zero ∷ es) e h = only_timeout e h
answer-handled (_ ∷ es) e h = absurd (ground arith)

open_websocket_bridge_with_retries-Opens_example : Opens [] (
    open_websocket_bridge_with_retries runtime outside settings true
      (codes "wss://a")
      client_headers
      (codes "{}")
      start)
open_websocket_bridge_with_retries-Opens_example =
    open_websocket_bridge_with_retries-Opens runtime outside settings [] true (codes "wss://a")
      client_headers (codes "{}") start answer-handled start-IsBalanced

-- The connection 1 is held by a request; the entries 1 and 2 of `pooled` are other examples.
abbrev opened : Opened
opened = record {
  context = 1;
  url = codes "wss://a";
  first_message = some (text completed_text);
  attempts = 1;
  close_owned_by_background = false;
  pooled = true;
  pool_key = some key_a;
  reused_connection = false;
}

abbrev serving : World
serving = record { next = 2; idle = []; log = creates 1 ∷ [] }

serving-IsBalanced : IsBalanced (1 ∷ []) serving
unfolding drain
serving-IsBalanced c = omega arith

stream_websocket_as_sse-Settles_example :
    let s = stream_websocket_as_sse runtime outside settings 2 opened serving in
    Settles 2 1 [] s.ending s.world
stream_websocket_as_sse-Settles_example =
    stream_websocket_as_sse-Settles runtime outside settings [] 2 opened serving refl
      serving-IsBalanced

background-Ends_example :
    Ends 1 [] (background runtime outside settings opened (codes "r1") serving)
background-Ends_example =
    background-Ends runtime outside settings [] opened (codes "r1") serving serving-IsBalanced

aclose-IsBalanced_example :
    IsBalanced (1 ∷ []) (aclose runtime outside settings serving)
    × ((aclose runtime outside settings serving).idle ≡ [])
aclose-IsBalanced_example =
    aclose-IsBalanced runtime outside settings (1 ∷ []) serving serving-IsBalanced
