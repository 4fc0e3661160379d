-- ===== src/Bridge/Retry/Balance.antt =====
-- websocket_bridge.py: the connections that `open_websocket_bridge_with_retries` leaves behind.
use codex_reset_proxy.Prelude.{
  ℕ, zero, suc, ◌≡◌, refl, Bool, true, false, Option, none, some, List, ◌∷◌, arith,
}
use codex_reset_proxy.Text.{Text}
use codex_reset_proxy.Runtime.{Runtime}
use codex_reset_proxy.Config.{Settings}
use codex_reset_proxy.Headers.{Header}
use codex_reset_proxy.Bridge.Request.{Exn, timeout, os_error, websocket_error, bridge, other}
use codex_reset_proxy.Bridge.World.{
  Outside, World, Res, done, raise, close_context_quietly, IsBalanced, Event, receives, Received,
  message, raises,
}
use codex_reset_proxy.Bridge.Connect.{Opened}
use codex_reset_proxy.Bridge.Connect.Balance.{
  Opens, open_websocket_bridge-Opens, pool_open_websocket_bridge-Opens,
}
use codex_reset_proxy.Bridge.Retry.{
  Failure, Decision, retry, stop, decide, open_one, Tried, received, fails, receive_first, try_once,
  close_opened, back_off, bridge_attempts, open_websocket_bridge_with_retries,
  first_message_timeout,
}

-- The exceptions that the loop handles when a socket fails to deliver.
abbrev pub IsHandled : Exn → Type 0
IsHandled timeout = Unit {0}
IsHandled (os_error n) = Unit {0}
IsHandled (websocket_error n) = Unit {0}
IsHandled _ = ⊥

-- `recv` raises what the websockets library documents, or the timeout of `wait_for`.
abbrev pub RecvRaisesHandled : Outside → Type 0
RecvRaisesHandled out = (log : List Event) (e : Exn) → out.recv log ≡ raises e → IsHandled e

abbrev opt : Option ℕ → List ℕ → List ℕ
opt none held = held
opt (some c) held = c ∷ held

module _ (py : Runtime) (out : Outside) (settings : Settings) (held : List ℕ) where
  abbrev Tries : Tried py out settings → Type 0
  Tries (received o w) = IsBalanced (o.context ∷ held) w
  Tries (fails e opened w) =
      IsBalanced (opt opened held) w × ((c : ℕ) → opened ≡ some c → IsHandled e)

  open_one-Opens :
      (pooled : Bool) (url : Text) (headers : List Header) (body : Text) (w : World)
      → IsBalanced held w
      → Opens held (open_one py out settings pooled url headers body w)
  open_one-Opens true url headers body w b =
      pool_open_websocket_bridge-Opens py out settings held url headers body w b
  open_one-Opens false url headers body w b =
      open_websocket_bridge-Opens py out settings held url headers body w b

  receive_first-Tries :
      (attempt : ℕ) (o : Opened) (w : World)
      → RecvRaisesHandled out
      → IsBalanced (o.context ∷ held) w
      → Tries (receive_first py out settings attempt o w)
  unfolding receive_first
  receive_first-Tries attempt o w doc b = cases (out.recv asked) refl
    where
      asked : List Event
      asked = receives o.context ∷ w.log

      cases :
          (r : Received) → out.recv asked ≡ r → Tries (receive_first py out settings attempt o w)
      cases (message m) e = rw (e, receive_first) (λ c. omega (arith, b c))
      cases (raises x) e = rw (e, receive_first) (λ c. omega (arith, b c), λ c _. doc asked x e)

  try_once-Tries :
      (attempt : ℕ) (pooled : Bool) (url : Text) (headers : List Header) (body : Text) (w : World)
      → RecvRaisesHandled out
      → IsBalanced held w
      → Tries (try_once py out settings attempt pooled url headers body w)
  unfolding try_once
  try_once-Tries attempt pooled url headers body w doc b =
      cases (open_one py out settings pooled url headers body w) refl
        (open_one-Opens pooled url headers body w b)
    where
      cases :
          (r : Res Opened)
          → open_one py out settings pooled url headers body w ≡ r
          → Opens held r
          → Tries (try_once py out settings attempt pooled url headers body w)
      cases (raise x w') e h = rw (e, try_once) (h, λ c k. absurd (ground arith))
      cases (done o w') e h = rw (e, try_once) (receive_first-Tries attempt o w' doc h)

  back_off-IsBalanced :
      (attempt : ℕ) (w : World)
      → IsBalanced held w
      → IsBalanced held (back_off py out settings attempt w)
  unfolding back_off
  back_off-IsBalanced attempt w b = λ c. ground (arith, b c)

  decide-handled :
      (attempt : ℕ) (e : Exn)
      → IsHandled e
      → (f : Failure) × (decide py out settings attempt e ≡ retry f true)
  unfolding decide
  decide-handled attempt timeout h = (_, refl)
  decide-handled attempt (os_error n) h = (_, refl)
  decide-handled attempt (websocket_error n) h = (_, refl)
  decide-handled attempt (bridge e) h = absurd h
  decide-handled attempt (other n) h = absurd h

  -- A decision leaves open only what there was before the attempt.
  decided :
      (attempt : ℕ) (e : Exn) (opened : Option ℕ) (w : World)
      → Tries (fails e opened w)
      → ((x : Exn) → decide py out settings attempt e ≡ stop x → IsBalanced held w)
        × ((f : Failure) (closing : Bool)
            → decide py out settings attempt e ≡ retry f closing
            → IsBalanced held (close_opened py out settings closing opened w))
  unfolding close_context_quietly
  decided attempt e none w (b, h) = (λ x k. b, λ f c k. b)
  decided attempt e (some c) w (b, h) =
      let (g, again) = decide-handled attempt e (h c refl) in
      (
        λ x k. absurd (ground arith),
        λ f closing k. let t : closing ≡ true = ground arith in rw t (λ d. omega (arith, b d)),
      )

  bridge_attempts-Opens :
      (remaining attempt : ℕ) (last : Failure) (pooled : Bool) (url : Text) (headers : List Header)
      (body : Text) (w : World)
      → RecvRaisesHandled out
      → IsBalanced held w
      → Opens held
          (bridge_attempts py out settings remaining attempt last pooled url headers body w)
  unfolding bridge_attempts
  bridge_attempts-Opens zero attempt last pooled url headers body w doc b = b
  bridge_attempts-Opens (suc remaining) attempt last pooled url headers body w doc b =
      cases (try_once py out settings attempt pooled url headers body w) refl
        (try_once-Tries attempt pooled url headers body w doc b)
        (λ f w' b'.
          bridge_attempts-Opens remaining (suc attempt) f pooled url headers body w' doc b')
    where
      Goal : Type 0
      Goal =
          Opens held
            (bridge_attempts py out settings (suc remaining) attempt last pooled url headers body w)

      Later : Type 0
      Later =
          (f : Failure) (w' : World)
          → IsBalanced held w'
          → Opens held
              (bridge_attempts py out settings remaining (suc attempt) f pooled url headers body w')

      decided_by :
          (e : Exn) (opened : Option ℕ) (w' : World) (d : Decision)
          → decide py out settings attempt e ≡ d
          → try_once py out settings attempt pooled url headers body w ≡ fails e opened w'
          → Tries (fails e opened w')
          → Later
          → Goal
      decided_by e opened w' (stop x) k t h later =
          rw (t, bridge_attempts) (rw k ((decided attempt e opened w' h).0 x k))
      decided_by e opened w' (retry f closing) k t h later =
          rw (t, bridge_attempts)
            (rw k (
              later f _
                (back_off-IsBalanced attempt _ ((decided attempt e opened w' h).1 f closing k))))

      cases :
          (t : Tried py out settings)
          → try_once py out settings attempt pooled url headers body w ≡ t
          → Tries t
          → Later
          → Goal
      cases (received o w') e h later = rw (e, bridge_attempts) h
      cases (fails x opened w') e h later = decided_by x opened w' _ refl e h later

-- However often it connects, and with a pool or without, the call accounts for every connection:
-- it is closed, or idle in the pool, or it is the one returned, exactly once each. So an error leaves
-- no connection open. The socket's `recv` raises a timeout, an OSError or a WebSocketException only.
pub open_websocket_bridge_with_retries-Opens :
    (py : Runtime) (out : Outside) (settings : Settings) (held : List ℕ) (pooled : Bool)
    (url : Text) (headers : List Header) (body : Text) (w : World)
    → RecvRaisesHandled out
    → IsBalanced held w
    → Opens held (open_websocket_bridge_with_retries py out settings pooled url headers body w)
unfolding open_websocket_bridge_with_retries
open_websocket_bridge_with_retries-Opens py out settings held pooled url headers body w doc b =
    bridge_attempts-Opens py out settings held settings.upstream_max_attempts 1
      (first_message_timeout py out settings) pooled url headers body w doc b
