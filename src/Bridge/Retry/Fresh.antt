-- ===== src/Bridge/Retry/Fresh.antt =====
-- websocket_bridge.py: what a newly opened bridge says of its owner.
use codex_reset_proxy.Prelude.{
  ℕ, zero, suc, Bool, true, false, Option, none, some, List, ◌∷◌, ◌≡◌, refl,
}
use codex_reset_proxy.Text.{Text}
use codex_reset_proxy.Json.{Fields}
use codex_reset_proxy.Runtime.{Runtime}
use codex_reset_proxy.Config.{Settings}
use codex_reset_proxy.Headers.{Header}
use codex_reset_proxy.Bridge.Pool.{Key, Entry}
use codex_reset_proxy.Bridge.Request.{Exn, Result, ok, err, build_response_create_request}
use codex_reset_proxy.Bridge.World.{
  Outside, World, Res, done, raise, Received, message, raises, receives,
}
use codex_reset_proxy.Bridge.Connect.{
  Opened, send_websocket_json, send_request, plain, pooled_as, open_websocket_bridge,
  connect_or_reuse, pool_open_websocket_bridge,
}
use codex_reset_proxy.Bridge.Retry.{
  Failure, Decision, retry, stop, decide, open_one, Tried, received, fails, receive_first, try_once,
  bridge_attempts, open_websocket_bridge_with_retries, first_message_timeout,
}

-- No background task owns the connection.
abbrev pub IsFresh : Res Opened → Type 0
IsFresh (done o w) = o.close_owned_by_background ≡ false
IsFresh (raise e w) = Unit {0}

module _ (py : Runtime) (out : Outside) (settings : Settings) where
  send_request-IsFresh :
      (o : Opened) (request : Fields) (w : World)
      → o.close_owned_by_background ≡ false
      → IsFresh (send_request py out settings o request w)
  unfolding send_request
  send_request-IsFresh o request w f =
      cases (send_websocket_json py out settings o.context request w) refl
    where
      cases :
          (r : Res (Unit {0}))
          → send_websocket_json py out settings o.context request w ≡ r
          → IsFresh (send_request py out settings o request w)
      cases (done u w') e = rw (e, send_request) f
      cases (raise x w') e = rw (e, send_request) tt

  connected-IsFresh :
      (make : ℕ → Opened) (request : Fields) (url : Text) (headers : List Header) (w : World)
      → ((c : ℕ) → (make c).close_owned_by_background ≡ false)
      → (r : Res ℕ)
      → IsFresh (elim r [
        | raise e w' ↦ raise e w'
        | done c w' ↦ send_request py out settings (make c) request w'
      ])
  connected-IsFresh make request url headers w f (done c w') =
      send_request-IsFresh (make c) request w' (f c)
  connected-IsFresh make request url headers w f (raise e w') = tt

  open_websocket_bridge-IsFresh :
      (url : Text) (headers : List Header) (body : Text) (w : World)
      → IsFresh (open_websocket_bridge py out settings url headers body w)
  unfolding open_websocket_bridge
  open_websocket_bridge-IsFresh url headers body w =
      cases (build_response_create_request py body) refl
    where
      cases :
          (r : Result Fields)
          → build_response_create_request py body ≡ r
          → IsFresh (open_websocket_bridge py out settings url headers body w)
      cases (err x) e = rw (e, open_websocket_bridge) tt
      cases (ok request) e =
          rw (e, open_websocket_bridge)
            (connected-IsFresh (λ c. plain py out settings c url) request url headers w (λ c. refl)
              _)

  connect_or_reuse-IsFresh :
      (found : Option Entry) (url : Text) (headers : List Header) (key : Key) (request : Fields)
      (w : World)
      → IsFresh (connect_or_reuse py out settings found url headers key request w)
  connect_or_reuse-IsFresh (some e) url headers key request w =
      send_request-IsFresh _ request w refl
  connect_or_reuse-IsFresh none url headers key request w =
      connected-IsFresh (λ c. pooled_as py out settings key false (plain py out settings c url))
        request url headers w (λ c. refl) _

  pool_open-IsFresh :
      (url : Text) (headers : List Header) (body : Text) (w : World)
      → IsFresh (pool_open_websocket_bridge py out settings url headers body w)
  unfolding pool_open_websocket_bridge
  pool_open-IsFresh url headers body w = cases (build_response_create_request py body) refl
    where
      cases :
          (r : Result Fields)
          → build_response_create_request py body ≡ r
          → IsFresh (pool_open_websocket_bridge py out settings url headers body w)
      cases (err x) e = rw (e, pool_open_websocket_bridge) tt
      cases (ok request) e =
          rw (e, pool_open_websocket_bridge) (connect_or_reuse-IsFresh _ url headers _ request _)

  open_one-IsFresh :
      (pooled : Bool) (url : Text) (headers : List Header) (body : Text) (w : World)
      → IsFresh (open_one py out settings pooled url headers body w)
  open_one-IsFresh true = pool_open-IsFresh
  open_one-IsFresh false = open_websocket_bridge-IsFresh

  abbrev IsFreshTried : Tried py out settings → Type 0
  IsFreshTried (received o w) = o.close_owned_by_background ≡ false
  IsFreshTried (fails e c w) = Unit {0}

  receive_first-IsFresh :
      (attempt : ℕ) (o : Opened) (w : World)
      → o.close_owned_by_background ≡ false
      → IsFreshTried (receive_first py out settings attempt o w)
  unfolding receive_first
  receive_first-IsFresh attempt o w f = cases (out.recv (receives o.context ∷ w.log)) refl
    where
      cases :
          (r : Received)
          → out.recv (receives o.context ∷ w.log) ≡ r
          → IsFreshTried (receive_first py out settings attempt o w)
      cases (message m) e = rw (e, receive_first) f
      cases (raises x) e = rw (e, receive_first) tt

  try_once-IsFresh :
      (attempt : ℕ) (pooled : Bool) (url : Text) (headers : List Header) (body : Text) (w : World)
      → IsFreshTried (try_once py out settings attempt pooled url headers body w)
  unfolding try_once
  try_once-IsFresh attempt pooled url headers body w =
      cases _ refl (open_one-IsFresh pooled url headers body w)
    where
      cases :
          (r : Res Opened)
          → open_one py out settings pooled url headers body w ≡ r
          → IsFresh r
          → IsFreshTried (try_once py out settings attempt pooled url headers body w)
      cases (done o w') e f = rw (e, try_once) (receive_first-IsFresh attempt o w' f)
      cases (raise x w') e f = rw (e, try_once) tt

  bridge_attempts-IsFresh :
      (remaining attempt : ℕ) (last : Failure) (pooled : Bool) (url : Text) (headers : List Header)
      (body : Text) (w : World)
      → IsFresh (bridge_attempts py out settings remaining attempt last pooled url headers body w)
  unfolding bridge_attempts
  bridge_attempts-IsFresh zero attempt last pooled url headers body w = tt
  bridge_attempts-IsFresh (suc remaining) attempt last pooled url headers body w =
      cases _ refl (try_once-IsFresh attempt pooled url headers body w)
        (λ f w'. bridge_attempts-IsFresh remaining (suc attempt) f pooled url headers body w')
    where
      Goal : Type 0
      Goal =
          IsFresh
            (bridge_attempts py out settings (suc remaining) attempt last pooled url headers body w)

      Later : Type 0
      Later =
          (f : Failure) (w' : World)
          → IsFresh
              (bridge_attempts py out settings remaining (suc attempt) f pooled url headers body w')

      decided_by :
          (e : Exn) (opened : Option ℕ) (w' : World) (d : Decision)
          → decide py out settings attempt e ≡ d
          → try_once py out settings attempt pooled url headers body w ≡ fails e opened w'
          → Later
          → Goal
      decided_by e opened w' (stop x) k t later = rw (t, bridge_attempts) (rw k tt)
      decided_by e opened w' (retry f closing) k t later =
          rw (t, bridge_attempts) (rw k (later f _))

      cases :
          (t : Tried py out settings)
          → try_once py out settings attempt pooled url headers body w ≡ t
          → IsFreshTried t
          → Later
          → Goal
      cases (received o w') e f later = rw (e, bridge_attempts) f
      cases (fails x opened w') e f later = decided_by x opened w' _ refl e later

  -- A bridge that was opened is owned by its request: no background task has it yet.
  pub open_websocket_bridge_with_retries-IsFresh :
      (pooled : Bool) (url : Text) (headers : List Header) (body : Text) (w : World)
      → IsFresh (open_websocket_bridge_with_retries py out settings pooled url headers body w)
  unfolding open_websocket_bridge_with_retries
  open_websocket_bridge_with_retries-IsFresh pooled url headers body w =
      bridge_attempts-IsFresh settings.upstream_max_attempts 1
        (first_message_timeout py out settings) pooled url headers body w
