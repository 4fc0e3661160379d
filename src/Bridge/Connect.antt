-- ===== src/Bridge/Connect.antt =====
-- websocket_bridge.py: `_open_websocket_connection`, `_checkout`, and the two ways to open a bridge.
pub mod Balance
use codex_reset_proxy.Prelude.{
  ℕ, suc, Bool, true, false, Option, none, some, List, [], ◌∷◌, ◌++◌, if◌then◌else◌,
}
use codex_reset_proxy.Text.{Text, codes}
use codex_reset_proxy.Json.{Fields, obj}
use codex_reset_proxy.Runtime.{Runtime}
use codex_reset_proxy.Config.{Settings}
use codex_reset_proxy.Headers.{Header}
use codex_reset_proxy.Bridge.Pool.{Key, Entry, take_idle, is_usable}
use codex_reset_proxy.Bridge.Request.{
  Exn, timeout, os_error, websocket_error, bridge, other, bridge_error, ok, err,
  build_response_create_request, websocket_pool_key,
}
use codex_reset_proxy.Bridge.World.{
  Message, connects, creates, sends, reads_clock, entered, factory_raises, context_raises, Outside,
  World, Res, done, raise, push, close_context_quietly, websocket_appears_open,
}

-- OpenedWebSocketBridge; `pooled` says that `pool` is set.
pub record Opened : Type 0 where
  pub context : ℕ
  pub url : Text
  pub first_message : Option Message
  pub attempts : ℕ
  pub close_owned_by_background : Bool
  pub pooled : Bool
  pub pool_key : Option Key
  pub reused_connection : Bool

-- exc.__class__.__name__
unfoldable pub class_name : Exn → Text
class_name timeout = codes "TimeoutError"
class_name (os_error n) = n
class_name (websocket_error n) = n
class_name (bridge e) = codes "WebSocketBridgeError"
class_name (other n) = n

-- The three `except` clauses that stand round opening a connection and round the first send.
unfoldable pub open_failure : Exn → Exn
unfolding class_name
open_failure timeout =
    bridge_error 504 (codes "websocket_open_timeout")
      (codes "timed out opening websocket or sending response.create")
open_failure e =
    bridge_error 502 (codes "websocket_open_error")
      (codes "failed to open websocket: " ++ class_name e)

-- for entry in stale: await _close_context_quietly(entry.context)
unfoldable pub close_all : List Entry → World → World
close_all [] w = w
close_all (e ∷ es) w = close_all es (close_context_quietly e.context w)

module _ (py : Runtime) (out : Outside) (settings : Settings) where
  unfoldable pub open_websocket_connection : Text → List Header → World → Res ℕ
  open_websocket_connection url headers w =
      let asked = push (connects url headers) w in
      let made = record asked { next = suc w.next; log = creates w.next ∷ asked.log } in
      elim (out.connect asked.log) [
        | entered ↦ done w.next made
        | factory_raises e ↦ raise (open_failure e) asked
        | context_raises e ↦ raise (open_failure e) (close_context_quietly w.next made)
      ]

  -- `_send_websocket_json`
  unfoldable pub send_websocket_json : ℕ → Fields → World → Res (Unit {0})
  send_websocket_json c payload w =
      let asked = push (sends c (py.dumps (obj payload))) w in
      elim (out.send asked.log) [ none ↦ done tt asked | some e ↦ raise e asked ]

  -- The send of the request, and its handlers: they close the connection.
  unfoldable pub send_request : Opened → Fields → World → Res Opened
  send_request opened request w = elim (send_websocket_json opened.context request w) [
    | done _ w' ↦ done opened w'
    | raise e w' ↦ raise (open_failure e) (close_context_quietly opened.context w')
  ]

  unfoldable pub checkout : Key → World → Option Entry × World
  checkout key w =
      let asked = push reads_clock w in
      let now = out.now asked.log in
      let usable =
        is_usable settings.websocket_pool_idle_timeout_seconds now
          (λ c. websocket_appears_open py (out.attributes asked.log c)) in
      let taken = take_idle usable key w.idle in
      (taken.0, close_all taken.1 (record asked { idle = taken.2 }))

  abbrev pub plain : ℕ → Text → Opened
  plain c url = record {
    context = c;
    url = url;
    first_message = none;
    attempts = 1;
    close_owned_by_background = false;
    pooled = false;
    pool_key = none;
    reused_connection = false;
  }

  abbrev pub pooled_as : Key → Bool → Opened → Opened
  pooled_as key reused o = record o {
    pooled = true;
    pool_key = some key;
    reused_connection = reused;
  }

  -- The function `open_websocket_bridge`.
  unfoldable pub open_websocket_bridge : Text → List Header → Text → World → Res Opened
  open_websocket_bridge url headers body w = elim (build_response_create_request py body) [
    | err e ↦ raise e w
    | ok request ↦ elim (open_websocket_connection url headers w) [
      | raise e w' ↦ raise e w'
      | done c w' ↦ send_request (plain c url) request w'
    ]
  ]

  abbrev pub connect_or_reuse :
      Option Entry → Text → List Header → Key → Fields → World → Res Opened
  connect_or_reuse (some e) url headers key request w =
      send_request (pooled_as key true (plain e.context url)) request w
  connect_or_reuse none url headers key request w = elim (open_websocket_connection url headers w) [
    | raise e w' ↦ raise e w'
    | done c w' ↦ send_request (pooled_as key false (plain c url)) request w'
  ]

  -- The method `WebSocketBridgePool.open_websocket_bridge`.
  unfoldable pub pool_open_websocket_bridge : Text → List Header → Text → World → Res Opened
  unfolding checkout
  pool_open_websocket_bridge url headers body w = elim (build_response_create_request py body) [
    | err e ↦ raise e w
    | ok request ↦
        let key = websocket_pool_key py settings url headers in
        let found = checkout key w in connect_or_reuse found.0 url headers key request found.1
  ]
