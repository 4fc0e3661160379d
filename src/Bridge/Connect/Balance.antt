-- ===== src/Bridge/Connect/Balance.antt =====
-- websocket_bridge.py: the connections that checkout and opening a bridge leave behind.
use codex_reset_proxy.Prelude.{
  ℕ, ◌+◌, ◌≡◌, refl, true, false, Option, none, some, List, [], ◌∷◌, ◌++◌, arith,
}
use codex_reset_proxy.Text.{Text}
use codex_reset_proxy.Json.{Fields, obj}
use codex_reset_proxy.Runtime.{Runtime}
use codex_reset_proxy.Config.{Settings}
use codex_reset_proxy.Headers.{Header}
use codex_reset_proxy.Bridge.Pool.{Key, Entry, take_idle, is_usable}
use codex_reset_proxy.Bridge.Pool.Dict.{count, idle_count}
use codex_reset_proxy.Bridge.Pool.Selection.{chosen, take_idle-count}
use codex_reset_proxy.Bridge.Request.{
  Exn, ok, err, build_response_create_request, websocket_pool_key, Result,
}
use codex_reset_proxy.Bridge.World.{
  Outside, World, Res, done, raise, push, close_context_quietly, closed_count, created, held_count,
  IsBalanced, Event, connects, sends, reads_clock, closes, entered, factory_raises, context_raises,
  Connected, websocket_appears_open,
}
use codex_reset_proxy.Bridge.Connect.{
  Opened, close_all, open_websocket_connection, send_websocket_json, send_request, checkout,
  open_websocket_bridge, pool_open_websocket_bridge, plain, pooled_as, connect_or_reuse,
}

-- The connections held behind an attempt to open one, on top of those held before.
abbrev pub Opens : List ℕ → Res Opened → Type 0
Opens held (done o w) = IsBalanced (o.context ∷ held) w
Opens held (raise e w) = IsBalanced held w

abbrev Connects : List ℕ → Res ℕ → Type 0
Connects held (done c w) = IsBalanced (c ∷ held) w
Connects held (raise e w) = IsBalanced held w

module _ (py : Runtime) (out : Outside) (settings : Settings) (held : List ℕ) where
  open_websocket_connection-Connects :
      (url : Text) (headers : List Header) (w : World)
      → IsBalanced held w
      → Connects held (open_websocket_connection py out settings url headers w)
  unfolding open_websocket_connection close_context_quietly
  open_websocket_connection-Connects url headers w b =
      cases (out.connect (connects url headers ∷ w.log)) refl
    where
      cases :
          (r : Connected)
          → out.connect (connects url headers ∷ w.log) ≡ r
          → Connects held (open_websocket_connection py out settings url headers w)
      cases entered e = rw (e, open_websocket_connection) (λ c. omega (arith, b c))
      cases (factory_raises x) e = rw (e, open_websocket_connection) (λ c. omega (arith, b c))
      cases (context_raises x) e = rw (e, open_websocket_connection) (λ c. omega (arith, b c))

  pub send_request-Opens :
      (o : Opened) (request : Fields) (w : World)
      → IsBalanced (o.context ∷ held) w
      → Opens held (send_request py out settings o request w)
  unfolding send_request send_websocket_json close_context_quietly
  send_request-Opens o request w b = cases (out.send asked) refl
    where
      asked : List Event
      asked = sends o.context (py.dumps (obj request)) ∷ w.log

      cases :
          (r : Option Exn)
          → out.send asked ≡ r
          → Opens held (send_request py out settings o request w)
      cases none e = rw (e, send_request, send_websocket_json) (λ c. omega (arith, b c))
      cases (some x) e = rw (e, send_request, send_websocket_json) (λ c. omega (arith, b c))

  pub open_websocket_bridge-Opens :
      (url : Text) (headers : List Header) (body : Text) (w : World)
      → IsBalanced held w
      → Opens held (open_websocket_bridge py out settings url headers body w)
  unfolding open_websocket_bridge
  open_websocket_bridge-Opens url headers body w b =
      cases (build_response_create_request py body) refl
    where
      opens :
          (request : Fields) (r : Res ℕ)
          → open_websocket_connection py out settings url headers w ≡ r
          → Connects held r
          → build_response_create_request py body ≡ ok request
          → Opens held (open_websocket_bridge py out settings url headers body w)
      opens request (done c w') e h k =
          rw (k, open_websocket_bridge)
            (rw e (send_request-Opens (plain py out settings c url) request w' h))
      opens request (raise x w') e h k = rw (k, open_websocket_bridge) (rw e h)

      cases :
          (r : Result Fields)
          → build_response_create_request py body ≡ r
          → Opens held (open_websocket_bridge py out settings url headers body w)
      cases (err e) k = rw (k, open_websocket_bridge) b
      cases (ok request) k =
          opens request _ refl (open_websocket_connection-Connects url headers w b) k

pub close_all_lem :
    (c : ℕ) (es : List Entry) (w : World)
    → (closed_count c (close_all es w).log ≡ closed_count c w.log + count c es)
      × (created c (close_all es w).log ≡ created c w.log)
      × (idle_count c (close_all es w).idle ≡ idle_count c w.idle)
unfolding close_all close_context_quietly
close_all_lem c [] w = (omega arith, refl, refl)
close_all_lem c (e ∷ es) w =
    let (a, b, d) = close_all_lem c es (push (closes e.context) w) in (omega arith, b, d)

abbrev pub found_context : Option Entry → List ℕ
found_context none = []
found_context (some e) = e.context ∷ []

found_count :
    (c : ℕ) (o : Option Entry) (held : List ℕ)
    → held_count c (found_context o ++ held) ≡ count c (chosen o) + held_count c held
found_count c none held = omega arith
found_count c (some e) held = omega arith

module _ (py : Runtime) (out : Outside) (settings : Settings) (held : List ℕ) where
  -- A checkout moves the connection that it selects from the pool to the caller, and closes what it
  -- discards.
  pub checkout-IsBalanced :
      (key : Key) (w : World)
      → IsBalanced held w
      → let (found, w') = checkout py out settings key w in
        IsBalanced (found_context found ++ held) w'
  unfolding checkout
  checkout-IsBalanced key w b = λ c.
      let asked = push reads_clock w in
      let usable =
        is_usable settings.websocket_pool_idle_timeout_seconds (out.now asked.log)
          (λ d. websocket_appears_open py (out.attributes asked.log d)) in
      let taken = take_idle usable key w.idle in
      omega (
        arith,
        b c,
        take_idle-count c usable key w.idle,
        found_count c taken.0 held,
        close_all_lem c taken.1 (record asked { idle = taken.2 }),
      )

  pub pool_open_websocket_bridge-Opens :
      (url : Text) (headers : List Header) (body : Text) (w : World)
      → IsBalanced held w
      → Opens held (pool_open_websocket_bridge py out settings url headers body w)
  unfolding pool_open_websocket_bridge
  pool_open_websocket_bridge-Opens url headers body w b =
      cases (build_response_create_request py body) refl
    where
      key : Key
      key = websocket_pool_key py settings url headers

      fresh :
          (request : Fields) (w' : World) (r : Res ℕ)
          → open_websocket_connection py out settings url headers w' ≡ r
          → Connects held r
          → Opens held (connect_or_reuse py out settings none url headers key request w')
      fresh request w' (done c w2) e h =
          rw (e, connect_or_reuse)
            (send_request-Opens py out settings held
              (pooled_as py out settings key false (plain py out settings c url)) request w2 h)
      fresh request w' (raise x w2) e h = rw (e, connect_or_reuse) h

      either :
          (request : Fields) (found : Option Entry) (w' : World)
          → IsBalanced (found_context found ++ held) w'
          → Opens held (connect_or_reuse py out settings found url headers key request w')
      either request none w' h =
          fresh request w' _ refl
            (open_websocket_connection-Connects py out settings held url headers w' h)
      either request (some e) w' h =
          send_request-Opens py out settings held
            (pooled_as py out settings key true (plain py out settings e.context url)) request w' h

      cases :
          (r : Result Fields)
          → build_response_create_request py body ≡ r
          → Opens held (pool_open_websocket_bridge py out settings url headers body w)
      cases (err e) k = rw (k, pool_open_websocket_bridge) b
      cases (ok request) k =
          rw (k, pool_open_websocket_bridge) (either request _ _ (checkout-IsBalanced key w b))
