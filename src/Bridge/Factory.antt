-- ===== src/Bridge/Factory.antt =====
-- websocket_bridge.py: `default_websocket_connect_factory`, which makes a connection through the
-- outbound proxy where one is configured.
pub mod Proxied
use codex_reset_proxy.Prelude.{
  ℕ, Bool, true, false, Option, none, some, List, [], ◌∷◌, ◌==◌, if◌then◌else◌,
}
use codex_reset_proxy.Text.{Text, codes, eqb, is_empty}
use codex_reset_proxy.Runtime.{Runtime, Seconds, SplitUrl, Port, port, no_port, bad_port}
use codex_reset_proxy.Config.{Settings}
use codex_reset_proxy.Headers.{Header}
use codex_reset_proxy.Bridge.Request.{Exn, other, bridge_error, Result, ok, err}
use codex_reset_proxy.Socks.{
  Error, incomplete_read, value_error, unicode_error, overflow_error, socks_connect_error, returns,
  raises,
}
use codex_reset_proxy.Socks.Client.{Opening, refused, connected, open_socks5_socket, no_none}

-- What `websockets.connect` is called with. A socket is told by the host and port it is connected to.
pub record ConnectArguments : Type 0 where
  pub url : Text
  pub additional_headers : List Header
  pub open_timeout : Seconds
  pub ping_interval : ℕ
  pub ping_timeout : ℕ
  pub close_timeout : ℕ
  pub max_size : Option ℕ
  pub user_agent_header : Option Text
  pub sock : Option (Text × ℕ)

-- The class of an exception of outbound.py.
abbrev class_of : Error → Exn
class_of incomplete_read = other (codes "IncompleteReadError")
class_of value_error = other (codes "ValueError")
class_of unicode_error = other (codes "UnicodeError")
class_of overflow_error = other (codes "OverflowError")
class_of (socks_connect_error message) = other (codes "SocksConnectError")

abbrev pub socket_of : Opening → Result (Text × ℕ)
socket_of (refused e) = err (class_of e)
socket_of (connected hostname proxy_port written (returns u) closes) = ok (hostname, proxy_port)
socket_of (connected hostname proxy_port written (raises e) closes) = err (class_of e)

module _ (py : Runtime) (settings : Settings) (peer : Text) where
  abbrev pub connect_with : Text → List Header → Option (Text × ℕ) → ConnectArguments
  connect_with url headers sock = record {
    url = url;
    additional_headers = headers;
    open_timeout = settings.connect_timeout_seconds;
    ping_interval = 20;
    ping_timeout = 20;
    close_timeout = 10;
    max_size = none;
    user_agent_header = none;
    sock = sock;
  }

  -- parsed.port or (443 if parsed.scheme == "wss" else 80)
  abbrev pub port_or_default : Text → Port → Result ℕ
  port_or_default scheme bad_port = err (other (codes "ValueError"))
  port_or_default scheme no_port = ok (if eqb scheme (codes "wss") then 443 else 80)
  port_or_default scheme (port n) =
      ok (if n == 0 then (if eqb scheme (codes "wss") then 443 else 80) else n)

  abbrev pub with_socket : Text → List Header → Result (Text × ℕ) → Result ConnectArguments
  with_socket url headers (err e) = err e
  with_socket url headers (ok sock) = ok (connect_with url headers (some sock))

  -- The connection to a host and port behind the proxy.
  abbrev pub connect_at : Text → Text → List Header → Text → Result ℕ → Result ConnectArguments
  connect_at proxy url headers host (err e) = err e
  connect_at proxy url headers host (ok p) =
      with_socket url headers (socket_of (open_socks5_socket py proxy host p peer))

  unfoldable pub connect_through : Text → Text → List Header → Result ConnectArguments
  connect_through proxy url headers = elim (py.urlsplit url) [
    | none ↦ err (other (codes "ValueError"))
    | some parsed ↦
        if is_empty (no_none parsed.hostname)
        then err (
            bridge_error 500 (codes "invalid_websocket_url")
              (codes "websocket URL must include a host"))
        else connect_at proxy url headers (no_none parsed.hostname)
            (port_or_default parsed.scheme parsed.url_port)
  ]

  unfoldable pub default_websocket_connect_factory : Text → List Header → Result ConnectArguments
  unfolding connect_through
  default_websocket_connect_factory url headers = elim settings.outbound_proxy [
    | none ↦ ok (connect_with url headers none)
    | some proxy ↦
        if is_empty proxy
        then ok (connect_with url headers none)
        else connect_through proxy url headers
  ]
