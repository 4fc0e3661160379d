-- ===== src/Mitm/Client.antt =====
-- socks_mitm.py: `_handle_socks_client` with `_handle_mitm_connection` from its start: handshake,
-- certificate, TLS and requests, or a tunnel.
use codex_reset_proxy.Prelude.{ℕ, Bool, Option, none, some, List, [], if◌then◌else◌}
use codex_reset_proxy.Text.{Text}
use codex_reset_proxy.Runtime.{Runtime}
use codex_reset_proxy.Config.{Settings}
use codex_reset_proxy.Upstream
use codex_reset_proxy.Upstream.{HeaderOutcome}
use codex_reset_proxy.Bridge.World.{Outside, World}
use codex_reset_proxy.Socks.{End, returns, raises, run_on}
use codex_reset_proxy.Socks.Server.{SocksTarget, should_mitm}
use codex_reset_proxy.Socks.Server
use codex_reset_proxy.Socks.Client.{Outbound, open_outbound_stream}
use codex_reset_proxy.Certs
use codex_reset_proxy.Certs.{System, Machine}
use codex_reset_proxy.Certs.Authority.{Library}
use codex_reset_proxy.Certs.Leaf.{SslContext, server_ssl_context_for_host}
use codex_reset_proxy.Mitm.{Body, Handled, handle_mitm_connection}

-- A client from its first byte to its last: what is written to it in the clear and within TLS, the
-- calls on HTTP upstreams, the bridge and the connections that its tasks left held, the certificate
-- directory, and the stream of a tunnel. `_close_writer` comes last on every path.
pub record Session : Type 0 where
  pub written : Text
  pub secure : Text
  pub calls : List Upstream.Event
  pub world : World
  pub left : List ℕ
  pub machine : Machine
  pub tunnel : Option Outbound

-- Only the handshake has happened.
abbrev pub greeted : Text → Machine → World → Session
greeted written m w = record {
  written = written;
  secure = [];
  calls = [];
  world = w;
  left = [];
  machine = m;
  tunnel = none;
}

abbrev pub secured : Text → Machine → Handled → Session
secured written m h = record {
  written = written;
  secure = h.written;
  calls = h.calls;
  world = h.world;
  left = h.left;
  machine = m;
  tunnel = none;
}

-- `tls` gives what the client sends within TLS, from the bytes behind the SOCKS5 handshake; it is
-- `none` where the TLS handshake raises. `peer` is what a proxy for tunnels sends.
module _ {Key Name Certificate : Type 0} (lib : Library Key Name Certificate) (os : System)
    (tls : SslContext → Text → Option Text) (peer : Text) (py : Runtime) (phrases : ℕ → Option Text)
    (settings : Settings) (out : Outside) (pooled : Bool) (upstream : ℕ → HeaderOutcome)
    (bodies : ℕ → Body) (pulls : ℕ) where
  unfoldable pub behind_tls : Text → Option Text → Machine → World → Session
  behind_tls written none m w = greeted written m w
  behind_tls written (some plain) m w =
      secured written m
        (handle_mitm_connection py phrases settings out pooled upstream bodies pulls plain w)

  -- `_handle_mitm_connection`
  unfoldable pub intercept : SocksTarget → Text → Text → Machine → World → Session
  unfolding behind_tls
  intercept target written rest m w = elim (server_ssl_context_for_host lib os target.host m) [
    | Certs.raised e m' ↦ greeted written m' w
    | Certs.done context m' ↦ behind_tls written (tls context rest) m' w
  ]

  -- `_handle_tunnel`, up to the copying
  unfoldable pub handle_tunnel : SocksTarget → Text → Machine → World → Session
  handle_tunnel target written m w = record (greeted written m w) {
    tunnel = some (open_outbound_stream py settings target.host target.port peer);
  }

  unfoldable pub serve_target : End (Option SocksTarget) → Text → Text → Machine → World → Session
  unfolding intercept handle_tunnel
  serve_target (raises e) written rest m w = greeted written m w
  serve_target (returns none) written rest m w = greeted written m w
  serve_target (returns (some target)) written rest m w =
      if should_mitm py settings target
      then intercept target written rest m w
      else handle_tunnel target written m w

  unfoldable pub handle_socks_client : Text → Machine → World → Session
  unfolding serve_target
  handle_socks_client s m w =
      let (written, ending, rest) = run_on (Server.socks5_handshake py) s in
      serve_target ending written rest m w
