-- ===== src/Bridge/Factory/Proxied.antt =====
-- websocket_bridge.py: where the sockets of WebSocket connections lead.
use codex_reset_proxy.Prelude.{
  ℕ, ◌≡◌, refl, false, not, ◌||◌, Option, none, some, List, ◌==◌, inl, inr, Option-cases,
  Bool-cases,
}
use codex_reset_proxy.Text.{Text, is_empty}
use codex_reset_proxy.Runtime.{Runtime, SplitUrl, Port, port, no_port, bad_port}
use codex_reset_proxy.Config.{Settings}
use codex_reset_proxy.Headers.{Header}
use codex_reset_proxy.Bridge.Request.{Result, ok, err}
use codex_reset_proxy.Bridge.Factory.{
  ConnectArguments, socket_of, with_socket, connect_at, connect_through,
  default_websocket_connect_factory,
}
use codex_reset_proxy.Socks.{returns, raises}
use codex_reset_proxy.Socks.Client.{
  Opening, refused, connected, open_socks5_socket, no_none, open_at, is_socks,
}

module _ (py : Runtime) (proxy : Text) where
  -- The host and port that the proxy's URL names.
  abbrev pub Names : Text → ℕ → Type 0
  Names host proxy_port =
      (u : SplitUrl) × (py.urlsplit proxy ≡ some u)
      × (no_none u.hostname ≡ host)
      × (u.url_port ≡ port proxy_port)

  abbrev pub LeadsToProxy : Opening → Type 0
  LeadsToProxy (refused e) = Unit {0}
  LeadsToProxy (connected host proxy_port written ending closes) = Names host proxy_port

  -- A socket, where there is one, is connected to the proxy.
  abbrev pub IsProxied : Result ConnectArguments → Type 0
  IsProxied (err e) = Unit {0}
  IsProxied (ok a) =
      (host : Text) × (proxy_port : ℕ) × (a.sock ≡ some (host, proxy_port)) × Names host proxy_port

  open_socks5_socket-LeadsToProxy :
      (dest_host : Text) (dest_port : ℕ) (peer : Text)
      → LeadsToProxy (open_socks5_socket py proxy dest_host dest_port peer)
  unfolding open_socks5_socket
  open_socks5_socket-LeadsToProxy dest_host dest_port peer = cases (py.urlsplit proxy) refl
    where
      at :
          (u : SplitUrl)
          → py.urlsplit proxy ≡ some u
          → (p : Port) → u.url_port ≡ p
          → LeadsToProxy (open_at py u (no_none u.hostname) p dest_host dest_port peer)
      at u e no_port h = tt
      at u e bad_port h = tt
      at u e (port n) h = elim (Bool-cases (n == 0)) [
        | inl zero ↦ rw zero tt
        | inr other ↦ rw other (u, e, refl, h)
      ]

      cases :
          (parsed : Option SplitUrl)
          → py.urlsplit proxy ≡ parsed
          → LeadsToProxy (open_socks5_socket py proxy dest_host dest_port peer)
      cases none e = rw (e, open_socks5_socket) tt
      cases (some u) e =
          rw (e, open_socks5_socket)
            (elim (Bool-cases (not (is_socks py u) || is_empty (no_none u.hostname))) [
              | inl bad ↦ rw bad tt
              | inr good ↦ rw good (at u e u.url_port refl)
            ])

  module _ (settings : Settings) (peer : Text) where
    with_socket-IsProxied :
        (url : Text) (headers : List Header) (o : Opening)
        → LeadsToProxy o
        → IsProxied (with_socket py settings peer url headers (socket_of o))
    with_socket-IsProxied url headers (refused e) h = tt
    with_socket-IsProxied url headers (connected host p written (returns u) closes) h =
        (host, p, refl, h)
    with_socket-IsProxied url headers (connected host p written (raises e) closes) h = tt

    connect_at-IsProxied :
        (url : Text) (headers : List Header) (host : Text) (p : Result ℕ)
        → IsProxied (connect_at py settings peer proxy url headers host p)
    connect_at-IsProxied url headers host (err e) = tt
    connect_at-IsProxied url headers host (ok p) =
        with_socket-IsProxied url headers (open_socks5_socket py proxy host p peer)
          (open_socks5_socket-LeadsToProxy host p peer)

    connect_through-IsProxied :
        (url : Text) (headers : List Header)
        → IsProxied (connect_through py settings peer proxy url headers)
    unfolding connect_through
    connect_through-IsProxied url headers = elim (Option-cases (py.urlsplit url)) [
      | inl bad ↦ rw (bad, connect_through) tt
      | inr (u, e) ↦
          rw (e, connect_through)
            (elim (Bool-cases (is_empty (no_none u.hostname))) [
              | inl missing ↦ rw missing tt
              | inr there ↦ rw there (connect_at-IsProxied url headers (no_none u.hostname) _)
            ])
    ]

    -- Where an outbound proxy is configured, a WebSocket connection is never made but on a socket to
    -- the host and port that the proxy's URL names; otherwise there is an exception.
    pub default_websocket_connect_factory-IsProxied :
        (url : Text) (headers : List Header)
        → settings.outbound_proxy ≡ some proxy
        → is_empty proxy ≡ false
        → IsProxied (default_websocket_connect_factory py settings peer url headers)
    unfolding default_websocket_connect_factory
    default_websocket_connect_factory-IsProxied url headers configured named =
        rw (configured, default_websocket_connect_factory)
          (rw (named, default_websocket_connect_factory) (connect_through-IsProxied url headers))
