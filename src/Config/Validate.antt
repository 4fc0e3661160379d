-- ===== src/Config/Validate.antt =====
-- config.py: the four validators.
use codex_reset_proxy.Prelude.{
  Bool, false, not, ◌&&◌, Option, none, some, [], ◌∷◌, if◌then◌else◌, ◌==◌,
}
use codex_reset_proxy.Text.{Text, codes, elem, is_empty}
use codex_reset_proxy.Runtime.{Runtime, SplitUrl, Port, no_port, bad_port, port}
use codex_reset_proxy.Config.{Result, ok, err, value_error, conversion_error, ◌>>=◌, ◌>>◌}

unfoldable pub guard : Bool → Text → Result (Unit {0})
guard b message = if b then ok tt else err (value_error message)

module _ (py : Runtime) where
  unfoldable pub split_url : Text → Result SplitUrl
  split_url v = elim (py.urlsplit v) [ none ↦ err conversion_error | some u ↦ ok u ]

  unfoldable pub validate_upstream_base_url : Text → Result SplitUrl
  unfolding split_url guard
  validate_upstream_base_url v = do
    parsed ← split_url v
    guard (elem parsed.scheme (codes "http" ∷ codes "https" ∷ []) && not (is_empty parsed.netloc))
        (codes "UPSTREAM_BASE_URL must be an absolute http:// or https:// URL")
    ok parsed

  unfoldable pub validate_listen_protocol : Text → Result (Unit {0})
  unfolding guard
  validate_listen_protocol v =
      guard (elem v (codes "http_reverse" ∷ codes "socks5_tunnel" ∷ codes "socks5_mitm" ∷ []))
        (codes "LISTEN_PROTOCOL must be one of: http_reverse, socks5_tunnel, socks5_mitm")

  unfoldable pub validate_transport_mode : Text → Result (Unit {0})
  unfolding guard
  validate_transport_mode v =
      guard (elem v (codes "http" ∷ codes "websocket_per_request" ∷ []))
        (codes "TRANSPORT_MODE must be one of: http, websocket_per_request")

  -- `parsed.scheme not in {...} or not parsed.hostname or not parsed.port`: the port is read last,
  -- and port 0 counts as none.
  abbrev pub proxy_error : Text
  proxy_error =
      codes "OUTBOUND_PROXY must be an absolute socks5:// or socks5h:// URL with host and port"

  abbrev pub truthy_port : Port → Result Bool
  truthy_port no_port = ok false
  truthy_port bad_port = err conversion_error
  truthy_port (port n) = ok (not (n == 0))

  abbrev pub truthy_text : Option Text → Bool
  truthy_text none = false
  truthy_text (some s) = not (is_empty s)

  unfoldable pub validate_outbound_proxy : Text → Result (Unit {0})
  unfolding split_url guard
  validate_outbound_proxy v = do
    parsed ← split_url v
    guard
        (elem parsed.scheme (codes "socks5" ∷ codes "socks5h" ∷ []) && truthy_text parsed.hostname)
        proxy_error
    has_port ← truthy_port parsed.url_port
    guard has_port proxy_error

  abbrev pub validate_optional_proxy : Option Text → Result (Unit {0})
  validate_optional_proxy none = ok tt
  validate_optional_proxy (some v) = validate_outbound_proxy v
