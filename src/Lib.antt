-- ===== src/Lib.antt =====
-- codex-reset-proxy: a reverse proxy for Codex requests that retries while the upstream has sent no
-- response headers, and a bridge that carries Responses requests over pooled WebSockets.
--
-- Paths are from the repository's root. One module stands for one part of the program:
--   Config          codex_reset_proxy/config.py: Settings, its readers (Env), its validators (Validate)
--                   and Settings.from_env (FromEnv)
--   Headers         codex_reset_proxy/proxy.py: _filter_raw_headers, filtered_request_headers_from_raw
--   Upstream        codex_reset_proxy/proxy.py: read_limited_body, build_upstream_url,
--                   open_upstream_with_retries, stream_upstream_body, close_upstream
--   Bridge          codex_reset_proxy/websocket_bridge.py: the pool's dict and its critical sections
--                   (Pool), URL, headers, first message and pool key (Request), exceptions, calls and
--                   their log (World), opening and checkout (Connect), the retries (Retry), messages and
--                   server-sent events (Sse), release and background task (Release), the stream (Stream),
--                   default_websocket_connect_factory (Factory)
--                   The tasks that share one pool are a step relation on those sections (Tasks)
--   Mitm            codex_reset_proxy/socks_mitm.py: _handle_mitm_connection behind TLS,
--                   _write_http_proxy_response and _write_websocket_bridge_response (Mitm),
--                   _handle_socks_client and _handle_mitm_connection as a whole (Client), _handle_tunnel
--                   with _pipe (Tunnel)
--   Certs           codex_reset_proxy/certs.py: the file system and what runs do (Certs, Runs),
--                   _safe_filename (Names), ensure_ca_certificate (Authority), ensure_leaf_certificate
--                   and server_ssl_context_for_host (Leaf)
--   App             codex_reset_proxy/app.py: proxy_endpoint, with its replies
--   Http            codex_reset_proxy/socks_mitm.py: asyncio's stream reader (Http), _read_http_request
--                   and _read_chunked_body (Request), _write_fixed_response and
--                   _write_streaming_response (Response), _origin_path, _path_matches, _upstream_url and
--                   the choice of the transport (Route)
--   Socks           codex_reset_proxy/socks_mitm.py: _socks5_handshake and _should_mitm (Server);
--                   codex_reset_proxy/outbound.py: open_socks5_socket and what it calls (Client); both
--                   connected to each other (Net, Handshake)
--
-- Text, Json and Runtime hold what these take from Python: bytes and str as lists of numbers with the
-- methods called on them; the values of json.loads; and, as a parameter, the functions of the runtime
-- whose behaviour the model leaves open (str methods on all of Unicode, urllib.parse, json, hashlib).
--
-- The outside answers from the log of all calls made so far (Bridge.World.Outside), or by the number
-- of the attempt (Upstream.attempts), so a theorem that ranges over it covers every behaviour of the
-- network. Exceptions are values; the ones that a clause names are told apart. State is passed on
-- explicitly. A loop over attempts recurs on the attempts that remain, so its bound is the configured
-- maximum; the stream recurs on the number of items that its consumer asks for. The other loops recur
-- on a list or on fuel that the length of the input gives.
--
-- Two peers of a stream step in any order (Socks.Net), with the bytes between them as part of the state.
--
-- The certificate directory is a map from paths to bytes, and `cryptography` and `ssl` are parameters
-- (Certs.Authority.Library); each call on the file system may raise, and a write may stop in the middle.
--
-- Tasks that share a pool (Bridge.Tasks), and those of a tunnel (Mitm.Tunnel), step in any order. A task
-- of the pool may also end in the three ways that leave its connection neither closed nor pooled.
--
-- Not modelled: cancellation of tasks, logging, the TLS protocol, failing TCP connections, and the
-- listening sockets with serve_socks5, start_socks5_server and create_app, which wire them. Floats of
-- seconds are integers of microseconds, and the dates of certificates are in seconds.
pub mod Prelude
pub mod Text
pub mod Json
pub mod Runtime
pub mod Config
pub mod Headers
pub mod Upstream
pub mod Bridge
pub mod Http
mod Tests
pub mod Socks
pub mod App
pub mod Mitm
pub mod Certs
