-- ===== src/Mitm.antt =====
-- socks_mitm.py: `_handle_socks_client` and the connections that it handles, put together from the
-- SOCKS5 handshake, the HTTP messages, the HTTP upstream and the WebSocket bridge.
pub mod Outcomes
pub mod Modes
pub mod Client
pub mod Sessions
pub mod Tunnel
use codex_reset_proxy.Prelude.{
  ℕ, Bool, true, false, not, Option, none, some, List, [], ◌∷◌, ◌++◌, if◌then◌else◌,
}
use codex_reset_proxy.Text.{Text, codes, eqb, show_dec}
use codex_reset_proxy.Runtime.{Runtime}
use codex_reset_proxy.Config.{Settings}
use codex_reset_proxy.Headers.{Header, filtered_request_headers_from_raw, filtered_response_headers}
use codex_reset_proxy.Upstream
use codex_reset_proxy.Upstream.{
  HeaderOutcome, Outcome, opened, failed, escaped, BodyEnd, exhausted, CloseOutcomes, OtherError,
  stream_upstream_body, open_upstream_with_retries,
}
use codex_reset_proxy.Bridge.Request.{
  BridgeError, Exn, bridge, ok, err, build_upstream_ws_url, websocket_headers,
}
use codex_reset_proxy.Bridge.World.{Outside, World, Res, done, raise}
use codex_reset_proxy.Bridge.Connect.{Opened}
use codex_reset_proxy.Bridge.Retry.{open_websocket_bridge_with_retries}
use codex_reset_proxy.Bridge.Stream.{End, returned, Streamed, stream_websocket_as_sse}
use codex_reset_proxy.Bridge.Release.{background}
use codex_reset_proxy.Http.{Read, got, fault}
use codex_reset_proxy.Http.Request.{HttpRequest, read_http_request}
use codex_reset_proxy.Http.Response.{write_fixed_response, write_streaming_response}
use codex_reset_proxy.Http.Route.{
  Handler, method_not_allowed, websocket_bridge, http_proxy, origin_path, handler_of, upstream_url,
}
use codex_reset_proxy.App.{attempts_header, error_headers, bridge_mode}

-- How the body of an upstream response goes: its chunks, the end of its iteration, and what the
-- closing calls do.
pub record Body : Type 0 where
  pub chunks : List Text
  pub ending : BodyEnd
  pub closing : CloseOutcomes

-- What handling a connection has done: the bytes written to the client, the calls made on HTTP
-- upstreams, the bridge behind it with the connections that its tasks left held, and whether an
-- exception leaves.
pub record Handled : Type 0 where
  pub written : Text
  pub calls : List Upstream.Event
  pub world : World
  pub left : List ℕ
  pub raised : Bool

abbrev pub wrote : World → Text → Handled
wrote w bytes = record { written = bytes; calls = []; world = w; left = []; raised = false }

abbrev pub fails : World → Handled
fails w = record { written = []; calls = []; world = w; left = []; raised = true }

-- Whether the iteration came to its end, and closing went well.
abbrev pub is_complete : BodyEnd → Option OtherError → Bool
is_complete exhausted none = true
is_complete _ _ = false

module _ (py : Runtime) (phrases : ℕ → Option Text) where
  -- A fixed response whose text is encoded first.
  unfoldable pub write_text : ℕ → List Header → Text → World → Handled
  write_text status headers text w = elim (py.encode_utf8 text) [
    | none ↦ fails w
    | some body ↦ wrote w (write_fixed_response phrases status headers body)
  ]

  unfoldable pub respond_http : (ℕ → Body) → List Upstream.Event → Outcome → World → Handled
  unfolding write_text
  respond_http bodies calls (opened r attempts) w =
      let b = bodies attempts in
      let (chunks, _, error) = stream_upstream_body b.chunks b.ending b.closing in
      record {
        written =
            write_streaming_response phrases r.status_code
              (filtered_response_headers r.headers ++ attempts_header attempts ∷ []) chunks
              (is_complete b.ending error);
        calls = calls;
        world = w;
        left = [];
        raised = not (is_complete b.ending error);
      }
  respond_http bodies calls (failed f attempts) w =
      let text = f.message ++ codes " after " ++ show_dec attempts ++ codes " attempt(s)\n" in
      record (write_text f.status_code ((codes "x-codex-reset-proxy-error", f.error_code) ∷ []) text
        w) { calls = calls }
  respond_http bodies calls (escaped e) w = record (fails w) { calls = calls }

  -- The response to what the bridge raised.
  unfoldable pub respond_error : Exn → World → Handled
  unfolding write_text
  respond_error (bridge e) w =
      write_text e.status_code (error_headers e.error_code e.attempts) (e.message ++ codes "\n") w
  respond_error _ w = fails w

  abbrev stream_headers : ℕ → List Header
  stream_headers attempts =
      (codes "content-type", codes "text/event-stream; charset=utf-8")
      ∷ (codes "cache-control", codes "no-cache")
      ∷ (codes "x-codex-reset-proxy-transport", bridge_mode)
      ∷ attempts_header attempts
      ∷ []

  module _ (settings : Settings) (out : Outside) (pooled : Bool) where
    -- The background task that a stream leaves behind, run; it holds the connection if it raises.
    unfoldable pub run_task : Opened → End → World → World × List ℕ
    run_task o (returned id) w = elim (background py out settings o id w) [
      | done _ w' ↦ (w', [])
      | raise e w' ↦ (w', o.context ∷ [])
    ]
    run_task o End.unstarted w = (w, o.context ∷ [])
    run_task o _ w = (w, [])

    abbrev is_returned : End → Bool
    is_returned (returned id) = true
    is_returned _ = false

    -- The stream of events, written to a client who takes `pulls` items before its connection
    -- breaks, if the stream does not end earlier.
    unfoldable pub respond_stream : ℕ → Opened → World → Handled
    unfolding run_task
    respond_stream pulls o w =
        let s = stream_websocket_as_sse py out settings pulls o w in
        let (w', left) = run_task o s.ending s.world in
        record {
          written =
              write_streaming_response phrases 200 (stream_headers o.attempts) s.chunks
                (is_returned s.ending);
          calls = [];
          world = w';
          left = left;
          raised = not (is_returned s.ending);
        }

    abbrev respond_opened : ℕ → Res Opened → Handled
    respond_opened pulls (done o w) = respond_stream pulls o w
    respond_opened pulls (raise e w) = respond_error e w

    -- `_write_websocket_bridge_response`, for a POST request
    unfoldable pub write_websocket_bridge_response : ℕ → HttpRequest → Text → World → Handled
    unfolding respond_stream respond_error
    write_websocket_bridge_response pulls request path w =
        elim (build_upstream_ws_url py (upstream_url settings path)) [
          | err e ↦ respond_error e w
          | ok url ↦ elim (filtered_request_headers_from_raw settings request.headers) [
            | none ↦ fails w
            | some headers ↦ respond_opened pulls (
                open_websocket_bridge_with_retries py out settings pooled url
                  (websocket_headers py headers) request.body w)
          ]
        ]

    -- `_write_http_proxy_response`
    unfoldable pub write_http_proxy_response :
        (ℕ → HeaderOutcome) → (ℕ → Body) → HttpRequest → Text → World → Handled
    unfolding respond_http
    write_http_proxy_response upstream bodies request path w =
        elim (filtered_request_headers_from_raw settings request.headers) [
          | none ↦ fails w
          | some headers ↦
              let result =
                open_upstream_with_retries py settings upstream request.method
                  (upstream_url settings path) headers request.body in
              respond_http bodies result.0 result.1 w
        ]

    abbrev not_allowed : World → Handled
    not_allowed w = wrote w (
        write_fixed_response phrases 405 []
          (codes "websocket_per_request transport only supports POST\n"))

    module _ (upstream : ℕ → HeaderOutcome) (bodies : ℕ → Body) (pulls : ℕ) where
      unfoldable pub write_response : HttpRequest → Text → World → Handled
      unfolding write_websocket_bridge_response write_http_proxy_response
      write_response request path w = elim (handler_of settings request.method path) [
        | method_not_allowed ↦ not_allowed w
        | websocket_bridge ↦ write_websocket_bridge_response pulls request path w
        | http_proxy ↦ write_http_proxy_response upstream bodies request path w
      ]

      -- `_handle_mitm_connection` behind the TLS handshake, with the bytes that the client sends.
      unfoldable pub handle_mitm_connection : Text → World → Handled
      unfolding write_response
      handle_mitm_connection s w = elim (read_http_request settings.max_request_body_bytes s) [
        | fault e ↦ fails w
        | got none _ ↦ wrote w []
        | got (some request) _ ↦ elim (origin_path py request.target) [
          | none ↦ fails w
          | some path ↦ write_response request path w
        ]
      ]
