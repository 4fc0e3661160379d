-- ===== src/App.antt =====
-- app.py: `proxy_endpoint`.
pub mod Replies
use codex_reset_proxy.Prelude.{
  ℕ, Bool, true, false, not, Option, none, some, List, [], ◌∷◌, ◌++◌, if◌then◌else◌,
}
use codex_reset_proxy.Text.{Text, codes, eqb, show_dec}
use codex_reset_proxy.Runtime.{Runtime}
use codex_reset_proxy.Config.{Settings}
use codex_reset_proxy.Headers.{Header, filtered_request_headers_from_raw, filtered_response_headers}
use codex_reset_proxy.Upstream
use codex_reset_proxy.Upstream.{
  HeaderOutcome, Outcome, opened, failed, escaped, read_limited_body, build_upstream_url,
  open_upstream_with_retries,
}
use codex_reset_proxy.Bridge.Request.{
  BridgeError, Exn, bridge, ok, err, build_upstream_ws_url, websocket_headers,
}
use codex_reset_proxy.Bridge.World.{Outside, World, Res, done, raise}
use codex_reset_proxy.Bridge.Connect.{Opened}
use codex_reset_proxy.Bridge.Retry.{open_websocket_bridge_with_retries}

-- What the endpoint reads of its request.
pub record Incoming : Type 0 where
  pub method : Text
  pub raw_path : Text
  pub query_string : Text
  pub headers : List Header
  pub stream : List Text

-- The response, without the headers that Starlette adds to a plain text or to a stream of events.
pub data Reply : Type 0 where
  plain : ℕ → List Header → Text → Reply
  -- stream_websocket_as_sse(opened_ws, settings), with status 200
  event_stream : List Header → Opened → Reply
  -- stream_upstream_body(opened) for what this attempt opened, behind the status and the headers
  body_stream : ℕ → List Header → ℕ → Reply
  -- an exception leaves the endpoint
  server_error : Reply

-- The response, the calls made on HTTP upstreams, and the state of the bridge behind the request.
pub record Served : Type 0 where
  pub reply : Reply
  pub calls : List Upstream.Event
  pub world : World

abbrev pub attempts_header : ℕ → Header
attempts_header attempts = (codes "x-codex-reset-proxy-attempts", show_dec attempts)

abbrev pub error_headers : Text → ℕ → List Header
error_headers code attempts =
    (codes "x-codex-reset-proxy-error", code) ∷ attempts_header attempts ∷ []

abbrev pub replied : World → Reply → Served
replied w reply = record { reply = reply; calls = []; world = w }

abbrev pub bridge_mode : Text
bridge_mode = codes "websocket_per_request"

-- The reply to what the bridge raised.
abbrev of_error : Exn → Reply
of_error (bridge e) =
    plain e.status_code (error_headers e.error_code e.attempts) (e.message ++ codes "\n")
of_error _ = server_error

abbrev pub of_bridge : Res Opened → Served
of_bridge (done o w) = replied w (
    event_stream
      ((codes "x-codex-reset-proxy-transport", bridge_mode) ∷ attempts_header o.attempts ∷ []) o)
of_bridge (raise e w) = replied w (of_error e)

abbrev pub of_outcome : Outcome → Reply
of_outcome (opened r attempts) =
    body_stream r.status_code (filtered_response_headers r.headers ++ attempts_header attempts ∷ [])
      attempts
of_outcome (failed f attempts) =
    plain f.status_code (error_headers f.error_code attempts)
      (f.message ++ codes " after " ++ show_dec attempts ++ codes " attempt(s)\n")
of_outcome (escaped e) = server_error

module _ (py : Runtime) (settings : Settings) (out : Outside) (upstream : ℕ → HeaderOutcome)
    (pooled : Bool) where
  -- The `websocket_per_request` transport, for a POST request. The URL is made within the `try`.
  unfoldable pub serve_bridge : Text → List Header → Text → World → Served
  serve_bridge url headers body w = elim (build_upstream_ws_url py url) [
    | err e ↦ of_bridge (raise e w)
    | ok ws_url ↦ of_bridge (
        open_websocket_bridge_with_retries py out settings pooled ws_url
          (websocket_headers py headers) body w)
  ]

  unfoldable pub serve_http : Text → Text → List Header → Text → World → Served
  serve_http method url headers body w =
      let result = open_upstream_with_retries py settings upstream method url headers body in
      record { reply = of_outcome result.1; calls = result.0; world = w }

  -- What follows the body and the filtered headers.
  unfoldable pub dispatch : Text → Text → List Header → Text → World → Served
  unfolding serve_bridge serve_http
  dispatch method url headers body w =
      if eqb settings.transport_mode bridge_mode
      then (if not (eqb method (codes "POST"))
          then replied w
              (plain 405 [] (codes "websocket_per_request transport only supports POST\n"))
          else serve_bridge url headers body w)
      else serve_http method url headers body w

  unfoldable pub proxy_endpoint : Incoming → World → Served
  unfolding dispatch
  proxy_endpoint request w =
      elim (read_limited_body request.stream settings.max_request_body_bytes) [
        | none ↦ replied w (
            plain 413 [] (
              codes "request body exceeds "
              ++ show_dec settings.max_request_body_bytes
              ++ codes " bytes"))
        | some body ↦ elim (filtered_request_headers_from_raw settings request.headers) [
          | none ↦ replied w server_error
          | some headers ↦
              dispatch request.method
                (build_upstream_url settings request.raw_path request.query_string) headers body w
        ]
      ]
