-- ===== src/Mitm/Outcomes.antt =====
-- socks_mitm.py: what handling an intercepted connection has done when it ends.
use codex_reset_proxy.Prelude.{
  ℕ, ◌≡◌, refl, Bool, Option, none, some, List, ◌++◌, Option-cases, inl, inr,
}
use codex_reset_proxy.Text.{Text}
use codex_reset_proxy.Runtime.{Runtime}
use codex_reset_proxy.Config.{Settings}
use codex_reset_proxy.Headers.{Header, filtered_request_headers_from_raw}
use codex_reset_proxy.Upstream
use codex_reset_proxy.Upstream.{
  HeaderOutcome, Outcome, opened, failed, escaped, open_upstream_with_retries, build_upstream_url,
}
use codex_reset_proxy.Bridge.Request.{
  Exn, timeout, os_error, websocket_error, bridge, other, Result, ok, err, build_upstream_ws_url,
  websocket_headers,
}
use codex_reset_proxy.Bridge.World.{Outside, World, Res, done, raise, IsBalanced}
use codex_reset_proxy.Bridge.Connect.{Opened}
use codex_reset_proxy.Bridge.Connect.Balance.{Opens}
use codex_reset_proxy.Bridge.Retry.Balance.{
  RecvRaisesHandled, open_websocket_bridge_with_retries-Opens,
}
use codex_reset_proxy.Bridge.Retry.Fresh.{IsFresh, open_websocket_bridge_with_retries-IsFresh}
use codex_reset_proxy.Bridge.Release.{background}
use codex_reset_proxy.Bridge.Release.Balance.{Ends, background-Ends}
use codex_reset_proxy.Bridge.Stream.{End, returned, raised, abandoned, unstarted}
use codex_reset_proxy.Bridge.Stream.Balance.{Settles, stream_websocket_as_sse-Settles}
use codex_reset_proxy.Http.{Read, got, fault}
use codex_reset_proxy.Http.Request.{HttpRequest, read_http_request}
use codex_reset_proxy.Http.Route.{
  Handler, method_not_allowed, websocket_bridge, http_proxy, origin_path, handler_of, upstream_url,
}
use codex_reset_proxy.Mitm.{
  Body, Handled, write_text, respond_http, respond_error, run_task, respond_stream, respond_opened,
  write_websocket_bridge_response, write_http_proxy_response, write_response,
  handle_mitm_connection,
}

-- Every connection of the bridge is accounted for, those included that a task left held.
abbrev pub Accounts : List ℕ → Handled → Type 0
Accounts held h = IsBalanced (h.left ++ held) h.world

module _ (py : Runtime) (phrases : ℕ → Option Text) (held : List ℕ) where
  write_text-Accounts :
      (status : ℕ) (headers : List Header) (text : Text) (w : World)
      → IsBalanced held w
      → Accounts held (write_text py phrases status headers text w)
  unfolding write_text
  write_text-Accounts status headers text w b = elim (Option-cases (py.encode_utf8 text)) [
    | inl bad ↦ rw (bad, write_text) b
    | inr (body, e) ↦ rw (e, write_text) b
  ]

  respond_error-Accounts :
      (e : Exn) (w : World) → IsBalanced held w → Accounts held (respond_error py phrases e w)
  unfolding respond_error
  respond_error-Accounts timeout w b = b
  respond_error-Accounts (os_error n) w b = b
  respond_error-Accounts (websocket_error n) w b = b
  respond_error-Accounts (bridge e) w b = write_text-Accounts _ _ _ w b
  respond_error-Accounts (other n) w b = b

  module _ (settings : Settings) (out : Outside) (pooled : Bool) where
    run_task-IsBalanced :
        (pulls : ℕ) (o : Opened) (ending : End) (w : World)
        → Settles pulls o.context held ending w
        → let (w', left) = run_task py phrases settings out pooled o ending w in
          IsBalanced (left ++ held) w'
    unfolding run_task
    run_task-IsBalanced pulls o (returned id) w b =
        cases (background py out settings o id w) refl
          (background-Ends py out settings held o id w b)
      where
        cases :
            (r : Res (Unit {0}))
            → background py out settings o id w ≡ r
            → Ends o.context held r
            → let (w', left) = run_task py phrases settings out pooled o (returned id) w in
              IsBalanced (left ++ held) w'
        cases (done u w') e h = rw (e, run_task) h
        cases (raise x w') e h = rw (e, run_task) h
    run_task-IsBalanced pulls o (raised e) w b = b
    run_task-IsBalanced pulls o abandoned w b = b
    run_task-IsBalanced pulls o unstarted w b = b.1

    respond_opened-Accounts :
        (pulls : ℕ) (r : Res Opened)
        → IsFresh r
        → Opens held r
        → Accounts held (respond_opened py phrases settings out pooled pulls r)
    unfolding respond_stream
    respond_opened-Accounts pulls (done o w) f b =
        run_task-IsBalanced pulls o _ _
          (stream_websocket_as_sse-Settles py out settings held pulls o w f b)
    respond_opened-Accounts pulls (raise e w) f b = respond_error-Accounts e w b

    write_websocket_bridge_response-Accounts :
        (pulls : ℕ) (request : HttpRequest) (path : Text) (w : World)
        → RecvRaisesHandled out
        → IsBalanced held w
        → Accounts held
            (write_websocket_bridge_response py phrases settings out pooled pulls request path w)
    unfolding write_websocket_bridge_response
    write_websocket_bridge_response-Accounts pulls request path w doc b = cases _ refl
      where
        Goal : Type 0
        Goal =
            Accounts held
              (write_websocket_bridge_response py phrases settings out pooled pulls request path w)

        cases : (r : Result Text) → build_upstream_ws_url py (upstream_url settings path) ≡ r → Goal
        cases (err x) e = rw (e, write_websocket_bridge_response) (respond_error-Accounts x w b)
        cases (ok url) e =
            elim (Option-cases (filtered_request_headers_from_raw settings request.headers)) [
              | inl bad ↦
                  rw (e, write_websocket_bridge_response)
                    (rw (bad, write_websocket_bridge_response) b)
              | inr (headers, k) ↦
                  rw (e, write_websocket_bridge_response)
                    (rw (k, write_websocket_bridge_response)
                      (respond_opened-Accounts pulls _
                        (open_websocket_bridge_with_retries-IsFresh py out settings pooled url
                          (websocket_headers py headers) request.body w)
                        (open_websocket_bridge_with_retries-Opens py out settings held pooled url
                          (websocket_headers py headers) request.body w doc b)))
            ]

    module _ (upstream : ℕ → HeaderOutcome) (bodies : ℕ → Body) (pulls : ℕ) where
      write_http_proxy_response-Accounts :
          (request : HttpRequest) (path : Text) (w : World)
          → IsBalanced held w
          → Accounts held (
              write_http_proxy_response py phrases settings out pooled upstream bodies request path
                w)
      unfolding write_http_proxy_response respond_http
      write_http_proxy_response-Accounts request path w b =
          elim (Option-cases (filtered_request_headers_from_raw settings request.headers)) [
            | inl bad ↦ rw (bad, write_http_proxy_response) b
            | inr (headers, k) ↦ rw (k, write_http_proxy_response) (respond_http-Accounts _ _)
          ]
        where
          respond_http-Accounts :
              (calls : List Upstream.Event) (o : Outcome)
              → Accounts held (respond_http py phrases bodies calls o w)
          respond_http-Accounts calls (opened r k) = b
          respond_http-Accounts calls (failed f k) = write_text-Accounts _ _ _ w b
          respond_http-Accounts calls (escaped e) = b

      write_response-Accounts :
          (request : HttpRequest) (path : Text) (w : World)
          → RecvRaisesHandled out
          → IsBalanced held w
          → Accounts held
              (write_response py phrases settings out pooled upstream bodies pulls request path w)
      unfolding write_response
      write_response-Accounts request path w doc b = cases _ refl
        where
          cases :
              (h : Handler)
              → handler_of settings request.method path ≡ h
              → Accounts held (
                  write_response py phrases settings out pooled upstream bodies pulls request path
                    w)
          cases method_not_allowed e = rw (e, write_response) b
          cases websocket_bridge e =
              rw (e, write_response)
                (write_websocket_bridge_response-Accounts pulls request path w doc b)
          cases http_proxy e =
              rw (e, write_response) (write_http_proxy_response-Accounts request path w b)

      -- Whatever bytes the client of an intercepted connection sends, however the outside behaves
      -- and wherever the client's connection breaks, every connection of the bridge is accounted
      -- for: it is closed, idle in the pool, held by another request, or left by a background task
      -- that raised or by a stream of which nothing was asked, exactly once each. The socket's
      -- `recv` raises a timeout, an OSError or a WebSocketException only.
      pub handle_mitm_connection-Accounts :
          (s : Text) (w : World)
          → RecvRaisesHandled out
          → IsBalanced held w
          → Accounts held
              (handle_mitm_connection py phrases settings out pooled upstream bodies pulls s w)
      unfolding handle_mitm_connection
      handle_mitm_connection-Accounts s w doc b = cases _ refl
        where
          Goal : Type 0
          Goal =
              Accounts held
                (handle_mitm_connection py phrases settings out pooled upstream bodies pulls s w)

          cases :
              (r : Read (Option HttpRequest))
              → read_http_request settings.max_request_body_bytes s ≡ r
              → Goal
          cases (fault x) e = rw (e, handle_mitm_connection) b
          cases (got none rest) e = rw (e, handle_mitm_connection) b
          cases (got (some request) rest) e = elim (Option-cases (origin_path py request.target)) [
            | inl bad ↦ rw (e, handle_mitm_connection) (rw (bad, handle_mitm_connection) b)
            | inr (path, k) ↦
                rw (e, handle_mitm_connection)
                  (rw (k, handle_mitm_connection) (write_response-Accounts request path w doc b))
          ]
