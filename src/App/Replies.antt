-- ===== src/App/Replies.antt =====
-- What the endpoint has done, on every path, when it replies.
use codex_reset_proxy.Prelude.{
  ℕ, ◌<◌, ◌≡◌, refl, Bool, true, false, none, List, [], ◌∷◌, inl, inr, arith, ltb, length,
  Bool-cases, Option-cases,
}
use codex_reset_proxy.Text.{Text, codes, eqb}
use codex_reset_proxy.Runtime.{Runtime}
use codex_reset_proxy.Config.{Settings}
use codex_reset_proxy.Headers.{Header, filtered_request_headers_from_raw}
use codex_reset_proxy.Upstream.{
  HeaderOutcome, Outcome, opened, failed, escaped, read_limited_body, concat, build_upstream_url,
}
use codex_reset_proxy.Upstream.Body.{read_limited_body_lem}
use codex_reset_proxy.Bridge.Request.{
  timeout, os_error, websocket_error, bridge, other, Result, ok, err, build_upstream_ws_url,
  websocket_headers,
}
use codex_reset_proxy.Bridge.World.{Outside, World, Res, done, raise, IsBalanced}
use codex_reset_proxy.Bridge.Connect.{Opened}
use codex_reset_proxy.Bridge.Connect.Balance.{Opens}
use codex_reset_proxy.Bridge.Retry.Balance.{
  RecvRaisesHandled, open_websocket_bridge_with_retries-Opens,
}
use codex_reset_proxy.App.{
  Incoming, Reply, plain, event_stream, Served, bridge_mode, of_bridge, of_outcome, serve_bridge,
  serve_http, dispatch, proxy_endpoint,
}

abbrev holding : List ℕ → Reply → List ℕ
holding held (event_stream hs o) = o.context ∷ held
holding held _ = held

-- Every connection of the bridge is accounted for, the one of a streamed reply included.
abbrev pub Accounts : List ℕ → Served → Type 0
Accounts held s = IsBalanced (holding held s.reply) s.world

-- Only the transport that is configured is used, and none for a body over the limit, which gets
-- status 413.
abbrev pub Separates : Settings → Incoming → World → Served → Type 0
Separates settings request w s =
    (eqb settings.transport_mode bridge_mode ≡ true → s.calls ≡ [])
    × (eqb settings.transport_mode bridge_mode ≡ false → s.world ≡ w)
    × (settings.max_request_body_bytes < length (concat request.stream)
        → (s.calls ≡ []) × (s.world ≡ w) × (text : Text) × (s.reply ≡ plain 413 [] text))

of_bridge-Accounts : (held : List ℕ) (r : Res Opened) → Opens held r → Accounts held (of_bridge r)
of_bridge-Accounts held (done o w) h = h
of_bridge-Accounts held (raise timeout w) h = h
of_bridge-Accounts held (raise (os_error n) w) h = h
of_bridge-Accounts held (raise (websocket_error n) w) h = h
of_bridge-Accounts held (raise (bridge e) w) h = h
of_bridge-Accounts held (raise (other n) w) h = h

holding-of_outcome : (held : List ℕ) (o : Outcome) → holding held (of_outcome o) ≡ held
holding-of_outcome held (opened r k) = refl
holding-of_outcome held (failed f k) = refl
holding-of_outcome held (escaped e) = refl

module _ (py : Runtime) (settings : Settings) (out : Outside) (upstream : ℕ → HeaderOutcome)
    (pooled : Bool) (held : List ℕ) where
  serve_bridge-Accounts :
      (url : Text) (headers : List Header) (body : Text) (w : World)
      → RecvRaisesHandled out
      → IsBalanced held w
      → Accounts held (serve_bridge py settings out upstream pooled url headers body w)
  unfolding serve_bridge
  serve_bridge-Accounts url headers body w doc b = cases (build_upstream_ws_url py url) refl
    where
      cases :
          (r : Result Text)
          → build_upstream_ws_url py url ≡ r
          → Accounts held (serve_bridge py settings out upstream pooled url headers body w)
      cases (ok ws_url) e =
          rw (e, serve_bridge)
            (of_bridge-Accounts held _ (
              open_websocket_bridge_with_retries-Opens py out settings held pooled ws_url
                (websocket_headers py headers) body w doc b))
      cases (err x) e = rw (e, serve_bridge) (of_bridge-Accounts held (raise x w) b)

  dispatch-Accounts :
      (method url : Text) (headers : List Header) (body : Text) (w : World)
      → RecvRaisesHandled out
      → IsBalanced held w
      → Accounts held (dispatch py settings out upstream pooled method url headers body w)
  unfolding dispatch serve_http
  dispatch-Accounts method url headers body w doc b =
      elim (Bool-cases (eqb settings.transport_mode bridge_mode)) [
        | inl is_bridge ↦ elim (Bool-cases (eqb method (codes "POST"))) [
          | inl post ↦
              rw (is_bridge, dispatch)
                (rw (post, dispatch) (serve_bridge-Accounts url headers body w doc b))
          | inr wrong ↦ rw (is_bridge, dispatch) (rw (wrong, dispatch) b)
        ]
        | inr http ↦ rw (http, dispatch) (rw (holding-of_outcome, serve_http) b)
      ]

  -- However the request and the outside behave, and whatever the reply, the endpoint accounts for
  -- every connection of the bridge: it is closed, idle in the pool, held by another request, or the
  -- one whose events the reply streams, exactly once each. The socket's `recv` raises a timeout, an
  -- OSError or a WebSocketException only.
  pub proxy_endpoint-Accounts :
      (request : Incoming) (w : World)
      → RecvRaisesHandled out
      → IsBalanced held w
      → Accounts held (proxy_endpoint py settings out upstream pooled request w)
  unfolding proxy_endpoint
  proxy_endpoint-Accounts request w doc b =
      elim (Option-cases (read_limited_body request.stream settings.max_request_body_bytes)) [
        | inl large ↦ rw (large, proxy_endpoint) b
        | inr (body, fits) ↦
            elim (Option-cases (filtered_request_headers_from_raw settings request.headers)) [
              | inl bad ↦ rw (fits, proxy_endpoint) (rw (bad, proxy_endpoint) b)
              | inr (headers, e) ↦
                  rw (fits, proxy_endpoint)
                    (rw (e, proxy_endpoint)
                      (dispatch-Accounts request.method
                        (build_upstream_url settings request.raw_path request.query_string) headers
                        body w doc b))
            ]
      ]

of_bridge-calls : (r : Res Opened) → (of_bridge r).calls ≡ []
of_bridge-calls (done o w) = refl
of_bridge-calls (raise e w) = refl

module _ (py : Runtime) (settings : Settings) (out : Outside) (upstream : ℕ → HeaderOutcome)
    (pooled : Bool) where
  serve_bridge-calls :
      (url : Text) (headers : List Header) (body : Text) (w : World)
      → (serve_bridge py settings out upstream pooled url headers body w).calls ≡ []
  unfolding serve_bridge
  serve_bridge-calls url headers body w = cases (build_upstream_ws_url py url) refl
    where
      cases :
          (r : Result Text)
          → build_upstream_ws_url py url ≡ r
          → (serve_bridge py settings out upstream pooled url headers body w).calls ≡ []
      cases (ok ws_url) e = rw (e, serve_bridge) (of_bridge-calls _)
      cases (err x) e = rw (e, serve_bridge) refl

  abbrev Apart : World → Served → Type 0
  Apart w s =
      (eqb settings.transport_mode bridge_mode ≡ true → s.calls ≡ [])
      × (eqb settings.transport_mode bridge_mode ≡ false → s.world ≡ w)

  dispatch-Apart :
      (method url : Text) (headers : List Header) (body : Text) (w : World)
      → Apart w (dispatch py settings out upstream pooled method url headers body w)
  unfolding dispatch serve_http
  dispatch-Apart method url headers body w = (
    λ is_bridge. elim (Bool-cases (eqb method (codes "POST"))) [
      | inl post ↦
          rw (is_bridge, dispatch) (rw (post, dispatch) (serve_bridge-calls url headers body w))
      | inr wrong ↦ rw (is_bridge, dispatch) (rw (wrong, dispatch) refl)
    ],
    λ http. rw (http, dispatch) refl,
  )

  too_large :
      (request : Incoming)
      → settings.max_request_body_bytes < length (concat request.stream)
      → read_limited_body request.stream settings.max_request_body_bytes ≡ none
  too_large request large =
      let over : ltb settings.max_request_body_bytes (length (concat request.stream)) ≡ true =
        ground arith in
      rw over at (read_limited_body_lem request.stream settings.max_request_body_bytes)

  proxy_endpoint-Apart :
      (request : Incoming) (w : World)
      → Apart w (proxy_endpoint py settings out upstream pooled request w)
  unfolding proxy_endpoint
  proxy_endpoint-Apart request w =
      elim (Option-cases (read_limited_body request.stream settings.max_request_body_bytes)) [
        | inl large ↦ rw (large, proxy_endpoint) (λ _. refl, λ _. refl)
        | inr (body, fits) ↦
            elim (Option-cases (filtered_request_headers_from_raw settings request.headers)) [
              | inl bad ↦
                  rw (fits, proxy_endpoint) (rw (bad, proxy_endpoint) (λ _. refl, λ _. refl))
              | inr (headers, e) ↦
                  rw (fits, proxy_endpoint)
                    (rw (e, proxy_endpoint)
                      (dispatch-Apart request.method
                        (build_upstream_url settings request.raw_path request.query_string) headers
                        body w))
            ]
      ]

  -- The endpoint uses only the transport that is configured: in the `websocket_per_request` mode it
  -- makes no call on an HTTP upstream, and in any other the bridge is as before. A request whose
  -- body is longer than the limit is answered with status 413, without a call of either.
  pub proxy_endpoint-Separates :
      (request : Incoming) (w : World)
      → Separates settings request w (proxy_endpoint py settings out upstream pooled request w)
  unfolding proxy_endpoint
  proxy_endpoint-Separates request w =
      let (http, bridged) = proxy_endpoint-Apart request w in
      (http, bridged, λ large. rw (too_large request large, proxy_endpoint) (refl, refl, _, refl))
