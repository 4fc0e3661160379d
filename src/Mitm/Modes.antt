-- ===== src/Mitm/Modes.antt =====
-- socks_mitm.py and app.py: one request over HTTP, intercepted or sent to the reverse proxy.
use codex_reset_proxy.Prelude.{ℕ, ◌≡◌, true, false, not, keep, Option, none, some, List, [], ◌⊎◌}
use codex_reset_proxy.Text.{Text, codes, eqb}
use codex_reset_proxy.Runtime.{Runtime}
use codex_reset_proxy.Headers.{Header}
use codex_reset_proxy.Upstream
use codex_reset_proxy.Upstream.{
  stream_upstream_body, open_upstream_with_retries, build_upstream_url,
}
use codex_reset_proxy.Bridge.World.{World}
use codex_reset_proxy.Http.Response.{write_fixed_response, write_streaming_response}
use codex_reset_proxy.App.{Reply, plain, event_stream, body_stream, server_error, Served}
use codex_reset_proxy.Mitm.{Body, Handled, is_complete}

-- The headers but the one with the number of attempts.
abbrev pub unnumbered : List Header → List Header
unnumbered = keep (λ h. not (eqb h.0 (codes "x-codex-reset-proxy-attempts")))

module _ (py : Runtime) (phrases : ℕ → Option Text) (bodies : ℕ → Body) where
  -- The bytes are those of the reply. Over a streamed body they are its status, its headers and the
  -- chunks of that body, closed if it is complete; where it is not, an exception leaves. A plain
  -- text comes with its status and its headers, without the one with the number of attempts.
  abbrev pub Says : Reply → Handled → Type 0
  Says (body_stream status headers attempt) h =
      let b = bodies attempt in
      let (chunks, _, error) = stream_upstream_body b.chunks b.ending b.closing in
      (h.written
        ≡ write_streaming_response phrases status headers chunks (is_complete b.ending error))
      × (h.raised ≡ not (is_complete b.ending error))
  Says (plain status headers text) h =
      ((body : Text) × (py.encode_utf8 text ≡ some body)
        × (h.written ≡ write_fixed_response phrases status (unnumbered headers) body)
        × (h.raised ≡ false))
      ⊎ ((py.encode_utf8 text ≡ none) × (h.written ≡ []) × (h.raised ≡ true))
  Says server_error h = (h.written ≡ []) × (h.raised ≡ true)
  Says (event_stream headers o) h = ⊥

  -- The calls on upstreams and what the client is told.
  abbrev pub Alike : Served → Handled → Type 0
  Alike s h = (s.calls ≡ h.calls) × Says s.reply h
