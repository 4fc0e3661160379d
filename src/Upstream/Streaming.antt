-- ===== src/Upstream/Streaming.antt =====
-- `close_upstream` and the stream that ends in it.
use codex_reset_proxy.Prelude.{Bool, true, false, none, some, List, [], ◌∷◌, ◌≡◌, refl, ◌⊎◌, arith}
use codex_reset_proxy.Text.{Text, contains}
use codex_reset_proxy.Upstream.{
  OtherError, BodyEnd, exhausted, abandoned, unstarted, body_error, CloseEvent, client_aclose,
  CloseOutcomes, stream_upstream_body, already_running,
}

abbrev pub closes_client : List CloseEvent → Bool
closes_client [] = false
closes_client (client_aclose ∷ es) = true
closes_client (_ ∷ es) = closes_client es

abbrev pub is_started : BodyEnd → Bool
is_started unstarted = false
is_started _ = true

-- Whatever ends the stream, the HTTP client is closed exactly if an item was asked for, unless
-- `response.aclose` itself raises: a stream that is closed before its first item leaves it open.
pub stream_upstream_body-closes :
    (chunks : List Text) (ending : BodyEnd) (o : CloseOutcomes)
    → (o.has_aclose ≡ false) ⊎ (o.aclose_raises ≡ none)
    → closes_client (stream_upstream_body chunks ending o).1 ≡ is_started ending
unfolding stream_upstream_body
stream_upstream_body-closes chunks exhausted o h = ground arith
stream_upstream_body-closes chunks abandoned o h = ground arith
stream_upstream_body-closes chunks unstarted o h = refl
stream_upstream_body-closes chunks (body_error e) o h = ground arith

-- A close that fails only because httpx is already closing the stream is swallowed: the stream then
-- ends as its body did.
pub stream_upstream_body-swallows :
    (chunks : List Text) (ending : BodyEnd) (o : CloseOutcomes) (e : OtherError)
    → o.aclose_raises ≡ none
    → o.exit_raises ≡ some e
    → e.is_runtime_error ≡ true
    → contains e.message already_running ≡ true
    → o.client_raises ≡ none
    → ((stream_upstream_body chunks exhausted o).2 ≡ none)
      × ((x : OtherError) → (stream_upstream_body chunks (body_error x) o).2 ≡ some x)
unfolding stream_upstream_body
stream_upstream_body-swallows chunks ending o e a x r c q = ground arith
