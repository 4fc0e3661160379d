-- ===== src/Tests/Proxy.antt =====
-- Header filtering, the retries over HTTP, and the buffered body, at concrete inputs.
use mathlib.Core.List.{Memᴰ}
use codex_reset_proxy.Prelude.{ℕ, ◌≡◌, refl, none, some, List, [], ◌∷◌, true, inr, ◌↔◌, All}
use codex_reset_proxy.Text.{
  contains, codes, lower, eqb, elem, lower_byte, split_onto, lstrip, rstrip, is_space,
}
use codex_reset_proxy.Headers.{
  Header, filter_raw_headers, request_only_headers, filtered_request_headers_from_raw,
  connection_tokens, split_header_tokens, encode_latin1,
}
use codex_reset_proxy.Headers.Membership.{IsSkipped}
use codex_reset_proxy.Headers.Filtering.{filter_raw_headers-mem}
use codex_reset_proxy.Headers.ApiKey.{named, others, filtered_request_headers-key}
use codex_reset_proxy.Upstream.{
  HeaderOutcome, response, timeout_error, Outcome, opened, open_upstream_with_retries, Response,
  read_limited_body, exhausted, OtherError, CloseOutcomes, stream_upstream_body, body_error,
  content_of, attempts, failure_of, already_running,
}
use codex_reset_proxy.Upstream.Body.{read_limited_body_lem}
use codex_reset_proxy.Upstream.Attempts.{Explains, open_upstream_with_retries-Explains}
use codex_reset_proxy.Upstream.Resources.{
  Holds, live, Replays, open_upstream_with_retries-Holds, open_upstream_with_retries-Replays,
  Reports, count_attempts, count_sleeps, sleeps_for,
}
use codex_reset_proxy.Upstream.Streaming.{stream_upstream_body-closes, closes_client}
use codex_reset_proxy.Tests.Samples.{runtime, settings, client_headers}

abbrev accept : Header
accept = (codes "Accept", codes "*/*")

filtered_run :
    filter_raw_headers client_headers request_only_headers
    ≡ (codes "authorization", codes "Bearer client") ∷ accept ∷ []
unfolding filter_raw_headers connection_tokens split_header_tokens eqb elem lower_byte split_onto
    lstrip rstrip is_space
filtered_run = refl

filter_raw_headers-mem_example :
    Memᴰ accept (filter_raw_headers client_headers request_only_headers) ↔ (
      Memᴰ accept client_headers × ¬ IsSkipped (lower accept.0) client_headers request_only_headers)
filter_raw_headers-mem_example = filter_raw_headers-mem client_headers request_only_headers accept

abbrev forwarded : List Header
forwarded = accept ∷ (codes "Authorization", codes "Bearer k1") ∷ []

forwarded_run : filtered_request_headers_from_raw settings client_headers ≡ some forwarded
unfolding filtered_request_headers_from_raw filter_raw_headers connection_tokens split_header_tokens
    eqb elem lower_byte split_onto lstrip rstrip is_space encode_latin1
forwarded_run = refl

filtered_request_headers-key_example :
    (named settings.upstream_api_key_header forwarded
      ≡ (codes "Authorization", codes "Bearer k1") ∷ [])
    × (others settings.upstream_api_key_header forwarded
        ≡ others settings.upstream_api_key_header
            (filter_raw_headers client_headers request_only_headers))
filtered_request_headers-key_example =
    filtered_request_headers-key settings client_headers (codes "k1") {headers = forwarded} refl
      forwarded_run

abbrev pub upstream : ℕ → HeaderOutcome
upstream ℕ.zero = timeout_error
upstream (ℕ.suc ℕ.zero) = timeout_error
upstream (ℕ.suc (ℕ.suc n)) = response (record { status_code = 200; headers = [] })

second_attempt :
    (open_upstream_with_retries runtime settings upstream (codes "POST") [] [] []).1
    ≡ opened (record { status_code = 200; headers = [] }) 2
unfolding open_upstream_with_retries
second_attempt = refl

open_upstream_with_retries-Explains_example :
    Explains upstream 1 3 2
      (open_upstream_with_retries runtime settings upstream (codes "POST") [] [] []).1
open_upstream_with_retries-Explains_example =
    open_upstream_with_retries-Explains runtime settings upstream (codes "POST") [] [] []

open_upstream_with_retries-Holds_example :
    Holds upstream
      (live [] (open_upstream_with_retries runtime settings upstream (codes "POST") [] [] []).0)
      (open_upstream_with_retries runtime settings upstream (codes "POST") [] [] []).1
open_upstream_with_retries-Holds_example =
    open_upstream_with_retries-Holds runtime settings upstream (codes "POST") [] [] []

abbrev retried : ℕ
retried =
    count_attempts (open_upstream_with_retries runtime settings upstream (codes "POST") [] [] []).0

open_upstream_with_retries-Replays_example :
    All
      (Replays settings (record { method = codes "POST"; url = []; headers = []; content = none }))
      (open_upstream_with_retries runtime settings upstream (codes "POST") [] [] []).0
    × Reports 1 2 retried
        (open_upstream_with_retries runtime settings upstream (codes "POST") [] [] []).1
    × (count_sleeps (open_upstream_with_retries runtime settings upstream (codes "POST") [] [] []).0
        ≡ sleeps_for settings retried)
open_upstream_with_retries-Replays_example =
    open_upstream_with_retries-Replays runtime settings upstream (codes "POST") [] [] []

read_limited_body_example : read_limited_body (codes "ab" ∷ codes "c" ∷ []) 3 ≡ some (codes "abc")
unfolding codex_reset_proxy.Upstream.concat
read_limited_body_example = read_limited_body_lem (codes "ab" ∷ codes "c" ∷ []) 3

abbrev closing : OtherError
closing = record { is_runtime_error = true; message = already_running }

abbrev close_outcomes : CloseOutcomes
close_outcomes = record {
  has_aclose = true;
  aclose_raises = none;
  exit_raises = some closing;
  client_raises = none;
}

stream_upstream_body-closes_example :
    closes_client (stream_upstream_body [] exhausted close_outcomes).1 ≡ true
stream_upstream_body-closes_example =
    stream_upstream_body-closes [] exhausted close_outcomes (inr refl)

already_running_contained : contains already_running already_running ≡ true
unfolding contains codex_reset_proxy.Text.starts_with
already_running_contained = refl
