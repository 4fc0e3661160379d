-- ===== src/Upstream.antt =====
-- proxy.py: the buffered body, the upstream URL, the retries before response headers, and the
-- streamed response body.
pub mod Body
pub mod Attempts
pub mod Resources
pub mod Streaming
use codex_reset_proxy.Prelude.{
  ℕ, zero, suc, ◌+◌, Bool, true, false, Option, none, some, List, [], ◌∷◌, ◌++◌, ltb, length,
  if◌then◌else◌, ◌==◌,
}
use codex_reset_proxy.Text.{Text, codes, is_empty, starts_with, contains}
use codex_reset_proxy.Runtime.{Runtime}
use codex_reset_proxy.Config.{Settings}
use codex_reset_proxy.Headers.{Header}

-- `async for chunk in request.stream()` from the bytes read so far; `none` for RequestBodyTooLarge
unfoldable pub read_chunks : ℕ → ℕ → List Text → List Text → Option (List Text)
read_chunks limit size chunks [] = some chunks
read_chunks limit size chunks (chunk ∷ rest) =
    let next = read_chunks limit (size + length chunk) (chunks ++ chunk ∷ []) rest in
    if ltb limit (size + length chunk) then none else next

-- b"".join(chunks)
unfoldable pub concat : List Text → Text
concat [] = []
concat (c ∷ cs) = c ++ concat cs

unfoldable pub read_limited_body : List Text → ℕ → Option Text
unfolding read_chunks
read_limited_body stream limit = elim (read_chunks limit 0 [] stream) [
  | none ↦ none
  | some chunks ↦ some (concat chunks)
]

-- "/" in front of a path that lacks it
abbrev pub rooted : Text → Text
rooted path = if starts_with path (codes "/") then path else codes "/" ++ path

-- `raw_path` and `query_string` of the request's scope, as latin-1 texts
unfoldable pub build_upstream_url : Settings → Text → Text → Text
build_upstream_url settings raw_path query =
    let url = settings.upstream_base_url ++ rooted raw_path in
    if is_empty query then url else url ++ codes "?" ++ query

-- What one attempt sends.
pub record Request : Type 0 where
  pub method : Text
  pub url : Text
  pub headers : List Header
  pub content : Option Text

-- `content=body if body else None`
abbrev pub content_of : Text → Option Text
content_of body = if is_empty body then none else some body

-- An exception: its message, and whether it is a RuntimeError.
pub record OtherError : Type 0 where
  pub is_runtime_error : Bool
  pub message : Text

pub record Response : Type 0 where
  pub status_code : ℕ
  pub headers : List Header

-- How an attempt ends, that is `wait_for(stream_context.__aenter__(), ...)`. A `request_error` is an
-- httpx.RequestError that is no TimeoutException; both carry the name of their class. A
-- `client_error` is what `client_factory` raises, and a `close_error` what `client.aclose` raises in
-- one of the `except` clauses.
pub data HeaderOutcome : Type 0 where
  response : Response → HeaderOutcome
  timeout_error : HeaderOutcome
  httpx_timeout : Text → HeaderOutcome
  request_error : Text → HeaderOutcome
  other_error client_error close_error : OtherError → HeaderOutcome

-- What the proxy does to the outside, in order. A client is named by its attempt; `refuses` is a call
-- of `client_factory` that raises.
pub data Event : Type 0 where
  refuses : ℕ → Event
  opens : ℕ → Request → Event
  closes : ℕ → Event
  sleeps : ℕ → Event

-- UpstreamOpenError; `last_error_code`, `last_status_code` and `last_message` with `attempts`
pub record Failure : Type 0 where
  pub status_code : ℕ
  pub error_code : Text
  pub message : Text

pub data Outcome : Type 0 where
  opened : Response → ℕ → Outcome
  failed : Failure → ℕ → Outcome
  -- an exception that no `except` clause names leaves the function
  escaped : OtherError → Outcome

unfoldable pub initial_failure : Failure
initial_failure = record {
  status_code = 502;
  error_code = codes "upstream_request_failed";
  message = codes "upstream request failed before response headers were received";
}

-- The three `except` clauses; `none` where the attempt is not retried.
unfoldable pub failure_of : Runtime → Settings → HeaderOutcome → Option Failure
failure_of py settings (response r) = none
failure_of py settings timeout_error = some (record {
  status_code = 504;
  error_code = codes "upstream_header_timeout";
  message =
      codes "upstream did not return response headers within "
      ++ py.format_g settings.response_header_timeout_seconds
      ++ codes "s";
})
failure_of py settings (httpx_timeout name) = some (record {
  status_code = 504;
  error_code = codes "upstream_timeout";
  message = codes "upstream timeout before response headers: " ++ name;
})
failure_of py settings (request_error name) = some (record {
  status_code = 502;
  error_code = codes "upstream_request_error";
  message = codes "upstream request failed before response headers: " ++ name;
})
failure_of py settings (other_error e) = none
failure_of py settings (client_error e) = none
failure_of py settings (close_error e) = none

-- `asyncio.sleep`, unless this was the last attempt or the backoff is 0
abbrev pub backoff : Settings → ℕ → List Event → List Event
backoff settings remaining rest =
    if remaining == 0
    then rest
    else if settings.retry_backoff_seconds == 0
    then rest
    else sleeps settings.retry_backoff_seconds ∷ rest

-- How an attempt that is not retried ends the function.
abbrev pub conclude : HeaderOutcome → ℕ → Outcome → Outcome
conclude (response r) attempt default = opened r attempt
conclude (other_error e) attempt default = escaped e
conclude (client_error e) attempt default = escaped e
conclude (close_error e) attempt default = escaped e
conclude _ attempt default = default

-- What such an attempt does.
abbrev pub events_of : HeaderOutcome → ℕ → Request → List Event
events_of (client_error e) attempt request = refuses attempt ∷ []
events_of (close_error e) attempt request = opens attempt request ∷ closes attempt ∷ []
events_of _ attempt request = opens attempt request ∷ []

module _ (py : Runtime) (settings : Settings) (upstream : ℕ → HeaderOutcome)
    (request : Request) where
  -- The loop, with the attempts that remain, the number of the next one and the last failure.
  -- `upstream` tells how each attempt ends.
  unfoldable pub attempts : ℕ → ℕ → Failure → List Event × Outcome
  unfolding failure_of
  attempts zero attempt last = ([], failed last settings.upstream_max_attempts)
  attempts (suc remaining) attempt last = elim (failure_of py settings (upstream attempt)) [
    | none ↦ (
      events_of (upstream attempt) attempt request,
      conclude (upstream attempt) attempt (failed last settings.upstream_max_attempts),
    )
    | some failure ↦
        let rest = attempts remaining (suc attempt) failure in
        (opens attempt request ∷ closes attempt ∷ backoff settings remaining rest.0, rest.1)
  ]

unfoldable pub open_upstream_with_retries :
    Runtime
    → Settings
    → (ℕ → HeaderOutcome)
    → Text
    → Text
    → List Header
    → Text
    → List Event × Outcome
unfolding attempts initial_failure
open_upstream_with_retries py settings upstream method url headers body =
    attempts py settings upstream
      (record { method = method; url = url; headers = headers; content = content_of body })
      settings.upstream_max_attempts 1 initial_failure

-- How the body's iteration ends; `abandoned` when the consumer closes the generator behind an item,
-- `unstarted` when it does so before it asks for one.
pub data BodyEnd : Type 0 where
  exhausted abandoned unstarted : BodyEnd
  body_error : OtherError → BodyEnd

-- The calls of `close_upstream`, and how each ends: `none` for a normal return.
pub data CloseEvent : Type 0 where
  response_aclose context_exit client_aclose : CloseEvent

pub record CloseOutcomes : Type 0 where
  pub has_aclose : Bool
  pub aclose_raises : Option OtherError
  pub exit_raises : Option OtherError
  pub client_raises : Option OtherError

abbrev pub already_running : Text
already_running = codes "asynchronous generator is already running"

-- What leaves the `try` round `__aexit__`.
unfoldable pub exit_error : Option OtherError → Option OtherError
exit_error none = none
exit_error (some e) =
    if e.is_runtime_error
    then (if contains e.message already_running then none else some e)
    else some e

-- An exception of the `finally` part replaces the one before it.
abbrev pub or_else {ℓ} : {A : Type ℓ} → Option A → Option A → Option A
or_else none b = b
or_else (some a) b = some a

abbrev pub exit_and_close : CloseOutcomes → List CloseEvent × Option OtherError
exit_and_close o =
    (context_exit ∷ client_aclose ∷ [], or_else o.client_raises (exit_error o.exit_raises))

unfoldable pub close_upstream : CloseOutcomes → List CloseEvent × Option OtherError
unfolding exit_error
close_upstream o =
    if o.has_aclose
    then elim o.aclose_raises [
      | some e ↦ (response_aclose ∷ [], some e)
      | none ↦ let rest = exit_and_close o in (response_aclose ∷ rest.0, rest.1)
    ]
    else exit_and_close o

abbrev end_error : BodyEnd → Option OtherError
end_error (body_error e) = some e
end_error _ = none

-- The chunks that the consumer saw, the calls made at the end, and the exception that leaves. The
-- `try` is entered with the first item that is asked for.
unfoldable pub stream_upstream_body :
    List Text → BodyEnd → CloseOutcomes → List Text × List CloseEvent × Option OtherError
unfolding close_upstream
stream_upstream_body chunks unstarted o = ([], [], none)
stream_upstream_body chunks ending o =
    let closed = close_upstream o in (chunks, closed.0, or_else closed.1 (end_error ending))
