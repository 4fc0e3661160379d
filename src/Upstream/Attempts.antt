-- ===== src/Upstream/Attempts.antt =====
-- The retries of `open_upstream_with_retries`: how many, after what, and what is left open.
use codex_reset_proxy.Prelude.{
  ℕ, zero, suc, ◌+◌, ◌≤◌, ◌<◌, none, some, List, ◌≡◌, refl, ap, ◌∙◌, inl, inr, arith, Option-cases,
}
use codex_reset_proxy.Text.{Text, codes}
use native.Mathlib.Decide.{dec_lt}
use codex_reset_proxy.Runtime.{Runtime}
use codex_reset_proxy.Config.{Settings}
use codex_reset_proxy.Headers.{Header}
use codex_reset_proxy.Upstream.{
  HeaderOutcome, response, timeout_error, httpx_timeout, request_error, other_error, client_error,
  close_error, Failure, conclude, Outcome, opened, failed, escaped, failure_of, initial_failure,
  attempts, Request, open_upstream_with_retries, OtherError, content_of,
}

-- No response headers came: a timeout, or an error of the request.
abbrev pub IsRetryable : HeaderOutcome → Type 0
IsRetryable (response r) = ⊥
IsRetryable (other_error e) = ⊥
IsRetryable (client_error e) = ⊥
IsRetryable (close_error e) = ⊥
IsRetryable _ = Unit {0}

-- The attempt ends with an exception that is not handled.
abbrev pub Escapes : HeaderOutcome → OtherError → Type 0
Escapes (other_error x) e = x ≡ e
Escapes (client_error x) e = x ≡ e
Escapes (close_error x) e = x ≡ e
Escapes _ e = ⊥

-- The status code and error code that the documentation gives for each retryable outcome.
abbrev pub codes_of : HeaderOutcome → ℕ × Text
codes_of timeout_error = (504, codes "upstream_header_timeout")
codes_of (httpx_timeout name) = (504, codes "upstream_timeout")
codes_of _ = (502, codes "upstream_request_error")

abbrev pub AllRetryable : (ℕ → HeaderOutcome) → ℕ → ℕ → Type 0
AllRetryable upstream lo hi = (j : ℕ) → lo ≤ j → j < hi → IsRetryable (upstream j)

-- What the result says of the attempts from `lo` up to, not including, `hi`.
abbrev pub Explains : (ℕ → HeaderOutcome) → ℕ → ℕ → ℕ → Outcome → Type 0
Explains upstream lo hi total (opened r k) =
    (lo ≤ k) × (k < hi) × AllRetryable upstream lo k × (upstream k ≡ response r)
Explains upstream lo hi total (escaped e) =
    (k : ℕ) × (lo ≤ k) × (k < hi) × AllRetryable upstream lo k × Escapes (upstream k) e
Explains upstream lo hi total (failed f n) =
    (n ≡ total)
    × AllRetryable upstream lo hi
    × ((k : ℕ) → lo ≤ k → suc k ≡ hi → (f.status_code, f.error_code) ≡ codes_of (upstream k))

module _ (py : Runtime) (settings : Settings) (upstream : ℕ → HeaderOutcome)
    (request : Request) where
  failure_of-some :
      (o : HeaderOutcome) (f : Failure)
      → failure_of py settings o ≡ some f
      → IsRetryable o × ((f.status_code, f.error_code) ≡ codes_of o)
  unfolding failure_of
  failure_of-some (response r) f h = absurd (ground arith)
  failure_of-some (other_error e) f h = absurd (ground arith)
  failure_of-some (client_error e) f h = absurd (ground arith)
  failure_of-some (close_error e) f h = absurd (ground arith)
  failure_of-some timeout_error f h = ground arith
  failure_of-some (httpx_timeout n) f h = ground arith
  failure_of-some (request_error n) f h = ground arith

  -- The same from the middle of the loop: with no attempt left, the failure is the last one.
  abbrev FromHere : Failure → ℕ → ℕ → Outcome → Type 0
  FromHere last lo hi (failed f n) =
      Explains upstream lo hi settings.upstream_max_attempts (failed f n) × (lo ≡ hi → f ≡ last)
  FromHere last lo hi o = Explains upstream lo hi settings.upstream_max_attempts o

  retry_first :
      (n k : ℕ)
      → IsRetryable (upstream n)
      → AllRetryable upstream (suc n) k
      → AllRetryable upstream n k
  retry_first n k h all j le lt = elim (dec_lt n j) [
    | yes p ↦ all j p lt
    | no p ↦ let e : j ≡ n = omega arith in rw e h
  ]

  extend :
      (last f : Failure) (n hi : ℕ) (o : Outcome)
      → n < hi
      → IsRetryable (upstream n)
      → (f.status_code, f.error_code) ≡ codes_of (upstream n)
      → FromHere f (suc n) hi o
      → FromHere last n hi o
  extend last f n hi (opened r k) lt h c (le, lt', all, e) =
      (omega arith, lt', retry_first n k h all, e)
  extend last f n hi (escaped x) lt h c (k, le, lt', all, e) =
      (k, omega arith, lt', retry_first n k h all, e)
  extend last f n hi (failed g m) lt h c ((e, all, at), same) = (
    (
      e,
      retry_first n hi h all,
      λ k le s. elim (dec_lt n k) [
        | yes p ↦ at k p s
        | no p ↦
            let k-is : n ≡ k = omega arith in
            let g-is : g ≡ f = same (omega arith) in
            rw g-is (c ∙ ap (λ i. codes_of (upstream i)) k-is)
      ],
    ),
    λ eq. absurd (omega arith),
  )

  conclude-FromHere :
      (o : HeaderOutcome) (n hi : ℕ) (last : Failure)
      → n < hi
      → upstream n ≡ o
      → failure_of py settings o ≡ none
      → FromHere last n hi (conclude o n (failed last settings.upstream_max_attempts))
  unfolding failure_of
  conclude-FromHere (response r) n hi last lt is stop =
      (omega arith, lt, λ j le lt. absurd (omega arith), is)
  conclude-FromHere (other_error e) n hi last lt is stop =
      (n, omega arith, lt, λ j le lt. absurd (omega arith), rw is refl)
  conclude-FromHere (client_error e) n hi last lt is stop =
      (n, omega arith, lt, λ j le lt. absurd (omega arith), rw is refl)
  conclude-FromHere (close_error e) n hi last lt is stop =
      (n, omega arith, lt, λ j le lt. absurd (omega arith), rw is refl)
  conclude-FromHere timeout_error n hi last lt is stop = absurd (ground arith)
  conclude-FromHere (httpx_timeout x) n hi last lt is stop = absurd (ground arith)
  conclude-FromHere (request_error x) n hi last lt is stop = absurd (ground arith)

  attempts-FromHere :
      (remaining n hi : ℕ) (last : Failure)
      → n + remaining ≡ hi
      → FromHere last n hi (attempts py settings upstream request remaining n last).1
  unfolding attempts
  attempts-FromHere zero n hi last e =
      ((refl, λ j le lt. absurd (omega arith), λ k le s. absurd (omega arith)), λ _. refl)
  attempts-FromHere (suc remaining) n hi last e =
      elim (Option-cases (failure_of py settings (upstream n))) [
        | inl stop ↦
            rw (stop, attempts) (conclude-FromHere (upstream n) n hi last (omega arith) refl stop)
        | inr (f, again) ↦
            let (h, c) = failure_of-some (upstream n) f again in
            rw (again, attempts)
              (extend last f n hi _ (omega arith) h c
                (attempts-FromHere remaining (suc n) hi f (omega arith)))
      ]

Explains-from :
    (py : Runtime) (settings : Settings) (upstream : ℕ → HeaderOutcome) (request : Request)
    (last : Failure) (lo hi : ℕ) (o : Outcome)
    → FromHere py settings upstream request last lo hi o
    → Explains upstream lo hi settings.upstream_max_attempts o
Explains-from py settings upstream request last lo hi (failed f n) h = h.0
Explains-from py settings upstream request last lo hi (opened r k) h = h
Explains-from py settings upstream request last lo hi (escaped e) h = h

-- For every sequence of outcomes: a response is returned with the number of its attempt, which is
-- at most the configured maximum, and every attempt before it failed with no response headers; an
-- exception that is none of the three kinds, or that creating or closing a client raises, ends the
-- call at its attempt; and the final error is
-- raised only when every attempt of the maximum failed, with the codes of the last one.
pub open_upstream_with_retries-Explains :
    (py : Runtime) (settings : Settings) (upstream : ℕ → HeaderOutcome) (method url : Text)
    (headers : List Header) (body : Text)
    → Explains upstream 1
        (suc settings.upstream_max_attempts)
        settings.upstream_max_attempts
        (open_upstream_with_retries py settings upstream method url headers body).1
unfolding open_upstream_with_retries
open_upstream_with_retries-Explains py settings upstream method url headers body =
    let request : Request = record {
      method = method;
      url = url;
      headers = headers;
      content = content_of body;
    } in
    Explains-from py settings upstream request initial_failure 1 _ _ (
      attempts-FromHere py settings upstream request settings.upstream_max_attempts 1 _
        initial_failure (omega arith))
