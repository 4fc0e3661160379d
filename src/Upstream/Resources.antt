-- ===== src/Upstream/Resources.antt =====
-- The clients that `open_upstream_with_retries` leaves open, what it replays and when it sleeps.
use codex_reset_proxy.Prelude.{
  ℕ, zero, suc, none, ◌+◌, ◌-◌, ◌≤◌, ◌<◌, List, [], ◌∷◌, ◌≡◌, refl, ◌↔◌, inl, inr, arith,
  if◌then◌else◌, ◌==◌, Option-cases, keep, not, All,
}
use codex_reset_proxy.Text.{Text}
use codex_reset_proxy.Runtime.{Runtime}
use codex_reset_proxy.Config.{Settings}
use codex_reset_proxy.Headers.{Header}
use codex_reset_proxy.Upstream.{
  HeaderOutcome, response, timeout_error, httpx_timeout, request_error, other_error, client_error,
  close_error, events_of, conclude, Event, opens, closes, sleeps, refuses, Failure, Outcome, opened,
  failed, escaped, failure_of, initial_failure, attempts, Request, open_upstream_with_retries,
  content_of, backoff,
}
use codex_reset_proxy.Upstream.Attempts.{Escapes}

-- The clients that are open after the events, the latest first.
abbrev pub live : List ℕ → List Event → List ℕ
live clients [] = clients
live clients (opens n r ∷ es) = live (n ∷ clients) es
live clients (closes n ∷ es) = live (keep (λ m. not (m == n)) clients) es
live clients (sleeps t ∷ es) = live clients es
live clients (refuses n ∷ es) = live clients es

-- What the attempt k leaves open where an exception of it escapes.
abbrev pub left_by : HeaderOutcome → ℕ → List ℕ
left_by (other_error e) k = k ∷ []
left_by _ k = []

abbrev pub Holds : (ℕ → HeaderOutcome) → List ℕ → Outcome → Type 0
Holds upstream clients (failed f n) = clients ≡ []
Holds upstream clients (opened r k) = clients ≡ k ∷ []
Holds upstream clients (escaped e) =
    (k : ℕ) × Escapes (upstream k) e × (clients ≡ left_by (upstream k) k)

-- Every attempt sends `request`, and no sleep is of another length than the configured one.
abbrev pub Replays : Settings → Request → Event → Type 0
Replays settings request (opens n r) = r ≡ request
Replays settings request (closes n) = Unit {0}
Replays settings request (refuses n) = Unit {0}
Replays settings request (sleeps t) = t ≡ settings.retry_backoff_seconds

-- The attempts, those without a client with them.
abbrev pub count_attempts : List Event → ℕ
count_attempts [] = 0
count_attempts (opens n r ∷ es) = suc (count_attempts es)
count_attempts (refuses n ∷ es) = suc (count_attempts es)
count_attempts (_ ∷ es) = count_attempts es

abbrev pub count_sleeps : List Event → ℕ
count_sleeps [] = 0
count_sleeps (sleeps t ∷ es) = suc (count_sleeps es)
count_sleeps (_ ∷ es) = count_sleeps es

-- The number of attempts, from attempt `n` on with `remaining` attempts left.
abbrev pub Reports : ℕ → ℕ → ℕ → Outcome → Type 0
Reports n remaining opens' (failed f m) = opens' ≡ remaining
Reports n remaining opens' (opened r k) = n + opens' ≡ suc k
Reports n remaining opens' (escaped e) = opens' ≤ remaining

Reports-later :
    (n remaining opens' : ℕ) (o : Outcome)
    → Reports (suc n) remaining opens' o
    → Reports n (suc remaining) (suc opens') o
Reports-later n remaining opens' (failed f m) h = omega arith
Reports-later n remaining opens' (opened r k) h = omega arith
Reports-later n remaining opens' (escaped e) h = omega arith

-- One sleep between two attempts, if the backoff is not 0.
abbrev pub sleeps_for : Settings → ℕ → ℕ
sleeps_for settings opens' = if settings.retry_backoff_seconds == 0 then 0 else opens' - 1

module _ (py : Runtime) (settings : Settings) (upstream : ℕ → HeaderOutcome)
    (request : Request) where
  live-backoff :
      (remaining : ℕ) (clients : List ℕ) (es : List Event)
      → live clients (backoff settings remaining es) ≡ live clients es
  live-backoff remaining clients es = ground arith

  live-conclude :
      (o : HeaderOutcome) (n : ℕ) (last : Failure)
      → upstream n ≡ o
      → failure_of py settings o ≡ none
      → Holds upstream
          (live [] (events_of o n request))
          (conclude o n (failed last settings.upstream_max_attempts))
  unfolding failure_of
  live-conclude (response r) n last is stop = refl
  live-conclude (other_error e) n last is stop = (n, rw is refl, rw is refl)
  live-conclude (client_error e) n last is stop = (n, rw is refl, rw is refl)
  live-conclude (close_error e) n last is stop = (n, rw is refl, rw is (ground arith))
  live-conclude timeout_error n last is stop = absurd (ground arith)
  live-conclude (httpx_timeout x) n last is stop = absurd (ground arith)
  live-conclude (request_error x) n last is stop = absurd (ground arith)

  events_of-Replays :
      (o : HeaderOutcome) (n : ℕ) → All (Replays settings request) (events_of o n request)
  events_of-Replays o n = ground arith

  events_of-counts :
      (o : HeaderOutcome) (n : ℕ)
      → (count_sleeps (events_of o n request) ≡ 0) × (count_attempts (events_of o n request) ≡ 1)
  events_of-counts o n = ground arith

  conclude-Reports :
      (o : HeaderOutcome) (n remaining : ℕ) (last : Failure)
      → failure_of py settings o ≡ none
      → Reports n
          (suc remaining)
          (count_attempts (events_of o n request))
          (conclude o n (failed last settings.upstream_max_attempts))
  unfolding failure_of
  conclude-Reports o n remaining last stop = ground arith

  live-attempts :
      (remaining n : ℕ) (last : Failure)
      → Holds upstream
          (live [] (attempts py settings upstream request remaining n last).0)
          (attempts py settings upstream request remaining n last).1
  unfolding attempts
  live-attempts zero n last = refl
  live-attempts (suc remaining) n last = elim (Option-cases (failure_of py settings (upstream n))) [
    | inl stop ↦ rw (stop, attempts) (live-conclude (upstream n) n last refl stop)
    | inr (f, again) ↦ ground (
      arith,
      live-attempts remaining (suc n) f,
      live-backoff remaining [] (attempts py settings upstream request remaining (suc n) f).0,
    )
  ]

  attempts-Replays :
      (remaining n : ℕ) (last : Failure)
      → All (Replays settings request) (attempts py settings upstream request remaining n last).0
  unfolding attempts
  attempts-Replays zero n last = tt
  attempts-Replays (suc remaining) n last =
      elim (Option-cases (failure_of py settings (upstream n))) [
        | inl stop ↦ rw (stop, attempts) (events_of-Replays (upstream n) n)
        | inr (f, again) ↦ ground (arith, attempts-Replays remaining (suc n) f)
      ]

  count_attempts-backoff :
      (remaining : ℕ) (es : List Event)
      → count_attempts (backoff settings remaining es) ≡ count_attempts es
  count_attempts-backoff remaining es = ground arith

  attempts-Reports :
      (remaining n : ℕ) (last : Failure)
      → Reports n remaining
          (count_attempts (attempts py settings upstream request remaining n last).0)
          (attempts py settings upstream request remaining n last).1
  unfolding attempts
  attempts-Reports zero n last = refl
  attempts-Reports (suc remaining) n last =
      elim (Option-cases (failure_of py settings (upstream n))) [
        | inl stop ↦ rw (stop, attempts) (conclude-Reports (upstream n) n remaining last stop)
        | inr (f, again) ↦
            rw (again, attempts)
              (rw (count_attempts-backoff remaining _)
                (Reports-later n remaining _ _ (attempts-Reports remaining (suc n) f)))
      ]

  attempts_open :
      (remaining n : ℕ) (last : Failure)
      → (0 < remaining)
        ↔ (0 < count_attempts (attempts py settings upstream request remaining n last).0)
  unfolding attempts
  attempts_open zero n last = (λ h. h, λ h. h)
  attempts_open (suc remaining) n last =
      (λ h. ground (arith, (events_of-counts (upstream n) n).1), λ h. omega arith)

  attempts-sleeps :
      (remaining n : ℕ) (last : Failure)
      → count_sleeps (attempts py settings upstream request remaining n last).0
        ≡ sleeps_for settings
            (count_attempts (attempts py settings upstream request remaining n last).0)
  unfolding attempts
  attempts-sleeps zero n last = ground arith
  attempts-sleeps (suc remaining) n last =
      elim (Option-cases (failure_of py settings (upstream n))) [
        | inl stop ↦
            let (sleeps', tries) = events_of-counts (upstream n) n in
            rw (stop, attempts) (ground (arith, sleeps', tries))
        | inr (f, again) ↦
            rw (again, attempts)
              (sleeps_later remaining (attempts py settings upstream request remaining (suc n) f).0
                (attempts-sleeps remaining (suc n) f) (attempts_open remaining (suc n) f))
      ]
    where
      sleeps_later :
          (remaining : ℕ) (es : List Event)
          → count_sleeps es ≡ sleeps_for settings (count_attempts es)
          → ((0 < remaining) ↔ (0 < count_attempts es))
          → count_sleeps (backoff settings remaining es)
            ≡ sleeps_for settings (suc (count_attempts (backoff settings remaining es)))
      sleeps_later remaining es h k = ground (arith, k)

module _ (py : Runtime) (settings : Settings) (upstream : ℕ → HeaderOutcome) (method url : Text)
    (headers : List Header) (body : Text) where
  abbrev run : List Event × Outcome
  run = open_upstream_with_retries py settings upstream method url headers body

  -- Every client that the call opened is closed when it fails; when it returns a response, the one
  -- client left open is that of the attempt which it reports. Where an exception escapes, the client
  -- of its attempt is left open if no clause names the exception, and none if creating or closing the
  -- client raised it.
  pub open_upstream_with_retries-Holds : Holds upstream (live [] run.0) run.1
  unfolding open_upstream_with_retries
  open_upstream_with_retries-Holds =
      live-attempts py settings upstream _ settings.upstream_max_attempts 1 initial_failure

  -- Every attempt that has a client sends the same method, URL, headers and buffered body, an empty body as none. A
  -- failure follows as many attempts as the configured maximum, a response as many as it reports, an
  -- escaping exception at most the maximum; and there is one sleep of the configured length between
  -- two attempts, none if that length is 0.
  pub open_upstream_with_retries-Replays :
      All
        (Replays settings
          (record { method = method; url = url; headers = headers; content = content_of body }))
        run.0
      × Reports 1 settings.upstream_max_attempts (count_attempts run.0) run.1
      × (count_sleeps run.0 ≡ sleeps_for settings (count_attempts run.0))
  unfolding open_upstream_with_retries
  open_upstream_with_retries-Replays = (
    attempts-Replays py settings upstream _ settings.upstream_max_attempts 1 initial_failure,
    attempts-Reports py settings upstream _ settings.upstream_max_attempts 1 initial_failure,
    attempts-sleeps py settings upstream _ settings.upstream_max_attempts 1 initial_failure,
  )
