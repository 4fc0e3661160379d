-- ===== src/Bridge/Release/Balance.antt =====
-- Where a connection ends up once its response is complete.
use codex_reset_proxy.Prelude.{
  ℕ, ◌≡◌, refl, Bool, true, false, Option, none, some, List, [], ◌∷◌, arith, if◌then◌else◌,
  Bool-cases, inl, inr,
}
use codex_reset_proxy.Text.{Text}
use codex_reset_proxy.Runtime.{Runtime}
use codex_reset_proxy.Config.{Settings}
use codex_reset_proxy.Bridge.Pool.{Key, Entry, put_idle, drain}
use codex_reset_proxy.Bridge.Pool.Dict.{idle_count}
use codex_reset_proxy.Bridge.Pool.Selection.{put_idle-count}
use codex_reset_proxy.Bridge.Request.{Result, ok, err}
use codex_reset_proxy.Bridge.World.{
  Message, Received, receives, reads_clock, message, raises, Outside, World, Res, done, raise, push,
  close_context_quietly, IsBalanced, websocket_appears_open,
}
use codex_reset_proxy.Bridge.Connect.{Opened, close_all, send_websocket_json}
use codex_reset_proxy.Bridge.Connect.Balance.{close_all_lem}
use codex_reset_proxy.Bridge.Sse.{websocket_message_to_text, event_type}
use codex_reset_proxy.Bridge.Release.{
  log_pending, has_unexpected_pending_message, put_back, close_done, retention_disabled, release,
  aclose, release_or_close, discard_or_close, send_response_processed,
  send_response_processed_and_release, background,
}

-- Behind the end of a connection: nothing of it is held, or, after an exception, it still is.
abbrev pub Ends : ℕ → List ℕ → Res (Unit {0}) → Type 0
Ends c held (done _ w) = IsBalanced held w
Ends c held (raise e w) = IsBalanced (c ∷ held) w

close_all-idle : (es : List Entry) (w : World) → (close_all es w).idle ≡ w.idle
unfolding close_all close_context_quietly
close_all-idle [] w = refl
close_all-idle (e ∷ es) w = close_all-idle es _

drained : (c : ℕ) → idle_count c [] ≡ 0
unfolding drain
drained c = refl

module _ (py : Runtime) (out : Outside) (settings : Settings) (held : List ℕ) where
  put_back-IsBalanced :
      (c : ℕ) (key : Key) (w : World)
      → IsBalanced (c ∷ held) w
      → IsBalanced held (put_back py out settings c key w)
  unfolding put_back
  put_back-IsBalanced c key w b = λ d.
      let asked = push reads_clock w in
      let now = out.now asked.log in
      let entry : Entry = record { context = c; key = key; created_at = now; last_used_at = now } in
      let stored = put_idle settings.websocket_pool_max_idle entry w.idle in
      omega (
        arith,
        b d,
        put_idle-count d settings.websocket_pool_max_idle entry w.idle,
        close_all_lem d stored.1 (record asked { idle = stored.0 }),
      )

  close_done-Ends :
      (c : ℕ) (w : World) → IsBalanced (c ∷ held) w → Ends c held (close_done py out settings c w)
  unfolding close_context_quietly
  close_done-Ends c w b = λ d. omega (arith, b d)

  -- The decision about a pending message leaves the connection held.
  abbrev Pending : ℕ → Res Bool → Type 0
  Pending c (done b w) = IsBalanced (c ∷ held) w
  Pending c (raise e w) = IsBalanced (c ∷ held) w

  log_pending-Pending :
      (c : ℕ) (m : Message) (w : World)
      → IsBalanced (c ∷ held) w
      → Pending c (log_pending py out settings m w)
  log_pending-Pending c m w b = decoded (websocket_message_to_text py m) refl
    where
      typed :
          (s : Text) (r : Result Text)
          → event_type py s ≡ r
          → websocket_message_to_text py m ≡ ok s
          → Pending c (log_pending py out settings m w)
      typed s (ok t) e k = rw (k, log_pending) (rw (e, log_pending) b)
      typed s (err x) e k = rw (k, log_pending) (rw (e, log_pending) b)

      decoded :
          (r : Result Text)
          → websocket_message_to_text py m ≡ r
          → Pending c (log_pending py out settings m w)
      decoded (err x) e = rw (e, log_pending) b
      decoded (ok s) e = typed s _ refl e

  has_unexpected_pending_message-Pending :
      (c : ℕ) (w : World)
      → IsBalanced (c ∷ held) w
      → Pending c (has_unexpected_pending_message py out settings c w)
  unfolding has_unexpected_pending_message
  has_unexpected_pending_message-Pending c w b = cases (out.recv (receives c ∷ w.log)) refl
    where
      cases :
          (r : Received)
          → out.recv (receives c ∷ w.log) ≡ r
          → Pending c (has_unexpected_pending_message py out settings c w)
      cases (raises x) e = rw (e, has_unexpected_pending_message) (λ d. omega (arith, b d))
      cases (message m) e =
          rw (e, has_unexpected_pending_message)
            (log_pending-Pending c m (push (receives c) w) (λ d. omega (arith, b d)))

  release-Ends :
      (o : Opened) (w : World)
      → IsBalanced (o.context ∷ held) w
      → Ends o.context held (release py out settings o w)
  unfolding release
  release-Ends o w b = keyed o.pool_key refl
    where
      c : ℕ
      c = o.context

      drained :
          (key : Key) (r : Res Bool)
          → has_unexpected_pending_message py out settings c w ≡ r
          → Pending c r
          → Ends c held (elim r [
            | raise e w' ↦ raise e w'
            | done pending w' ↦
                if pending
                then close_done py out settings c w'
                else done tt (put_back py out settings c key w')
          ])
      drained key (raise e w') k h = h
      drained key (done true w') k h = close_done-Ends c w' h
      drained key (done false w') k h = put_back-IsBalanced c key w' h

      keyed : (k : Option Key) → o.pool_key ≡ k → Ends c held (release py out settings o w)
      keyed none e = rw (e, release) (close_done-Ends c w b)
      keyed (some key) e = elim (Bool-cases (retention_disabled py out settings)) [
        | inl off ↦ rw (e, release) (rw (off, release) (close_done-Ends c w b))
        | inr on ↦ elim (Bool-cases (websocket_appears_open py (out.attributes w.log c))) [
          | inr shut ↦ rw (e, release) (rw on (rw shut (close_done-Ends c w b)))
          | inl open' ↦
              rw (e, release)
                (rw on
                  (rw open' (drained key _ refl (has_unexpected_pending_message-Pending c w b))))
        ]
      ]

  either :
      (c : ℕ) (b : Bool) (x y : Res (Unit {0}))
      → Ends c held x
      → Ends c held y
      → Ends c held (if b then x else y)
  either c true x y h k = h
  either c false x y h k = k

  release_or_close-Ends :
      (o : Opened) (w : World)
      → IsBalanced (o.context ∷ held) w
      → Ends o.context held (release_or_close py out settings o w)
  unfolding release_or_close
  release_or_close-Ends o w b =
      either o.context o.pooled _ _ (release-Ends o w b) (close_done-Ends o.context w b)

  send_response_processed-IsBalanced :
      (o : Opened) (id : Text) (w : World)
      → IsBalanced (o.context ∷ held) w
      → IsBalanced (o.context ∷ held) (send_response_processed py out settings o id w).1
  unfolding send_response_processed send_websocket_json
  send_response_processed-IsBalanced o id w b = λ d. ground (arith, b d)

  send_and_release-Ends :
      (o : Opened) (id : Text) (w : World)
      → IsBalanced (o.context ∷ held) w
      → Ends o.context held (send_response_processed_and_release py out settings o id w)
  unfolding send_response_processed_and_release discard_or_close
  send_and_release-Ends o id w b =
      let sent = send_response_processed py out settings o id w in
      let b' = send_response_processed-IsBalanced o id w b in
      either o.context sent.0 _ _ (release_or_close-Ends o sent.1 b')
        (close_done-Ends o.context sent.1 b')

  -- The background task of a completed response disposes of the connection exactly once, whatever
  -- the settings: it is back in the pool or closed, and what it displaces from the pool is closed;
  -- only if the task raises is the connection still held.
  pub background-Ends :
      (o : Opened) (id : Text) (w : World)
      → IsBalanced (o.context ∷ held) w
      → Ends o.context held (background py out settings o id w)
  unfolding background
  background-Ends o id w b =
      either o.context settings.websocket_send_response_processed _ _
        (send_and_release-Ends o id w b) (release_or_close-Ends o w b)

  -- Closing the pool closes every idle connection: of all that were made, only those held remain.
  pub aclose-IsBalanced :
      (w : World)
      → IsBalanced held w
      → IsBalanced held (aclose py out settings w) × ((aclose py out settings w).idle ≡ [])
  unfolding aclose
  aclose-IsBalanced w b = (
    λ c. omega (arith, b c, close_all_lem c (drain w.idle) (record w { idle = [] }), drained c),
    close_all-idle (drain w.idle) (record w { idle = [] }),
  )
