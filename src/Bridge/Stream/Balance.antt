-- ===== src/Bridge/Stream/Balance.antt =====
-- websocket_bridge.py: what becomes of the connection of `stream_websocket_as_sse`.
use codex_reset_proxy.Prelude.{ℕ, zero, suc, ◌≡◌, refl, false, Option, none, some, List, ◌∷◌, arith}
use codex_reset_proxy.Text.{Text}
use codex_reset_proxy.Runtime.{Runtime}
use codex_reset_proxy.Config.{Settings}
use codex_reset_proxy.Bridge.Request.{Result, ok, err}
use codex_reset_proxy.Bridge.World.{
  Message, Received, receives, message, raises, Outside, World, Res, done, raise,
  close_context_quietly, IsBalanced,
}
use codex_reset_proxy.Bridge.Connect.{Opened}
use codex_reset_proxy.Bridge.Stream.{
  End, returned, raised, abandoned, unstarted, Step, step_of, next_message, next_step, finish,
  resume, stream_websocket_as_sse,
}

-- A stream that was closed before its first step, or that returns and leaves a background task,
-- still holds the connection; otherwise it is closed.
abbrev pub Settles : ℕ → ℕ → List ℕ → End → World → Type 0
Settles pulls c held (returned id) w = IsBalanced (c ∷ held) w
Settles pulls c held unstarted w = (pulls ≡ 0) × IsBalanced (c ∷ held) w
Settles pulls c held (raised e) w = IsBalanced held w
Settles pulls c held abandoned w = IsBalanced held w

module _ (py : Runtime) (out : Outside) (settings : Settings) (pulls c : ℕ) (held : List ℕ) where
  -- The connection is the same one throughout, and no background task owns it yet.
  abbrev Owned : Opened → World → Type 0
  Owned o w = (o.context ≡ c) × (o.close_owned_by_background ≡ false) × IsBalanced (c ∷ held) w

  abbrev Steps : Opened → Res (Step × Opened) → Type 0
  Steps o (done (s, o') w) = Owned o' w
  Steps o (raise e w) = Owned o w

  abbrev Delivers : Opened → Res (Message × Opened) → Type 0
  Delivers o (done (m, o') w) = Owned o' w
  Delivers o (raise e w) = Owned o w

  next_message-Delivers :
      (o : Opened) (w : World) → Owned o w → Delivers o (next_message py out settings o w)
  unfolding next_message
  next_message-Delivers o w h = first o.first_message refl
    where
      received :
          (r : Received)
          → out.recv (receives o.context ∷ w.log) ≡ r
          → o.first_message ≡ none
          → Delivers o (next_message py out settings o w)
      received (message m) e k =
          rw (k, next_message) (rw (e, next_message) (h.0, h.1, λ d. omega (arith, h.2 d)))
      received (raises x) e k =
          rw (k, next_message) (rw (e, next_message) (h.0, h.1, λ d. omega (arith, h.2 d)))

      first :
          (m : Option Message) → o.first_message ≡ m → Delivers o (next_message py out settings o w)
      first (some m) e = rw (e, next_message) h
      first none e = received _ refl e

  next_step-Steps : (o : Opened) (w : World) → Owned o w → Steps o (next_step py out settings o w)
  unfolding next_step
  next_step-Steps o w h =
      cases (next_message py out settings o w) refl (next_message-Delivers o w h)
    where
      stepped :
          (m : Message) (o' : Opened) (w' : World) (r : Result Step)
          → step_of py out settings m ≡ r
          → next_message py out settings o w ≡ done (m, o') w'
          → Owned o' w'
          → Owned o w'
          → Steps o (next_step py out settings o w)
      stepped m o' w' (ok s) e k a b = rw (k, next_step) (rw (e, next_step) a)
      stepped m o' w' (err x) e k a b = rw (k, next_step) (rw (e, next_step) b)

      cases :
          (r : Res (Message × Opened))
          → next_message py out settings o w ≡ r
          → Delivers o r
          → Steps o (next_step py out settings o w)
      cases (raise x w') e k = rw (e, next_step) k
      cases (done (m, o') w') e k = stepped m o' w' _ refl e k (h.0, h.1, k.2)

  finish_lem :
      (o : Opened) (e : End) (w : World)
      → Owned o w
      → IsBalanced held (finish py out settings o e w).world
  unfolding close_context_quietly
  finish_lem o e w h = rw h.1 (λ d. ground (arith, h.0, h.2 d))

  resume-Settles :
      (more : ℕ) (o : Opened) (w : World)
      → Owned o w
      → let s = resume py out settings more o w in Settles pulls c held s.ending s.world
  unfolding resume
  resume-Settles zero o w h = cases (next_step py out settings o w) refl (next_step-Steps o w h)
    where
      cases :
          (r : Res (Step × Opened))
          → next_step py out settings o w ≡ r
          → Steps o r
          → let s = resume py out settings zero o w in Settles pulls c held s.ending s.world
      cases (raise x w') e k = rw (e, resume) (finish_lem o (raised x) w' k)
      cases (done (s, o') w') e k = rw (e, resume) (finish_lem o' abandoned w' k)
  resume-Settles (suc more) o w h =
      cases (next_step py out settings o w) refl (next_step-Steps o w h) (resume-Settles more)
    where
      Goal : Type 0
      Goal = let s = resume py out settings (suc more) o w in Settles pulls c held s.ending s.world

      Later : Type 0
      Later =
          (o' : Opened) (w' : World)
          → Owned o' w'
          → let s = resume py out settings more o' w' in Settles pulls c held s.ending s.world

      stepped :
          (s : Step) (o' : Opened) (w' : World) (id : Option Text)
          → s.completed ≡ id
          → next_step py out settings o w ≡ done (s, o') w'
          → Owned o' w'
          → Later
          → Goal
      stepped s o' w' (some id) k e a later = rw (e, resume) (rw (k, resume) a.2)
      stepped s o' w' none k e a later = rw (e, resume) (rw (k, resume) (later o' w' a))

      cases :
          (r : Res (Step × Opened)) → next_step py out settings o w ≡ r → Steps o r → Later → Goal
      cases (raise x w') e k later = rw (e, resume) (finish_lem o (raised x) w' k)
      cases (done (s, o') w') e k later = stepped s o' w' s.completed refl e k later

-- A stream that is asked for at least one item never leaves its connection open by itself: it is
-- closed when an exception or the consumer ends the stream, and held only for the background task of
-- a completed response; one that is closed before its first step holds it as before.
pub stream_websocket_as_sse-Settles :
    (py : Runtime) (out : Outside) (settings : Settings) (held : List ℕ) (pulls : ℕ) (o : Opened)
    (w : World)
    → o.close_owned_by_background ≡ false
    → IsBalanced (o.context ∷ held) w
    → let s = stream_websocket_as_sse py out settings pulls o w in
      Settles pulls o.context held s.ending s.world
unfolding stream_websocket_as_sse
stream_websocket_as_sse-Settles py out settings held zero o w h b = (refl, b)
stream_websocket_as_sse-Settles py out settings held (suc more) o w h b =
    resume-Settles py out settings (suc more) o.context held more o w (refl, h, b)
