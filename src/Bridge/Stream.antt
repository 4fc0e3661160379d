-- ===== src/Bridge/Stream.antt =====
-- websocket_bridge.py: `stream_websocket_as_sse`.
pub mod Balance
use codex_reset_proxy.Prelude.{
  ℕ, zero, suc, Bool, true, false, Option, none, some, List, [], ◌∷◌, if◌then◌else◌,
}
use codex_reset_proxy.Text.{Text, is_empty}
use codex_reset_proxy.Runtime.{Runtime}
use codex_reset_proxy.Config.{Settings}
use codex_reset_proxy.Bridge.Request.{Exn, Result, ok, err}
use codex_reset_proxy.Bridge.World.{
  Message, receives, message, raises, Outside, World, Res, done, raise, push, close_context_quietly,
}
use codex_reset_proxy.Bridge.Connect.{Opened}
use codex_reset_proxy.Bridge.Sse.{
  websocket_message_to_text, event_type, completed_response_id, format_sse,
}
use codex_reset_proxy.Bridge.Release.{background}

-- How the generator ends: it returns, leaving a background task for the response of that id; an
-- exception leaves it; or its consumer closes it, before its first step (`unstarted`) or later.
pub data End : Type 0 where
  returned : Text → End
  raised : Exn → End
  abandoned unstarted : End

pub record Streamed : Type 0 where
  pub chunks : List Text
  pub ending : End
  pub world : World

-- A message as the loop sees it: the chunk to yield, and the id if it completes the response.
pub record Step : Type 0 where
  pub chunk : Text
  pub completed : Option Text

-- `if completed_response_id:`
abbrev pub truthy : Option Text → Option Text
truthy none = none
truthy (some id) = if is_empty id then none else some id

module _ (py : Runtime) (out : Outside) (settings : Settings) where
  unfoldable pub step_of : Message → Result Step
  step_of m = elim (websocket_message_to_text py m) [
    | err e ↦ err e
    | ok s ↦ elim (event_type py s) [
      | err e ↦ err e
      | ok t ↦ elim (completed_response_id py s) [
        | err e ↦ err e
        | ok id ↦ elim (format_sse py t s) [
          | err e ↦ err e
          | ok chunk ↦ ok (record { chunk = chunk; completed = truthy id })
        ]
      ]
    ]
  ]

  -- The first message, once, and then what the socket delivers.
  unfoldable pub next_message : Opened → World → Res (Message × Opened)
  next_message o w = elim o.first_message [
    | some m ↦ done (m, record o { first_message = none }) w
    | none ↦
        let asked = push (receives o.context) w in
        elim (out.recv asked.log) [ message m ↦ done (m, o) asked | raises e ↦ raise e asked ]
  ]

  unfoldable pub next_step : Opened → World → Res (Step × Opened)
  unfolding next_message
  next_step o w = elim (next_message o w) [
    | raise e w' ↦ raise e w'
    | done (m, o') w' ↦ elim (step_of m) [ err e ↦ raise e w' | ok s ↦ done (s, o') w' ]
  ]

  abbrev pub finish : Opened → End → World → Streamed
  finish o how w = record {
    chunks = [];
    ending = how;
    world = if o.close_owned_by_background then w else close_context_quietly o.context w;
  }

  abbrev pub yield_before : Text → Streamed → Streamed
  yield_before chunk s = record s { chunks = chunk ∷ s.chunks }

  -- The loop, resumed by the consumer, who asks for `more` items behind this one and then closes the
  -- generator. The `finally` part closes the connection, unless a background task owns it.
  unfoldable pub resume : ℕ → Opened → World → Streamed
  unfolding next_step
  resume zero o w = elim (next_step o w) [
    | raise e w' ↦ finish o (raised e) w'
    | done (s, o') w' ↦ yield_before s.chunk (finish o' abandoned w')
  ]
  resume (suc more) o w = elim (next_step o w) [
    | raise e w' ↦ finish o (raised e) w'
    | done (s, o') w' ↦ elim s.completed [
      | some id ↦ record { chunks = s.chunk ∷ []; ending = returned id; world = w' }
      | none ↦ yield_before s.chunk (resume more o' w')
    ]
  ]

  -- The generator under a consumer that asks for `pulls` items. One that is closed before it is
  -- started runs no part of its body.
  unfoldable pub stream_websocket_as_sse : ℕ → Opened → World → Streamed
  unfolding resume
  stream_websocket_as_sse zero o w = record { chunks = []; ending = unstarted; world = w }
  stream_websocket_as_sse (suc more) o w = resume more o w
