-- ===== src/Bridge/Release.antt =====
-- websocket_bridge.py: what happens to a connection whose response is complete: `release`, the
-- closing of the pool, and the background task that acknowledges the response.
pub mod Balance
use codex_reset_proxy.Prelude.{
  ℕ, Bool, true, false, not, Option, none, some, List, [], ◌∷◌, ◌++◌, if◌then◌else◌, ◌==◌, ◌||◌,
}
use codex_reset_proxy.Text.{Text, codes}
use codex_reset_proxy.Json.{str, end, field, Fields}
use codex_reset_proxy.Runtime.{Runtime}
use codex_reset_proxy.Config.{Settings}
use codex_reset_proxy.Bridge.Pool.{Key, Entry, put_idle, drain}
use codex_reset_proxy.Bridge.Request.{Exn, timeout, ok, err}
use codex_reset_proxy.Bridge.World.{
  Message, receives, reads_clock, message, raises, Outside, World, Res, done, raise, push,
  close_context_quietly, websocket_appears_open,
}
use codex_reset_proxy.Bridge.Connect.{Opened, close_all, send_websocket_json}
use codex_reset_proxy.Bridge.Sse.{websocket_message_to_text, event_type}

module _ (py : Runtime) (out : Outside) (settings : Settings) where
  -- The message is decoded and its type read for the log, which may raise.
  abbrev log_pending : Message → World → Res Bool
  log_pending m w = elim (websocket_message_to_text py m) [
    | err e ↦ raise e w
    | ok s ↦ elim (event_type py s) [ err e ↦ raise e w | ok t ↦ done true w ]
  ]

  abbrev pub is_timeout : Exn → Bool
  is_timeout timeout = true
  is_timeout _ = false

  unfoldable pub has_unexpected_pending_message : ℕ → World → Res Bool
  has_unexpected_pending_message c w =
      let asked = push (receives c) w in
      elim (out.recv asked.log) [
        | raises e ↦ done (not (is_timeout e)) asked
        | message m ↦ log_pending m asked
      ]

  -- The entry is put into the pool, and those that it displaces are closed.
  unfoldable pub put_back : ℕ → Key → World → World
  put_back c key w =
      let asked = push reads_clock w in
      let now = out.now asked.log in
      let entry : Entry = record { context = c; key = key; created_at = now; last_used_at = now } in
      let stored = put_idle settings.websocket_pool_max_idle entry w.idle in
      close_all stored.1 (record asked { idle = stored.0 })

  abbrev pub close_done : ℕ → World → Res (Unit {0})
  close_done c w = done tt (close_context_quietly c w)

  abbrev pub retention_disabled : Bool
  retention_disabled =
      settings.websocket_pool_max_idle == 0 || settings.websocket_pool_idle_timeout_seconds == 0

  -- `WebSocketBridgePool.release`
  unfoldable pub release : Opened → World → Res (Unit {0})
  unfolding put_back
  release o w = elim o.pool_key [
    | none ↦ close_done o.context w
    | some key ↦
        if retention_disabled
        then close_done o.context w
        else if not (websocket_appears_open py (out.attributes w.log o.context))
        then close_done o.context w
        else elim (has_unexpected_pending_message o.context w) [
          | raise e w' ↦ raise e w'
          | done pending w' ↦
              if pending then close_done o.context w' else done tt (put_back o.context key w')
        ]
  ]

  -- `WebSocketBridgePool.aclose`
  unfoldable pub aclose : World → World
  aclose w = close_all (drain w.idle) (record w { idle = [] })

  unfoldable pub release_or_close : Opened → World → Res (Unit {0})
  release_or_close o w = if o.pooled then release o w else close_done o.context w

  unfoldable pub discard_or_close : Opened → World → Res (Unit {0})
  discard_or_close o w = close_done o.context w

  abbrev pub processed_request : Text → Fields
  processed_request response_id =
      field (codes "type") (str (codes "response.processed"))
        (field (codes "response_id") (str response_id) end)

  -- Whether the acknowledgement counts as sent. Every exception is caught.
  unfoldable pub send_response_processed : Opened → Text → World → Bool × World
  send_response_processed o response_id w =
      if settings.websocket_send_response_processed
      then elim (send_websocket_json py out settings o.context (processed_request response_id) w) [
        | done _ w' ↦ (true, w')
        | raise e w' ↦ (false, w')
      ]
      else (true, w)

  unfoldable pub send_response_processed_and_release : Opened → Text → World → Res (Unit {0})
  send_response_processed_and_release o response_id w =
      let sent = send_response_processed o response_id w in
      if sent.0 then release_or_close o sent.1 else discard_or_close o sent.1

  -- The task that `_schedule_response_processed` creates, run.
  unfoldable pub background : Opened → Text → World → Res (Unit {0})
  background o response_id w =
      if settings.websocket_send_response_processed
      then send_response_processed_and_release o response_id w
      else release_or_close o w
