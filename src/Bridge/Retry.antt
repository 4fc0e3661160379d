-- ===== src/Bridge/Retry.antt =====
-- websocket_bridge.py: `open_websocket_bridge_with_retries`.
pub mod Balance
pub mod Fresh
use codex_reset_proxy.Prelude.{
  ℕ, zero, suc, ◌+◌, Bool, true, false, not, ◌&&◌, Option, none, some, List, [], ◌∷◌, ◌++◌, ltb,
  ◌==◌, if◌then◌else◌,
}
use codex_reset_proxy.Text.{Text, codes}
use codex_reset_proxy.Runtime.{Runtime}
use codex_reset_proxy.Config.{Settings}
use codex_reset_proxy.Headers.{Header}
use codex_reset_proxy.Bridge.Request.{
  BridgeError, Exn, timeout, os_error, websocket_error, bridge, other,
}
use codex_reset_proxy.Bridge.World.{
  receives, sleeps, message, raises, Outside, World, Res, done, raise, push, close_context_quietly,
}
use codex_reset_proxy.Bridge.Connect.{
  Opened, class_name, open_websocket_bridge, pool_open_websocket_bridge,
}

-- `last_error_code`, `last_status_code` and `last_message`
pub record Failure : Type 0 where
  pub status_code : ℕ
  pub error_code : Text
  pub message : Text

-- What an `except` clause decides. `retry` keeps the failure and says whether the opened
-- connection, if there is one, is closed; `stop` raises.
pub data Decision : Type 0 where
  retry : Failure → Bool → Decision
  stop : Exn → Decision

module _ (py : Runtime) (out : Outside) (settings : Settings) where
  unfoldable pub first_message_timeout : Failure
  first_message_timeout = record {
    status_code = 504;
    error_code = codes "websocket_first_message_timeout";
    message =
        codes "upstream websocket did not return first message within "
        ++ py.format_g settings.websocket_first_message_timeout_seconds
        ++ codes "s";
  }

  abbrev first_message_error : Exn → Failure
  first_message_error e = record {
    status_code = 502;
    error_code = codes "websocket_first_message_error";
    message = codes "upstream websocket failed before first message: " ++ class_name e;
  }

  -- The `except` clauses, at the attempt of the given number.
  unfoldable pub decide : ℕ → Exn → Decision
  unfolding first_message_timeout
  decide attempt timeout = retry first_message_timeout true
  decide attempt (os_error n) = retry (first_message_error (os_error n)) true
  decide attempt (websocket_error n) = retry (first_message_error (websocket_error n)) true
  decide attempt (bridge e) =
      if ltb e.status_code 500
      then stop (bridge (record e { attempts = attempt }))
      else retry
          (record { status_code = e.status_code; error_code = e.error_code; message = e.message })
          false
  decide attempt (other n) = stop (other n)

  abbrev pub open_one : Bool → Text → List Header → Text → World → Res Opened
  open_one pooled url headers body w =
      if pooled
      then pool_open_websocket_bridge py out settings url headers body w
      else open_websocket_bridge py out settings url headers body w

  -- How the `try` block ends: with the connection and its first message, or with an exception,
  -- `opened` telling the connection that there was by then.
  pub data Tried : Type 0 where
    received : Opened → World → Tried
    fails : Exn → Option ℕ → World → Tried

  -- opened.first_message = await asyncio.wait_for(opened.websocket.recv(), ...)
  unfoldable pub receive_first : ℕ → Opened → World → Tried
  receive_first attempt o w =
      let asked = push (receives o.context) w in
      elim (out.recv asked.log) [
        | message m ↦ received (record o { first_message = some m; attempts = attempt }) asked
        | raises e ↦ fails e (some o.context) asked
      ]

  unfoldable pub try_once : ℕ → Bool → Text → List Header → Text → World → Tried
  try_once attempt pooled url headers body w = elim (open_one pooled url headers body w) [
    | raise e w' ↦ fails e none w'
    | done o w' ↦ receive_first attempt o w'
  ]

  abbrev pub close_opened : Bool → Option ℕ → World → World
  close_opened closing opened w = elim opened [
    | none ↦ w
    | some c ↦ if closing then close_context_quietly c w else w
  ]

  -- if attempt < upstream_max_attempts and retry_backoff_seconds: sleep
  unfoldable pub back_off : ℕ → World → World
  back_off attempt w =
      if ltb attempt settings.upstream_max_attempts && not (settings.retry_backoff_seconds == 0)
      then push (sleeps settings.retry_backoff_seconds) w
      else w

  abbrev pub give_up : Failure → World → Res Opened
  give_up last w =
      raise
        (bridge (record {
          status_code = last.status_code;
          error_code = last.error_code;
          message = last.message;
          attempts = settings.upstream_max_attempts;
        }))
        w

  -- The loop, with the attempts that remain, the number of the next one and the last failure. The
  -- `break` of the last attempt is the end of the attempts that remain.
  unfoldable pub bridge_attempts :
      ℕ → ℕ → Failure → Bool → Text → List Header → Text → World → Res Opened
  unfolding decide try_once back_off
  bridge_attempts zero attempt last pooled url headers body w = give_up last w
  bridge_attempts (suc remaining) attempt last pooled url headers body w =
      elim (try_once attempt pooled url headers body w) [
        | received o w' ↦ done o w'
        | fails e opened w' ↦ elim (decide attempt e) [
          | stop x ↦ raise x w'
          | retry failure closing ↦
              bridge_attempts remaining (suc attempt) failure pooled url headers body
                (back_off attempt (close_opened closing opened w'))
        ]
      ]

  unfoldable pub open_websocket_bridge_with_retries :
      Bool → Text → List Header → Text → World → Res Opened
  unfolding bridge_attempts first_message_timeout
  open_websocket_bridge_with_retries pooled url headers body =
      bridge_attempts settings.upstream_max_attempts 1 first_message_timeout pooled url headers body
