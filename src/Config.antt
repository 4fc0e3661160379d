-- ===== src/Config.antt =====
-- config.py: the settings. The readers of the environment, the validators and `Settings.from_env`
-- are child modules.
pub mod Env
pub mod Validate
pub mod FromEnv
pub mod Bounds
use codex_reset_proxy.Prelude.{ℕ, Bool, Option, List}
use codex_reset_proxy.Text.{Text}
use codex_reset_proxy.Runtime.{Seconds}

pub record Settings : Type 0 where
  pub upstream_base_url : Text
  pub upstream_api_key : Option Text
  pub upstream_api_key_header : Text
  pub upstream_api_key_prefix : Text
  pub listen_protocol : Text
  pub listen_host : Text
  pub listen_port : ℕ
  pub outbound_proxy : Option Text
  pub transport_mode : Text
  pub intercept_host : Text
  pub intercept_paths : List Text
  pub mitm_cert_dir : Text
  pub response_header_timeout_seconds : Seconds
  pub upstream_max_attempts : ℕ
  pub connect_timeout_seconds : Seconds
  pub write_timeout_seconds : Seconds
  pub pool_timeout_seconds : Seconds
  pub websocket_first_message_timeout_seconds : Seconds
  pub websocket_idle_timeout_seconds : Seconds
  pub websocket_processed_timeout_seconds : Seconds
  pub websocket_send_response_processed : Bool
  pub websocket_pool_enabled : Bool
  pub websocket_pool_max_idle : ℕ
  pub websocket_pool_idle_timeout_seconds : ℕ
  pub websocket_pool_key_headers : List Text
  pub max_request_body_bytes : ℕ
  pub retry_backoff_seconds : ℕ
  pub log_level : Text

-- A ValueError that the code raises, with its message, or one from `int`, `float` or `urlsplit`.
pub data Error : Type 0 where
  value_error : Text → Error
  conversion_error : Error

-- What a reader or validator gives: a value, or the exception that leaves it.
pub data Result (A : Type 0) : Type 0 where
  err : Error → Result A
  ok : A → Result A

unfoldable pub proceed : {A B : Type 0} → (A → Result B) → Result A → Result B
proceed next (err e) = err e
proceed next (ok a) = next a

infixl 5 ◌>>=◌ ◌>>◌
abbrev pub ◌>>=◌ : {A B : Type 0} → Result A → (A → Result B) → Result B
checked >>= next = proceed next checked

-- A statement whose value is not used.
abbrev pub ◌>>◌ : {B : Type 0} → Result (Unit {0}) → Result B → Result B
checked >> rest = proceed (λ u. rest) checked
