-- ===== src/Config/FromEnv.antt =====
-- config.py: `Settings.from_env`.
use codex_reset_proxy.Prelude.{
  ℕ, ◌*◌, true, false, not, Option, none, some, List, [], ◌∷◌, max, if◌then◌else◌, ◌==◌,
}
use codex_reset_proxy.Prelude.Int.{pos, pos_part}
use codex_reset_proxy.Text.{Text, codes, is_empty}
use codex_reset_proxy.Runtime.{Runtime, Seconds}
use codex_reset_proxy.Config.{Settings, Result, ok, ◌>>=◌, ◌>>◌}
use codex_reset_proxy.Config.Env.{
  Environ, env_optional, env_required, env_str, env_number, env_bool, env_csv_tuple,
  env_csv_tuple_lower,
}
use codex_reset_proxy.Config.Validate.{
  guard, validate_upstream_base_url, validate_listen_protocol, validate_transport_mode,
  validate_optional_proxy,
}

-- The dataclass, for the fields that have one default in both places.
abbrev pub default_intercept_paths : List Text
default_intercept_paths = codes "/backend-api/codex/responses" ∷ []

abbrev pub default_pool_key_headers : List Text
default_pool_key_headers =
    codes "authorization"
    ∷ codes "cookie"
    ∷ codes "x-api-key"
    ∷ codes "api-key"
    ∷ codes "openai-organization"
    ∷ codes "openai-project"
    ∷ codes "chatgpt-account-id"
    ∷ []

abbrev seconds : ℕ → Seconds
seconds n = pos (n * 1000000)

module _ (py : Runtime) where
  -- value.rstrip("/")
  unfoldable pub rstrip_slash : Text → Text
  rstrip_slash [] = []
  rstrip_slash (c ∷ cs) = elim (rstrip_slash cs) [
    | [] ↦ if c == b'/' then [] else c ∷ []
    | d ∷ ds ↦ c ∷ d ∷ ds
  ]

  abbrev or_empty : Option Text → Text
  or_empty none = []
  or_empty (some s) = s

  abbrev timeout : Environ → Text → ℕ → Result Seconds
  timeout env name n = env_number py.str_float env name (seconds n)

  unfoldable pub from_env : Environ → Result Settings
  unfolding guard
  from_env env = do
    raw_url ← env_required env (codes "UPSTREAM_BASE_URL")
    let base_url = rstrip_slash raw_url
    parsed ← validate_upstream_base_url py base_url
    let default_host = or_empty parsed.hostname
    let api_header =
        py.str_strip (env_str env (codes "UPSTREAM_API_KEY_HEADER") (codes "Authorization"))
    guard (not (is_empty api_header)) (codes "UPSTREAM_API_KEY_HEADER cannot be empty")
    let protocol = env_str env (codes "LISTEN_PROTOCOL") (codes "http_reverse")
    validate_listen_protocol py protocol
    let proxy = env_optional env (codes "OUTBOUND_PROXY")
    validate_optional_proxy py proxy
    let mode = env_str env (codes "TRANSPORT_MODE") (codes "http")
    validate_transport_mode py mode
    listen_port ← env_number py.str_int env (codes "LISTEN_PORT") (pos 8000)
    intercept_paths ← env_csv_tuple py env (codes "INTERCEPT_PATHS") default_intercept_paths
    header_timeout ← timeout env (codes "RESPONSE_HEADER_TIMEOUT_SECONDS") 30
    max_attempts ← env_number py.str_int env (codes "UPSTREAM_MAX_ATTEMPTS") (pos 2)
    connect_timeout ← timeout env (codes "CONNECT_TIMEOUT_SECONDS") 10
    write_timeout ← timeout env (codes "WRITE_TIMEOUT_SECONDS") 30
    pool_timeout ← timeout env (codes "POOL_TIMEOUT_SECONDS") 10
    first_timeout ← timeout env (codes "WEBSOCKET_FIRST_MESSAGE_TIMEOUT_SECONDS") 30
    idle_timeout ← timeout env (codes "WEBSOCKET_IDLE_TIMEOUT_SECONDS") 600
    processed_timeout ← timeout env (codes "WEBSOCKET_PROCESSED_TIMEOUT_SECONDS") 10
    send_processed ← env_bool py env (codes "WEBSOCKET_SEND_RESPONSE_PROCESSED") true
    pool_enabled ← env_bool py env (codes "WEBSOCKET_POOL_ENABLED") false
    max_idle ← env_number py.str_int env (codes "WEBSOCKET_POOL_MAX_IDLE") (pos 8)
    pool_idle ← timeout env (codes "WEBSOCKET_POOL_IDLE_TIMEOUT_SECONDS") 300
    key_headers ←
        env_csv_tuple_lower py env (codes "WEBSOCKET_POOL_KEY_HEADERS") default_pool_key_headers
    body_bytes ← env_number py.str_int env (codes "MAX_REQUEST_BODY_BYTES") (pos (32 * 1024 * 1024))
    backoff ← env_number py.str_float env (codes "RETRY_BACKOFF_SECONDS") (pos 250000)
    ok (record {
      upstream_base_url = base_url;
      upstream_api_key = env_optional env (codes "UPSTREAM_API_KEY");
      upstream_api_key_header = api_header;
      upstream_api_key_prefix = env_str env (codes "UPSTREAM_API_KEY_PREFIX") (codes "Bearer ");
      listen_protocol = protocol;
      listen_host = env_str env (codes "LISTEN_HOST") (codes "0.0.0.0");
      listen_port = max 1 (pos_part listen_port);
      outbound_proxy = proxy;
      transport_mode = mode;
      intercept_host = py.str_lower (env_str env (codes "INTERCEPT_HOST") default_host);
      intercept_paths = intercept_paths;
      mitm_cert_dir = env_str env (codes "MITM_CERT_DIR") (codes "/data/certs");
      response_header_timeout_seconds = header_timeout;
      upstream_max_attempts = max 1 (pos_part max_attempts);
      connect_timeout_seconds = connect_timeout;
      write_timeout_seconds = write_timeout;
      pool_timeout_seconds = pool_timeout;
      websocket_first_message_timeout_seconds = first_timeout;
      websocket_idle_timeout_seconds = idle_timeout;
      websocket_processed_timeout_seconds = processed_timeout;
      websocket_send_response_processed = send_processed;
      websocket_pool_enabled = pool_enabled;
      websocket_pool_max_idle = pos_part max_idle;
      websocket_pool_idle_timeout_seconds = pos_part pool_idle;
      websocket_pool_key_headers = key_headers;
      max_request_body_bytes = max 1 (pos_part body_bytes);
      retry_backoff_seconds = pos_part backoff;
      log_level = py.str_upper (env_str env (codes "LOG_LEVEL") (codes "INFO"));
    })
