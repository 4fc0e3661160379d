-- ===== src/Tests/Samples.antt =====
-- A runtime, settings and messages for the examples. The runtime's functions agree with Python's on
-- the texts that the examples use.
use codex_reset_proxy.Prelude.{true, none, some, List, [], ◌∷◌, if◌then◌else◌}
use codex_reset_proxy.Prelude.Int.{pos}
use codex_reset_proxy.Text.{Text, codes, lower, eqb}
use codex_reset_proxy.Json.{obj, field, str, end}
use codex_reset_proxy.Runtime.{Runtime, value, decode_error}
use codex_reset_proxy.Config.{Settings}
use codex_reset_proxy.Headers.{Header}

abbrev pub completed_text : Text
completed_text = codes "{\"type\":\"response.completed\",\"response_id\":\"r1\"}"

abbrev pub runtime : Runtime
runtime = record {
  str_lower = lower;
  str_upper = λ s. s;
  str_strip = λ s. s;
  str_int = λ s. some (pos 3);
  str_float = λ s. some (pos 1000000);
  format_g = λ s. codes "30";
  urlsplit = λ s. none;
  urlunsplit = λ a b c d e. a;
  unquote = λ s. s;
  encode_idna = λ s. some s;
  decode_idna = λ s. some s;
  encode_utf8 = λ s. some s;
  decode_utf8 = λ s. some s;
  loads = λ s.
      if eqb s completed_text
      then value (
          obj (
            field (codes "type") (str (codes "response.completed"))
              (field (codes "response_id") (str (codes "r1")) end)))
      else if eqb s (codes "{}")
      then value (obj end)
      else decode_error (codes "Expecting value");
  dumps = λ j. codes "{}";
  sha256 = λ s. s;
}

abbrev pub settings : Settings
settings = record {
  upstream_base_url = codes "https://api.example";
  upstream_api_key = some (codes "k1");
  upstream_api_key_header = codes "Authorization";
  upstream_api_key_prefix = codes "Bearer ";
  listen_protocol = codes "socks5_mitm";
  listen_host = codes "0.0.0.0";
  listen_port = 8000;
  outbound_proxy = none;
  transport_mode = codes "http";
  intercept_host = codes "chatgpt.com";
  intercept_paths = codes "/backend-api/codex/responses" ∷ [];
  mitm_cert_dir = codes "/data/certs";
  response_header_timeout_seconds = pos 30000000;
  upstream_max_attempts = 2;
  connect_timeout_seconds = pos 10000000;
  write_timeout_seconds = pos 30000000;
  pool_timeout_seconds = pos 10000000;
  websocket_first_message_timeout_seconds = pos 30000000;
  websocket_idle_timeout_seconds = pos 600000000;
  websocket_processed_timeout_seconds = pos 10000000;
  websocket_send_response_processed = true;
  websocket_pool_enabled = true;
  websocket_pool_max_idle = 2;
  websocket_pool_idle_timeout_seconds = 300000000;
  websocket_pool_key_headers = codes "authorization" ∷ [];
  max_request_body_bytes = 1000;
  retry_backoff_seconds = 250000;
  log_level = codes "INFO";
}

-- A request that names one more header in its Connection header, and carries a key of the client's.
abbrev pub client_headers : List Header
client_headers =
    (codes "Host", codes "localhost")
    ∷ (codes "Connection", codes "close, X-Trace")
    ∷ (codes "X-Trace", codes "1")
    ∷ (codes "authorization", codes "Bearer client")
    ∷ (codes "Accept", codes "*/*")
    ∷ []
