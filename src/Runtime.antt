-- ===== src/Runtime.antt =====
-- The functions of Python's runtime whose whole behaviour the model leaves open: `str` methods on
-- arbitrary Unicode, `urllib.parse`, `json`, `hashlib`, the `idna` codec and the number formats.
-- Every definition that calls one takes a `Runtime`, so its theorems hold of whatever they return.
use codex_reset_proxy.Prelude.{ℕ, Option}
use codex_reset_proxy.Prelude.Int.{ℤ}
use codex_reset_proxy.Text.{Text}
use codex_reset_proxy.Json.{Json}

-- A time in microseconds, where the source has a float of seconds.
abbrev pub Seconds : Type 0
Seconds = ℤ

-- The result of `urlsplit`. Reading `.port` may raise ValueError: `bad_port`.
pub data Port : Type 0 where
  no_port bad_port : Port
  port : ℕ → Port

pub record SplitUrl : Type 0 where
  pub scheme : Text
  pub netloc : Text
  pub path : Text
  pub query : Text
  pub fragment : Text
  pub hostname : Option Text
  pub url_port : Port
  pub username : Option Text
  pub password : Option Text

pub data Loaded : Type 0 where
  value : Json → Loaded
  -- JSONDecodeError, with its `msg`
  decode_error : Text → Loaded
  -- any other exception, by its class name
  load_error : Text → Loaded

pub record Runtime : Type 0 where
  pub str_lower : Text → Text
  pub str_upper : Text → Text
  pub str_strip : Text → Text
  pub str_int : Text → Option ℤ
  pub str_float : Text → Option Seconds
  -- f"{x:g}"
  pub format_g : Seconds → Text
  -- `none` for ValueError
  pub urlsplit : Text → Option SplitUrl
  pub urlunsplit : Text → Text → Text → Text → Text → Text
  pub unquote : Text → Text
  -- `none` for UnicodeError
  pub encode_idna : Text → Option Text
  pub decode_idna : Text → Option Text
  -- `none` for UnicodeEncodeError
  pub encode_utf8 : Text → Option Text
  pub decode_utf8 : Text → Option Text
  pub loads : Text → Loaded
  -- json.dumps(value, separators=(",", ":"))
  pub dumps : Json → Text
  -- hashlib.sha256(data).hexdigest()
  pub sha256 : Text → Text
