-- ===== src/Tests/Config.antt =====
-- The settings of an environment that sets the upstream's URL alone.
use codex_reset_proxy.Prelude.{◌≡◌, refl, Bool, true, false, none, some, if◌then◌else◌}
use codex_reset_proxy.Text.{codes, eqb}
use codex_reset_proxy.Config.{Settings, Result, ok, err, proceed}
use codex_reset_proxy.Config.Env.{
  Environ, env_optional, env_required, env_str, env_number, env_bool, env_csv_tuple,
  env_csv_tuple_lower,
}
use codex_reset_proxy.Config.Validate.{
  guard, split_url, validate_upstream_base_url, validate_listen_protocol, validate_transport_mode,
}
use codex_reset_proxy.Config.FromEnv.{from_env, rstrip_slash}
use codex_reset_proxy.Config.Bounds.{Holds, IsChecked, from_env-IsChecked}
use codex_reset_proxy.Tests.Socks.{url_runtime}

abbrev environ : Environ
environ name =
    if eqb name (codes "UPSTREAM_BASE_URL") then some (codes "https://chatgpt.com/") else none

abbrev is_ok : Result Settings → Bool
is_ok (ok s) = true
is_ok (err e) = false

settings_run : is_ok (from_env url_runtime environ) ≡ true
unfolding from_env proceed env_optional env_required env_str env_number env_bool env_csv_tuple
    env_csv_tuple_lower guard split_url validate_upstream_base_url validate_listen_protocol
    validate_transport_mode rstrip_slash eqb codex_reset_proxy.Text.elem
settings_run = refl

from_env-IsChecked_example : Holds (IsChecked url_runtime) (from_env url_runtime environ)
from_env-IsChecked_example = from_env-IsChecked url_runtime environ
