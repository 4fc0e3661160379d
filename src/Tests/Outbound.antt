-- ===== src/Tests/Outbound.antt =====
-- The outbound proxy at concrete inputs.
use codex_reset_proxy.Prelude.{◌≡◌, refl, some, [], ◌∷◌, ◌↔◌}
use codex_reset_proxy.Text.{Text, codes}
use codex_reset_proxy.Runtime.{Runtime, SplitUrl, port}
use codex_reset_proxy.Config.{Settings, ok}
use codex_reset_proxy.Config.Validate.{validate_outbound_proxy}
use codex_reset_proxy.Socks.Client.{open_socks5_socket}
use codex_reset_proxy.Socks.Client.Configured.{IsDialled, open_socks5_socket-IsDialled}
use codex_reset_proxy.Bridge.Factory.{default_websocket_connect_factory}
use codex_reset_proxy.Bridge.Factory.Proxied.{
  IsProxied, default_websocket_connect_factory-IsProxied,
}
use codex_reset_proxy.Tests.Samples.{runtime, settings}
use codex_reset_proxy.Tests.Socks.{whole_url}

abbrev proxy : Text
proxy = codes "socks5://proxy:1080"

abbrev proxy_url : SplitUrl
proxy_url = record whole_url {
  scheme = codes "socks5";
  hostname = some (codes "proxy");
  url_port = port 1080;
}

abbrev proxy_runtime : Runtime
proxy_runtime = record runtime { urlsplit = λ s. some proxy_url }

abbrev proxied_settings : Settings
proxied_settings = record settings { outbound_proxy = some proxy }

-- What the proxy answers: no authentication, then success for an IPv4 address.
abbrev answers : Text
answers = 5 ∷ 0 ∷ 5 ∷ 0 ∷ 0 ∷ 1 ∷ 0 ∷ 0 ∷ 0 ∷ 0 ∷ 0 ∷ 0 ∷ []

open_socks5_socket-IsDialled_example :
    IsDialled (open_socks5_socket proxy_runtime proxy (codes "a.b") 443 answers)
    ↔ (validate_outbound_proxy proxy_runtime proxy ≡ ok tt)
open_socks5_socket-IsDialled_example =
    open_socks5_socket-IsDialled proxy_runtime (codes "a.b") 443 answers proxy

default_websocket_connect_factory-IsProxied_example : IsProxied proxy_runtime proxy (
    default_websocket_connect_factory proxy_runtime proxied_settings answers (codes "wss://a.b") [])
default_websocket_connect_factory-IsProxied_example =
    default_websocket_connect_factory-IsProxied proxy_runtime proxy proxied_settings answers
      (codes "wss://a.b") [] refl refl
