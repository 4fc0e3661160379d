-- ===== src/Tests/App.antt =====
-- The endpoint at a concrete request, in both modes.
use codex_reset_proxy.Prelude.{true, [], ◌∷◌}
use codex_reset_proxy.Text.{codes}
use codex_reset_proxy.Config.{Settings}
use codex_reset_proxy.App.{Incoming, proxy_endpoint}
use codex_reset_proxy.App.Replies.{
  Accounts, Separates, proxy_endpoint-Accounts, proxy_endpoint-Separates,
}
use codex_reset_proxy.Tests.Samples.{runtime, settings, client_headers}
use codex_reset_proxy.Tests.Socks.{url_runtime}
use codex_reset_proxy.Tests.Proxy.{upstream}
use codex_reset_proxy.Tests.Bridge.{outside, start, start-IsBalanced, answer-handled}

abbrev bridge_settings : Settings
bridge_settings = record settings { transport_mode = codes "websocket_per_request" }

abbrev request : Incoming
request = record {
  method = codes "POST";
  raw_path = codes "/v1/responses";
  query_string = [];
  headers = client_headers;
  stream = codes "{" ∷ codes "}" ∷ [];
}

proxy_endpoint-Accounts_example :
    Accounts [] (proxy_endpoint url_runtime bridge_settings outside upstream true request start)
proxy_endpoint-Accounts_example =
    proxy_endpoint-Accounts url_runtime bridge_settings outside upstream true [] request start
      answer-handled start-IsBalanced

proxy_endpoint-Separates_example :
    Separates settings request start
      (proxy_endpoint runtime settings outside upstream true request start)
proxy_endpoint-Separates_example =
    proxy_endpoint-Separates runtime settings outside upstream true request start
