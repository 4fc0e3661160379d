-- ===== src/Tests/Mitm.antt =====
-- A connection of a SOCKS5 client, intercepted, at concrete inputs.
use codex_reset_proxy.Prelude.{ℕ, refl, true, Option, none, some, [], ◌∷◌, ◌++◌}
use codex_reset_proxy.Text.{Text, codes}
use codex_reset_proxy.Upstream.{exhausted}
use codex_reset_proxy.Http.Request.{HttpRequest, read_http_request}
use codex_reset_proxy.Http.Limits.{Gives, IsBodyWithin, read_http_request-IsBodyWithin}
use codex_reset_proxy.Mitm.{Body, handle_mitm_connection}
use codex_reset_proxy.Mitm.Outcomes.{Accounts, handle_mitm_connection-Accounts}
use codex_reset_proxy.Socks.{run_on}
use codex_reset_proxy.Socks.Server.{socks5_handshake}
use codex_reset_proxy.Socks.Replies.{IsTold, socks5_handshake-IsTold}
use codex_reset_proxy.Certs.Leaf.{SslContext}
use codex_reset_proxy.Mitm.Client.{handle_socks_client}
use codex_reset_proxy.Mitm.Sessions.{Settles, handle_socks_client-Settles}
use codex_reset_proxy.Tests.Certs.{
  library, calm, calm-WritesWhole, empty, empty-IsStore, keys_read, chains_read,
}
use codex_reset_proxy.Tests.Samples.{runtime, settings, client_headers}
use codex_reset_proxy.Tests.Bridge.{outside, start, start-IsBalanced, answer-handled}
use codex_reset_proxy.Tests.Proxy.{upstream}
use codex_reset_proxy.Tests.Socks.{url_runtime}

abbrev phrases : ℕ → Option Text
phrases n = some (codes "OK")

abbrev bodies : ℕ → Body
bodies n = record {
  chunks = codes "hello" ∷ [];
  ending = exhausted;
  closing = record {
    has_aclose = true;
    aclose_raises = none;
    exit_raises = none;
    client_raises = none;
  };
}

abbrev crlf : Text
crlf = 13 ∷ 10 ∷ []

abbrev sent : Text
sent =
    codes "POST /backend-api/codex/responses HTTP/1.1"
    ++ crlf
    ++ codes "Content-Length: 2"
    ++ crlf
    ++ crlf
    ++ codes "{}"

handle_mitm_connection-Accounts_example :
    Accounts [] (
      handle_mitm_connection url_runtime phrases settings outside true upstream bodies 1 sent start)
handle_mitm_connection-Accounts_example =
    handle_mitm_connection-Accounts url_runtime phrases [] settings outside true upstream bodies 1
      sent start answer-handled start-IsBalanced

abbrev posted : HttpRequest
posted = record {
  method = codes "POST";
  target = codes "/a?x=1";
  version = codes "HTTP/1.1";
  headers = client_headers;
  body = codes "{}";
}

-- A greeting and a request for `a.b:443`.
abbrev greeted : Text
greeted = 5 ∷ 1 ∷ 0 ∷ 5 ∷ 1 ∷ 0 ∷ 3 ∷ 3 ∷ 97 ∷ 46 ∷ 98 ∷ 1 ∷ 187 ∷ []

socks5_handshake-IsTold_example :
    IsTold
      (run_on (socks5_handshake runtime) greeted).0
      (run_on (socks5_handshake runtime) greeted).1
socks5_handshake-IsTold_example = socks5_handshake-IsTold runtime greeted

abbrev plain_of : SslContext → Text → Option Text
plain_of context rest = some sent

handle_socks_client-Settles_example : Settles library [] empty start (
    handle_socks_client library calm plain_of [] url_runtime phrases settings outside true upstream
      bodies 1 greeted empty start)
handle_socks_client-Settles_example =
    handle_socks_client-Settles library calm plain_of [] url_runtime phrases settings outside true
      upstream bodies 1 [] answer-handled chains_read calm-WritesWhole keys_read (λ cert. refl)
      empty start start-IsBalanced empty-IsStore greeted

read_http_request-IsBodyWithin_example : Gives (IsBodyWithin 100) (read_http_request 100 sent)
read_http_request-IsBodyWithin_example = read_http_request-IsBodyWithin 100 sent
