-- ===== src/Tests/Socks.antt =====
-- The SOCKS5 handshake and the routing of intercepted requests at concrete inputs.
use codex_reset_proxy.Prelude.{
  ℕ, ◌+◌, ◌≡◌, refl, ltb, length, take, drop, if◌then◌else◌, none, some, [], ◌∷◌, arith,
}
use codex_reset_proxy.Text.{codes}
use codex_reset_proxy.Runtime.{Runtime, SplitUrl, no_port}
use codex_reset_proxy.Socks.{run_on, returns}
use codex_reset_proxy.Socks.Server.{socks5_handshake}
use codex_reset_proxy.Socks.Client.{Pieces, bytes_left, recv_exact}
use codex_reset_proxy.Socks.Client.Received.{as_bytes, recv_exact_lem}
use codex_reset_proxy.Socks.Net.{Run, stop}
use codex_reset_proxy.Socks.Handshake.{start, agreed, negotiate-agreed}
use codex_reset_proxy.Tests.Samples.{runtime}

negotiate-agreed_example :
    (m : ℕ) × (14 ≡ 0 + m)
    × Run m
        (start runtime (codes "u") (codes "p") (codes "a.b") 443 (codes "a.b") (codes "a.b"))
        (agreed runtime (codes "u") (codes "p") (codes "a.b") 443 (codes "a.b") (codes "a.b"))
negotiate-agreed_example =
    negotiate-agreed runtime (codes "u") (codes "p") (codes "a.b") 443 (codes "a.b") (codes "a.b")
      refl refl (omega arith) (omega arith) stop

abbrev three_bytes : Pieces
three_bytes = (1, []) ∷ (2, 3 ∷ []) ∷ []

recv_exact_example : as_bytes (recv_exact 2 three_bytes) ≡ (
    if ltb (length (bytes_left three_bytes)) 2
    then none
    else some (take 2 (bytes_left three_bytes), drop 2 (bytes_left three_bytes)))
recv_exact_example = recv_exact_lem 2 three_bytes

-- A client that offers no method without authentication.
rejected_run :
    run_on (socks5_handshake runtime) (5 ∷ 1 ∷ 2 ∷ []) ≡ (5 ∷ 0xff ∷ [], returns none, [])
unfolding run_on socks5_handshake
rejected_run = refl

abbrev pub whole_url : SplitUrl
whole_url = record {
  scheme = codes "https";
  netloc = codes "chatgpt.com";
  path = codes "/a";
  query = codes "x=1";
  fragment = [];
  hostname = some (codes "chatgpt.com");
  url_port = no_port;
  username = none;
  password = none;
}

abbrev pub url_runtime : Runtime
url_runtime = record runtime { urlsplit = λ s. some whole_url }
