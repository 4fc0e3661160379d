-- ===== src/Mitm/Sessions.antt =====
-- socks_mitm.py: what a client of the SOCKS5 server leaves behind.
use codex_reset_proxy.Prelude.{
  ℕ, ◌≡◌, refl, Bool, true, Option, none, some, List, [], ◌++◌, inl, inr, ◌⊎◌, Bool-cases,
}
use codex_reset_proxy.Text.{Text}
use codex_reset_proxy.Runtime.{Runtime}
use codex_reset_proxy.Config.{Settings}
use codex_reset_proxy.Upstream.{HeaderOutcome}
use codex_reset_proxy.Bridge.World.{Outside, World, IsBalanced}
use codex_reset_proxy.Bridge.Retry.Balance.{RecvRaisesHandled}
use codex_reset_proxy.Socks.{End, returns, raises, run_on}
use codex_reset_proxy.Socks.Server
use codex_reset_proxy.Socks.Server.{SocksTarget, should_mitm}
use codex_reset_proxy.Certs
use codex_reset_proxy.Certs.{System, Machine, Exn, Res}
use codex_reset_proxy.Certs.Authority.{Library, Contents}
use codex_reset_proxy.Certs.Leaf.{SslContext, server_ssl_context_for_host}
use codex_reset_proxy.Certs.Runs.{Post, WritesWhole}
use codex_reset_proxy.Certs.Store.{IsStore}
use codex_reset_proxy.Certs.Store.Made.{Explained}
use codex_reset_proxy.Certs.Store.Served.{Serves, server_ssl_context_for_host-Serves}
use codex_reset_proxy.Mitm.{Body}
use codex_reset_proxy.Mitm.Outcomes.{handle_mitm_connection-Accounts}
use codex_reset_proxy.Mitm.Client.{
  Session, behind_tls, intercept, handle_tunnel, serve_target, handle_socks_client,
}

module _ {Key Name Certificate : Type 0} (lib : Library Key Name Certificate) where
  -- The bridge's connections are accounted for, the certificate directory is in good order, and a
  -- tunnel goes with no call on an upstream, and with the bridge and the directory as they were.
  abbrev pub Settles : List ℕ → Machine → World → Session → Type 0
  Settles held m w s =
      IsBalanced (s.left ++ held) s.world
      × IsStore lib s.machine.files
      × ((s.tunnel ≡ none) ⊎ ((s.calls ≡ []) × (s.world ≡ w) × (s.machine ≡ m)))

  module _ (os : System) (tls : SslContext → Text → Option Text) (peer : Text) (py : Runtime)
      (phrases : ℕ → Option Text) (settings : Settings) (out : Outside) (pooled : Bool)
      (upstream : ℕ → HeaderOutcome) (bodies : ℕ → Body) (pulls : ℕ) (held : List ℕ)
      (doc : RecvRaisesHandled out)
      (chain_read : (contents : Contents Key Name) (ca_key : Key)
        → lib.load_cert_chain
            (lib.public_bytes (lib.sign contents ca_key))
            (lib.private_bytes contents.public_key)
          ≡ true)
      (uncut : WritesWhole os)
      (key_read : (key : Key) → lib.load_private_key (lib.private_bytes key) ≡ some key)
      (cert_read : (cert : Certificate) → lib.load_certificate (lib.public_bytes cert) ≡ some cert)
      (m : Machine) (w : World) (balanced : IsBalanced held w) (store : IsStore lib m.files) where
    behind_tls-Settles :
        (written : Text) (plain : Option Text) (m' : Machine)
        → IsStore lib m'.files
        → Settles held m w (
            behind_tls lib os tls peer py phrases settings out pooled upstream bodies pulls written
              plain m' w)
    unfolding behind_tls
    behind_tls-Settles written none m' store' = (balanced, store', inl refl)
    behind_tls-Settles written (some plain) m' store' = (
      handle_mitm_connection-Accounts py phrases held settings out pooled upstream bodies pulls
          plain w doc balanced,
      store',
      inl refl,
    )

    intercept-Settles :
        (target : SocksTarget) (written rest : Text)
        → Settles held m w (
            intercept lib os tls peer py phrases settings out pooled upstream bodies pulls target
              written rest m w)
    unfolding intercept
    intercept-Settles target written rest = cases _ refl (
        server_ssl_context_for_host-Serves lib os target.host chain_read uncut key_read cert_read m
          store)
      where
        cases :
            (r : Res SslContext)
            → server_ssl_context_for_host lib os target.host m ≡ r
            → Post (Serves lib os target.host m.files) (Explained lib os target.host) r
            → Settles held m w (
                intercept lib os tls peer py phrases settings out pooled upstream bodies pulls
                  target written rest m w)
        cases (Certs.raised e m') eq h = rw (eq, intercept) (balanced, h.0, inl refl)
        cases (Certs.done context m') eq h =
            rw (eq, intercept) (behind_tls-Settles written (tls context rest) m' h.0)

    serve_target-Settles :
        (ending : End (Option SocksTarget)) (written rest : Text)
        → Settles held m w (
            serve_target lib os tls peer py phrases settings out pooled upstream bodies pulls ending
              written rest m w)
    unfolding serve_target handle_tunnel
    serve_target-Settles (raises e) written rest = (balanced, store, inl refl)
    serve_target-Settles (returns none) written rest = (balanced, store, inl refl)
    serve_target-Settles (returns (some target)) written rest =
        elim (Bool-cases (should_mitm py settings target)) [
          | inl mitm ↦ rw (mitm, serve_target) (intercept-Settles target written rest)
          | inr passed ↦ rw (passed, serve_target) (balanced, store, inr (refl, refl, refl))
        ]

    -- Whatever a client of the SOCKS5 server sends, in the clear and within TLS, however the
    -- network and the file system behave: the connections of the bridge stay accounted for and the
    -- certificate directory in good order, and a tunnel makes no call on an upstream and touches
    -- neither. The socket's `recv` raises a timeout, an OSError or a WebSocketException only; what
    -- is written can be read back, a chain of a certificate and its key loads, and no write stops in
    -- the middle.
    pub handle_socks_client-Settles :
        (s : Text)
        → Settles held m w (
            handle_socks_client lib os tls peer py phrases settings out pooled upstream bodies pulls
              s m w)
    unfolding handle_socks_client
    handle_socks_client-Settles s =
        let (written, ending, rest) = run_on (Server.socks5_handshake py) s in
        serve_target-Settles ending written rest
