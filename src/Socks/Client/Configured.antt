-- ===== src/Socks/Client/Configured.antt =====
-- outbound.py and config.py: a configured proxy and the check of `open_socks5_socket`.
use codex_reset_proxy.Prelude.{
  ℕ, ◌≡◌, refl, ◌↔◌, inl, inr, Bool, true, false, not, ◌&&◌, ◌||◌, Option, none, some, [], ◌∷◌,
  ◌==◌, arith, Bool-cases, if◌then◌else◌,
}
use codex_reset_proxy.Text.{Text, codes, elem, is_empty}
use codex_reset_proxy.Runtime.{Runtime, SplitUrl, Port, no_port, bad_port, port}
use codex_reset_proxy.Config.{ok, proceed, ◌>>=◌, ◌>>◌}
use codex_reset_proxy.Config.Validate.{
  guard, split_url, truthy_text, truthy_port, proxy_error, validate_outbound_proxy,
}
use codex_reset_proxy.Socks.Client.{
  Opening, refused, connected, open_socks5_socket, no_none, not_a_proxy, open_at,
}

-- A connection to the proxy was made.
abbrev pub IsDialled : Opening → Type 0
IsDialled (refused e) = ⊥
IsDialled (connected hostname proxy_port written ending closes) = Unit {0}

module _ (py : Runtime) (dest_host : Text) (dest_port : ℕ) (peer : Text) where
  -- Both checks of one parsed URL, by whether its scheme is one of SOCKS5, its host and its port.
  agree :
      (u : SplitUrl) (is_scheme : Bool) (h : Option Text) (p : Port)
      → IsDialled (
          if not is_scheme || is_empty (no_none h)
          then not_a_proxy py
          else open_at py u (no_none h) p dest_host dest_port peer)
        ↔ ((guard (is_scheme && truthy_text py h) (proxy_error py)
              >> (truthy_port py p >>= λ has_port. guard has_port (proxy_error py)))
            ≡ ok tt)
  unfolding guard proceed
  agree u false h p = (λ d. absurd d, λ e. absurd (ground (arith, e)))
  agree u true none p = (λ d. absurd d, λ e. absurd (ground (arith, e)))
  agree u true (some []) p = (λ d. absurd d, λ e. absurd (ground (arith, e)))
  agree u true (some (c ∷ cs)) no_port = (λ d. absurd d, λ e. absurd (ground (arith, e)))
  agree u true (some (c ∷ cs)) bad_port = (λ d. absurd d, λ e. absurd (ground (arith, e)))
  agree u true (some (c ∷ cs)) (port n) = elim (Bool-cases (n == 0)) [
    | inl zero ↦ rw zero (λ d. absurd d, λ e. absurd (ground (arith, e)))
    | inr other ↦ rw other (λ d. refl, λ e. tt)
  ]

  -- A URL passes the validator of OUTBOUND_PROXY exactly when `open_socks5_socket` gets as far as
  -- connecting to the proxy: the settings never name a proxy that the client then refuses.
  pub open_socks5_socket-IsDialled :
      (url : Text)
      → IsDialled (open_socks5_socket py url dest_host dest_port peer)
        ↔ (validate_outbound_proxy py url ≡ ok tt)
  unfolding validate_outbound_proxy open_socks5_socket split_url proceed
  open_socks5_socket-IsDialled url = cases (py.urlsplit url) refl
    where
      cases :
          (parsed : Option SplitUrl)
          → py.urlsplit url ≡ parsed
          → IsDialled (open_socks5_socket py url dest_host dest_port peer)
            ↔ (validate_outbound_proxy py url ≡ ok tt)
      cases none e =
          rw (e, open_socks5_socket)
            (rw (e, validate_outbound_proxy, split_url)
              (λ d. absurd d, λ h. absurd (ground (arith, h))))
      cases (some u) e =
          rw (e, open_socks5_socket)
            (rw (e, validate_outbound_proxy, split_url)
              (agree u (elem u.scheme (codes "socks5" ∷ codes "socks5h" ∷ [])) u.hostname
                u.url_port))
