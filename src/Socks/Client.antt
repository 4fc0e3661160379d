-- ===== src/Socks/Client.antt =====
-- outbound.py: the SOCKS5 client.
pub mod Received
pub mod Configured
use codex_reset_proxy.Prelude.{
  ℕ, ◌-◌, ◌/◌, ◌%◌, Bool, true, false, not, ◌&&◌, ◌||◌, Option, none, some, List, [], ◌∷◌, ◌++◌,
  ◌==◌, if◌then◌else◌, zero, suc, ltb, length, take, drop,
}
use codex_reset_proxy.Text.{Text, codes, eqb, elem, is_empty, show_dec}
use codex_reset_proxy.Runtime.{Runtime, SplitUrl, Port, port, no_port, bad_port}
use codex_reset_proxy.Config.{Settings}
use codex_reset_proxy.Socks.{
  Error, value_error, unicode_error, overflow_error, socks_connect_error, Proc, ret, fail, send,
  receive, ◌>>=◌, End, returns, raises, run_on,
}

abbrev refuse : {A : Type 0} → Text → Proc A
refuse message = fail (socks_connect_error message)

-- What `sock.recv` still gives, in the pieces that it gives at most; each has a byte, and the empty
-- list is the closed connection. `recv(size)` returns the first piece, or its first `size` bytes.
abbrev pub Pieces : Type 0
Pieces = List (ℕ × Text)

abbrev pub bytes_of : ℕ × Text → Text
bytes_of (b, bs) = b ∷ bs

unfoldable pub bytes_left : Pieces → Text
bytes_left [] = []
bytes_left (p ∷ ps) = bytes_of p ++ bytes_left ps

abbrev pub push_back : Text → Pieces → Pieces
push_back [] ps = ps
push_back (b ∷ bs) ps = (b, bs) ∷ ps

-- The loop of `_recv_exact`, with the size still to come: `none` for SocksConnectError.
unfoldable pub recv_loop : ℕ → Text → Pieces → Option (Text × Pieces)
recv_loop size chunks [] = if size == 0 then some (chunks, []) else none
recv_loop size chunks (p ∷ ps) =
    let more = recv_loop (size - length (bytes_of p)) (chunks ++ bytes_of p) ps in
    if size == 0
    then some (chunks, p ∷ ps)
    else if ltb size (length (bytes_of p))
    then some (chunks ++ take size (bytes_of p), push_back (drop size (bytes_of p)) ps)
    else more

unfoldable pub recv_exact : ℕ → Pieces → Option (Text × Pieces)
unfolding recv_loop
recv_exact size pieces = recv_loop size [] pieces

abbrev pub closed : {A : Type 0} → Proc A
closed = refuse (codes "SOCKS5 proxy closed the connection")

abbrev pub no_none : Option Text → Text
no_none none = []
no_none (some s) = s

-- if response != b"\x01\x00"
unfoldable pub check_authenticated : Text → Proc (Unit {0})
check_authenticated response =
    if eqb response (0x01 ∷ 0x00 ∷ [])
    then ret tt
    else refuse (codes "SOCKS5 username/password authentication failed")

abbrev send_credentials : Option Text → Option Text → Proc (Unit {0})
send_credentials (some username) (some password) =
    if ltb 255 (length username) || ltb 255 (length password)
    then refuse (codes "SOCKS5 username/password is too long")
    else send (0x01 ∷ length username ∷ []) (
        send username
          (send (length password ∷ []) (send password (receive 2 check_authenticated closed))))
send_credentials _ _ = fail unicode_error

unfoldable pub check_bound_address : ℕ → Proc (Unit {0})
unfolding ◌>>=◌
check_bound_address atyp =
    (if atyp == 0x01
      then receive 4 (λ _. ret tt) closed
      else if atyp == 0x03
      then receive 1 skip closed
      else if atyp == 0x04
      then receive 16 (λ _. ret tt) closed
      else refuse (codes "invalid SOCKS5 bound address type"))
    >>= λ _. receive 2 (λ _. ret tt) closed
  where
    skip : Text → Proc (Unit {0})
    skip (count ∷ []) = receive count (λ _. ret tt) closed
    skip _ = closed

unfoldable pub check_reply : Text → Proc (Unit {0})
unfolding check_bound_address
check_reply (version ∷ code ∷ _ ∷ atyp ∷ []) =
    if not (version == 0x05)
    then refuse (codes "invalid SOCKS5 connect response")
    else if not (code == 0x00)
    then refuse (codes "SOCKS5 connect failed with code " ++ show_dec code)
    else check_bound_address atyp
check_reply _ = closed

-- The request for a destination; `to_bytes(2, "big")` raises OverflowError.
abbrev pub send_connect : Option Text → ℕ → Proc (Unit {0})
send_connect none dest_port = fail unicode_error
send_connect (some host) dest_port =
    if ltb 255 (length host)
    then refuse (codes "destination host is too long for SOCKS5")
    else if ltb 65535 dest_port
    then fail overflow_error
    else send
        (0x05 ∷ 0x01 ∷ 0x00 ∷ 0x03 ∷ length host ∷ (host ++ dest_port / 256 ∷ dest_port % 256 ∷ []))
        (receive 4 check_reply closed)

abbrev pub with_credentials : Text → Text → List ℕ
with_credentials username password =
    if is_empty username && is_empty password then 0x00 ∷ [] else 0x00 ∷ 0x02 ∷ []

-- What `open_socks5_socket` does: it raises before there is a socket, or it opens one to the host
-- and port, writes to it, and ends with the socket, which it closes on an exception.
pub data Opening : Type 0 where
  refused : Error → Opening
  connected : Text → ℕ → Text → End (Unit {0}) → Bool → Opening

module _ (py : Runtime) where
  abbrev send_auth : Text → Text → Proc (Unit {0})
  send_auth username password = send_credentials (py.encode_utf8 username) (py.encode_utf8 password)

  -- What follows the server's choice of a method.
  unfoldable pub use_method : Text → Text → Text → ℕ → Text → Proc (Unit {0})
  unfolding check_reply check_authenticated ◌>>=◌
  use_method username password dest_host dest_port (version ∷ selected ∷ []) =
      if not (version == 0x05)
      then refuse (codes "invalid SOCKS5 greeting response")
      else if selected == 0xff
      then refuse (codes "SOCKS5 proxy rejected authentication methods")
      else if selected == 0x02
      then (send_auth username password >>= λ _. send_connect (py.encode_idna dest_host) dest_port)
      else if not (selected == 0x00)
      then refuse (codes "unsupported SOCKS5 authentication method: " ++ show_dec selected)
      else send_connect (py.encode_idna dest_host) dest_port
  use_method _ _ _ _ _ = closed

  -- `_socks5_handshake` with the decoded user name and password
  unfoldable pub negotiate : Text → Text → Text → ℕ → Proc (Unit {0})
  unfolding use_method
  negotiate username password dest_host dest_port =
      let methods = with_credentials username password in
      send (0x05 ∷ length methods ∷ methods)
        (receive 2 (use_method username password dest_host dest_port) closed)

  unfoldable pub socks5_handshake : SplitUrl → Text → ℕ → Proc (Unit {0})
  unfolding negotiate
  socks5_handshake proxy dest_host dest_port =
      negotiate (py.unquote (no_none proxy.username)) (py.unquote (no_none proxy.password))
        dest_host dest_port

  abbrev pub is_socks : SplitUrl → Bool
  is_socks proxy = elem proxy.scheme (codes "socks5" ∷ codes "socks5h" ∷ [])

  abbrev pub not_a_proxy : Opening
  not_a_proxy = refused (socks_connect_error (codes "OUTBOUND_PROXY must be socks5://host:port"))

  abbrev pub closes_on : End (Unit {0}) → Bool
  closes_on (returns u) = false
  closes_on (raises e) = true

  abbrev pub converse : SplitUrl → Text → ℕ → Text → ℕ → Text → Opening
  converse proxy hostname proxy_port dest_host dest_port peer =
      let (written, ending, _) = run_on (socks5_handshake proxy dest_host dest_port) peer in
      connected hostname proxy_port written ending (closes_on ending)

  abbrev pub open_at : SplitUrl → Text → Port → Text → ℕ → Text → Opening
  open_at proxy hostname bad_port dest_host dest_port peer = refused value_error
  open_at proxy hostname no_port dest_host dest_port peer = not_a_proxy
  open_at proxy hostname (port p) dest_host dest_port peer =
      let opening = converse proxy hostname p dest_host dest_port peer in
      if p == 0 then not_a_proxy else opening

  -- `peer` is what the proxy at the other end sends, where `create_connection` gives a socket.
  unfoldable pub open_socks5_socket : Text → Text → ℕ → Text → Opening
  open_socks5_socket proxy_url dest_host dest_port peer = elim (py.urlsplit proxy_url) [
    | none ↦ refused value_error
    | some proxy ↦
        if not (is_socks proxy) || is_empty (no_none proxy.hostname)
        then not_a_proxy
        else open_at proxy (no_none proxy.hostname) proxy.url_port dest_host dest_port peer
  ]

-- The streams that `open_outbound_stream` gives, where the connections succeed: to the host itself,
-- or through the configured proxy.
pub data Outbound : Type 0 where
  direct : Text → ℕ → Outbound
  proxied : Opening → Outbound

unfoldable pub open_outbound_stream : Runtime → Settings → Text → ℕ → Text → Outbound
open_outbound_stream py settings dest_host dest_port peer = elim settings.outbound_proxy [
  | none ↦ direct dest_host dest_port
  | some url ↦
      if is_empty url
      then direct dest_host dest_port
      else proxied (open_socks5_socket py url dest_host dest_port peer)
]
