-- ===== src/Socks/Server.antt =====
-- socks_mitm.py: `_socks5_handshake` and what it calls, and the choice between MITM and tunnel.
use codex_reset_proxy.Prelude.{
  ℕ, ◌+◌, ◌*◌, Bool, false, not, ◌&&◌, ◌||◌, Option, none, some, List, [], ◌∷◌, map, ◌==◌,
  if◌then◌else◌, ◌/◌, ◌%◌,
}
use codex_reset_proxy.Text.{Text, codes, eqb, join, show_dec, digit_char}
use codex_reset_proxy.Runtime.{Runtime}
use codex_reset_proxy.Config.{Settings}
use codex_reset_proxy.Socks.{
  incomplete_read, value_error, unicode_error, Proc, ret, fail, send, receive, ◌>>=◌, socks_version,
  socks_no_auth, socks_no_acceptable_methods, socks_cmd_connect, socks_atyp_ipv4, socks_atyp_domain,
  socks_atyp_ipv6, socks_reply_succeeded, socks_reply_general_failure,
  socks_reply_command_not_supported,
}

pub record SocksTarget : Type 0 where
  pub host : Text
  pub port : ℕ

-- reader.readexactly(n)
abbrev pub readexactly : ℕ → Proc Text
readexactly n = receive n ret (fail incomplete_read)

abbrev pub send_socks_reply : {A : Type 0} → ℕ → Proc A → Proc A
send_socks_reply code next =
    send (socks_version ∷ code ∷ 0x00 ∷ socks_atyp_ipv4 ∷ 0 ∷ 0 ∷ 0 ∷ 0 ∷ 0 ∷ 0 ∷ []) next

unfoldable pub has_byte : ℕ → Text → Bool
has_byte b [] = false
has_byte b (c ∷ cs) = b == c || has_byte b cs

-- raw[index : index + 2].hex() for index in range(0, len(raw), 2)
unfoldable pub hex_pairs : Text → List Text
hex_pairs (a ∷ b ∷ cs) =
    (digit_char (a / 16) ∷ digit_char (a % 16) ∷ digit_char (b / 16) ∷ digit_char (b % 16) ∷ [])
    ∷ hex_pairs cs
hex_pairs _ = []

-- int.from_bytes(bytes, "big")
unfoldable pub from_bytes : ℕ → Text → ℕ
from_bytes value [] = value
from_bytes value (b ∷ bs) = from_bytes (value * 256 + b) bs

abbrev pub or_unicode_error : Option Text → Proc Text
or_unicode_error none = fail unicode_error
or_unicode_error (some s) = ret s

module _ (py : Runtime) where
  -- The address whose first byte is its length.
  abbrev pub read_domain : Text → Proc Text
  read_domain (length ∷ []) =
      receive length (λ raw. or_unicode_error (py.decode_idna raw)) (fail incomplete_read)
  read_domain _ = fail incomplete_read

  unfoldable pub read_socks_address : ℕ → Proc Text
  unfolding ◌>>=◌ hex_pairs
  read_socks_address atyp =
      if atyp == socks_atyp_ipv4
      then receive 4 (λ raw. ret (join (codes ".") (map show_dec raw))) (fail incomplete_read)
      else if atyp == socks_atyp_domain
      then receive 1 read_domain (fail incomplete_read)
      else if atyp == socks_atyp_ipv6
      then receive 16 (λ raw. ret (join (codes ":") (hex_pairs raw))) (fail incomplete_read)
      else fail value_error

  abbrev pub read_target : ℕ → Proc (Option SocksTarget)
  read_target atyp = read_socks_address atyp >>= λ host. readexactly 2 >>= λ raw.
      send_socks_reply socks_reply_succeeded
        (ret (some (record { host = host; port = from_bytes 0 raw })))

  unfoldable pub read_connect : Text → Proc (Option SocksTarget)
  unfolding ◌>>=◌ read_socks_address
  read_connect (version ∷ command ∷ _ ∷ atyp ∷ []) =
      if not (version == socks_version)
      then send_socks_reply socks_reply_general_failure (ret none)
      else if not (command == socks_cmd_connect)
      then send_socks_reply socks_reply_command_not_supported (ret none)
      else read_target atyp
  read_connect _ = fail incomplete_read

  unfoldable pub choose_method : Text → Proc (Option SocksTarget)
  unfolding read_connect has_byte
  choose_method methods =
      if not (has_byte socks_no_auth methods)
      then send (socks_version ∷ socks_no_acceptable_methods ∷ []) (ret none)
      else send (socks_version ∷ socks_no_auth ∷ []) (receive 4 read_connect (fail incomplete_read))

  unfoldable pub read_greeting : Text → Proc (Option SocksTarget)
  unfolding choose_method
  read_greeting (version ∷ count ∷ []) =
      if not (version == socks_version)
      then ret none
      else receive count choose_method (fail incomplete_read)
  read_greeting _ = fail incomplete_read

  -- A stream that ends within the greeting gives `None`; one that ends later raises.
  unfoldable pub socks5_handshake : Proc (Option SocksTarget)
  unfolding read_greeting
  socks5_handshake = receive 2 read_greeting (ret none)

  unfoldable pub should_mitm : Settings → SocksTarget → Bool
  should_mitm settings target =
      if not (eqb settings.listen_protocol (codes "socks5_mitm"))
      then false
      else target.port == 443
        && eqb (py.str_lower target.host) (py.str_lower settings.intercept_host)
