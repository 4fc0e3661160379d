-- ===== src/Socks.antt =====
-- socks_mitm.py and outbound.py: the SOCKS5 protocol. This file has the constants, and a peer of a
-- connection as a process: what it reads exactly, what it writes, and how it ends.
pub mod Server
pub mod Client
pub mod Net
pub mod Handshake
pub mod Replies
use codex_reset_proxy.Prelude.{
  ℕ, ◌-◌, Bool, Option, none, some, List, [], ◌∷◌, ◌++◌, ltb, length, take, drop, if◌then◌else◌,
}
use codex_reset_proxy.Text.{Text}

-- The exceptions of either side: asyncio's IncompleteReadError, ValueError, UnicodeError,
-- OverflowError, and the SocksConnectError of outbound.py.
pub data Error : Type 0 where
  incomplete_read value_error unicode_error overflow_error : Error
  socks_connect_error : Text → Error

-- `receive n next closed` reads exactly n bytes and goes on with them, or with `closed` if the
-- stream ends before.
pub data Proc (A : Type 0) : Type 0 where
  ret : A → Proc A
  fail : Error → Proc A
  send : Text → Proc A → Proc A
  receive : ℕ → (Text → Proc A) → Proc A → Proc A

infixl 5 ◌>>=◌
unfoldable pub ◌>>=◌ : {A B : Type 0} → Proc A → (A → Proc B) → Proc B
ret a >>= next = next a
fail e >>= next = fail e
send bytes p >>= next = send bytes (p >>= next)
receive n p closed >>= next = receive n (λ bytes. p bytes >>= next) (closed >>= next)

-- How a process ends.
pub data End (A : Type 0) : Type 0 where
  returns : A → End A
  raises : Error → End A

-- A process run against all the bytes that its peer ever sends: the bytes it writes, how it ends,
-- and the bytes left.
unfoldable pub run_on : {A : Type 0} → Proc A → Text → Text × End A × Text
run_on (ret a) s = ([], returns a, s)
run_on (fail e) s = ([], raises e, s)
run_on (send bytes p) s =
    let (written, ending, left) = run_on p s in (bytes ++ written, ending, left)
run_on (receive n p closed) s =
    let at_end = run_on closed [] in
    let goes_on = run_on (p (take n s)) (drop n s) in if ltb (length s) n then at_end else goes_on

abbrev pub socks_version : ℕ
socks_version = 0x05

abbrev pub socks_no_auth : ℕ
socks_no_auth = 0x00

abbrev pub socks_no_acceptable_methods : ℕ
socks_no_acceptable_methods = 0xff

abbrev pub socks_cmd_connect : ℕ
socks_cmd_connect = 0x01

abbrev pub socks_atyp_ipv4 : ℕ
socks_atyp_ipv4 = 0x01

abbrev pub socks_atyp_domain : ℕ
socks_atyp_domain = 0x03

abbrev pub socks_atyp_ipv6 : ℕ
socks_atyp_ipv6 = 0x04

abbrev pub socks_reply_succeeded : ℕ
socks_reply_succeeded = 0x00

abbrev pub socks_reply_general_failure : ℕ
socks_reply_general_failure = 0x01

abbrev pub socks_reply_command_not_supported : ℕ
socks_reply_command_not_supported = 0x07
