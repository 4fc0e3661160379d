-- ===== src/Http.antt =====
-- socks_mitm.py: the HTTP/1.1 messages of an intercepted connection, read and written as bytes.
pub mod Request
pub mod Response
pub mod Route
pub mod RoundTrip
pub mod Fuel
pub mod Limits
use codex_reset_proxy.Prelude.{
  ℕ, ◌+◌, ◌-◌, Bool, ◌&&◌, Option, none, some, List, [], ◌∷◌, ◌++◌, ltb, ◌==◌, if◌then◌else◌,
  length, take, drop,
}
use codex_reset_proxy.Prelude.Int.{ℤ, pos, negsuc}
use codex_reset_proxy.Text.{Text}

-- The exceptions of reading: asyncio's IncompleteReadError and LimitOverrunError, ValueError, the
-- code's RequestBodyTooLarge, and the end of the fuel.
pub data Error : Type 0 where
  incomplete limit_overrun value_error too_large no_fuel : Error

-- A value and the bytes that are left.
pub data Read (A : Type 0) : Type 0 where
  got : A → Text → Read A
  fault : Error → Read A

-- reader.readexactly(n), at the bytes still to come
unfoldable pub readexactly : ℕ → Text → Read Text
readexactly n s = if ltb (length s) n then fault incomplete else got (take n s) (drop n s)

-- The same with the ValueError of a negative length.
abbrev pub readexactly_ℤ : ℤ → Text → Read Text
readexactly_ℤ (pos n) s = readexactly n s
readexactly_ℤ (negsuc n) s = fault value_error

-- asyncio's default limit of a StreamReader, which `start_server` leaves as it is
abbrev pub stream_limit : ℕ
stream_limit = 65536

-- The text up to and with the first line feed, and the rest; `none` where there is none.
unfoldable pub cut_line : Text → Option (Text × Text)
cut_line [] = none
cut_line (c ∷ cs) =
    if c == b'\n'
    then some (c ∷ [], cs)
    else elim (cut_line cs) [ none ↦ none | some (l, r) ↦ some (c ∷ l, r) ]

-- reader.readline(): at the end of the stream a line may be unfinished; one that is longer than the
-- limit is a ValueError.
unfoldable pub readline : Text → Read Text
readline s = elim (cut_line s) [
  | none ↦ if ltb stream_limit (length s) then fault value_error else got s []
  | some (l, r) ↦ if ltb stream_limit (length l - 1) then fault value_error else got l r
]

abbrev ends : ℕ → ℕ → ℕ → ℕ → Bool
ends a b c d = a == 13 && b == 10 && c == 13 && d == 10

-- reader.readuntil(b"\r\n\r\n"), cut behind the separator
unfoldable pub cut_block : Text → Option (Text × Text)
cut_block (a ∷ b ∷ c ∷ d ∷ cs) =
    let rest = cut_block (b ∷ c ∷ d ∷ cs) in
    if ends a b c d
    then some (a ∷ b ∷ c ∷ d ∷ [], cs)
    else elim rest [ none ↦ none | some (l, r) ↦ some (a ∷ l, r) ]
cut_block _ = none

unfoldable pub readuntil_block : Text → Read Text
readuntil_block s = elim (cut_block s) [
  | none ↦ if ltb (stream_limit + 3) (length s) then fault limit_overrun else fault incomplete
  | some (l, r) ↦ if ltb (stream_limit + 4) (length l) then fault limit_overrun else got l r
]
