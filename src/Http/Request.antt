-- ===== src/Http/Request.antt =====
-- socks_mitm.py: `_read_http_request` and `_read_chunked_body`.
use codex_reset_proxy.Prelude.{
  ℕ, zero, suc, ◌-◌, ◌*◌, Bool, true, false, ◌&&◌, Option, none, some, List, [], ◌∷◌, ◌++◌, ltb,
  ◌==◌, if◌then◌else◌, length, take,
}
use codex_reset_proxy.Prelude.Int.{ℤ, pos, negsuc}
use codex_reset_proxy.Text.{
  Text, codes, eqb, elem, lower, lstrip, strip, contains, split, before, int_of,
}
use codex_reset_proxy.Headers.{Header}
use codex_reset_proxy.Http.{
  Error, incomplete, value_error, too_large, no_fuel, Read, got, fault, readexactly, readexactly_ℤ,
  readline, readuntil_block,
}

-- HttpRequest
pub record HttpRequest : Type 0 where
  pub method : Text
  pub target : Text
  pub version : Text
  pub headers : List Header
  pub body : Text

abbrev pub max_http_header_bytes : ℕ
max_http_header_bytes = 128 * 1024

-- The trailer lines behind the last chunk, up to a blank one or the end.
unfoldable pub read_trailers : ℕ → Text → Text → Read Text
read_trailers zero body s = fault no_fuel
read_trailers (suc fuel) body s = elim (readline s) [
  | fault e ↦ fault e
  | got line s' ↦
      let more = read_trailers fuel body s' in
      if elem line (codes "\r\n" ∷ codes "\n" ∷ [] ∷ []) then got body s' else more
]

-- The size of the next chunk, `none` for a ValueError of `int`.
abbrev pub chunk_size : Text → Option ℤ
chunk_size line = int_of 16 (strip (before b';' line))

-- `_read_chunked_body`, with the body read so far. Every round consumes a line.
unfoldable pub read_chunked : ℕ → ℕ → Text → Text → Read Text
read_chunked zero max_body_bytes body s = fault no_fuel
read_chunked (suc fuel) max_body_bytes body s = elim (readline s) [
  | fault e ↦ fault e
  | got line s1 ↦ elim (chunk_size line) [
    | none ↦ fault value_error
    | some (pos ℕ.zero) ↦ read_trailers fuel body s1
    | some size ↦ elim (readexactly_ℤ size s1) [
      | fault e ↦ fault e
      | got chunk s2 ↦
          if ltb max_body_bytes (length (body ++ chunk))
          then fault too_large
          else elim (readexactly 2 s2) [
            | fault e ↦ fault e
            | got _ s3 ↦ read_chunked fuel max_body_bytes (body ++ chunk) s3
          ]
    ]
  ]
]

unfoldable pub read_chunked_body : ℕ → Text → Read Text
unfolding read_chunked read_trailers
read_chunked_body max_body_bytes s = read_chunked (suc (length s)) max_body_bytes [] s

-- block.split(b"\r\n")
unfoldable pub split_crlf : Text → Text → List Text
split_crlf acc (a ∷ b ∷ s) =
    let cut = acc ∷ split_crlf [] s in
    let go_on = split_crlf (acc ++ a ∷ []) (b ∷ s) in if a == 13 && b == 10 then cut else go_on
split_crlf acc s = (acc ++ s) ∷ []

-- line.partition(b":"), `none` where there is no separator
unfoldable pub partition_colon : Text → Option (Text × Text)
partition_colon [] = none
partition_colon (c ∷ cs) =
    if c == b':'
    then some ([], cs)
    else elim (partition_colon cs) [ none ↦ none | some (n, v) ↦ some (c ∷ n, v) ]

-- What the loop over the header lines has found.
pub record Found : Type 0 where
  pub headers : List Header
  pub content_length : ℤ
  pub chunked : Bool

-- One header, with its value stripped on the left; `none` for a ValueError of `int`.
unfoldable pub add_header : Found → Text → Text → Option Found
add_header f name value =
    let with_it = record f { headers = f.headers ++ (name, value) ∷ [] } in
    if eqb (lower name) (codes "content-length")
    then elim (int_of 10 value) [
      | none ↦ none
      | some n ↦ some (record with_it { content_length = n })
    ]
    else if eqb (lower name) (codes "transfer-encoding") && contains (lower value) (codes "chunked")
    then some (record with_it { chunked = true })
    else some with_it

-- for line in header_lines[1:]
unfoldable pub read_headers : Found → List Text → Option Found
read_headers f [] = some f
read_headers f ([] ∷ lines) = read_headers f lines
read_headers f ((c ∷ line) ∷ lines) = elim (partition_colon (c ∷ line)) [
  | none ↦ none
  | some (name, value) ↦ elim (add_header f name (lstrip value)) [
    | none ↦ none
    | some g ↦ read_headers g lines
  ]
]

abbrev pub over : ℕ → ℤ → Bool
over limit (pos n) = ltb limit n
over limit (negsuc n) = false

-- The body that the headers announce.
unfoldable pub read_body : ℕ → Found → Text → Read Text
read_body max_body_bytes f s =
    if f.chunked
    then read_chunked_body max_body_bytes s
    else if over max_body_bytes f.content_length
    then fault too_large
    else elim f.content_length [
      | pos n ↦ if n == 0 then got [] s else readexactly n s
      | negsuc n ↦ fault value_error
    ]

abbrev pub initial : Found
initial = record { headers = []; content_length = pos 0; chunked = false }

abbrev pub finish_request : Text → Text → Text → Found → Read Text → Read (Option HttpRequest)
finish_request method target version f (fault e) = fault e
finish_request method target version f (got body s) =
    got
      (some (record {
        method = method;
        target = target;
        version = version;
        headers = f.headers;
        body = body;
      }))
      s

abbrev pub parse_head : ℕ → List Text → List Text → Text → Read (Option HttpRequest)
parse_head max_body_bytes (method ∷ target ∷ version ∷ []) lines s =
    elim (read_headers initial lines) [
      | none ↦ fault value_error
      | some f ↦ finish_request method target version f (read_body max_body_bytes f s)
    ]
parse_head max_body_bytes _ lines s = fault value_error

abbrev pub parse_lines : ℕ → List Text → Text → Read (Option HttpRequest)
parse_lines max_body_bytes [] s = fault value_error
parse_lines max_body_bytes (line ∷ lines) s = parse_head max_body_bytes (split 32 line) lines s

abbrev pub is_incomplete : Error → Bool
is_incomplete incomplete = true
is_incomplete _ = false

-- A request, or none if the stream ends before its headers do.
unfoldable pub read_http_request : ℕ → Text → Read (Option HttpRequest)
read_http_request max_body_bytes s = elim (readuntil_block s) [
  | fault e ↦ if is_incomplete e then got none [] else fault e
  | got block s' ↦
      if ltb max_http_header_bytes (length block)
      then fault too_large
      else parse_lines max_body_bytes (split_crlf [] (take (length block - 4) block)) s'
]
