-- ===== src/Http/Response.antt =====
-- socks_mitm.py: `_write_fixed_response` and `_write_streaming_response`, as the bytes written.
use codex_reset_proxy.Prelude.{
  ℕ, Bool, Option, none, some, List, [], ◌∷◌, ◌++◌, if◌then◌else◌, length,
}
use codex_reset_proxy.Text.{Text, codes, elem, lower, show_dec, show_hex}
use codex_reset_proxy.Headers.{Header}

abbrev pub crlf : Text
crlf = codes "\r\n"

-- `HTTPStatus(status_code).phrase`, given by its table; "Unknown" outside it.
unfoldable pub reason_phrase : (ℕ → Option Text) → ℕ → Text
reason_phrase phrases status = elim (phrases status) [ none ↦ codes "Unknown" | some p ↦ p ]

abbrev status_line : (ℕ → Option Text) → ℕ → Text
status_line phrases status =
    codes "HTTP/1.1 " ++ show_dec status ++ codes " " ++ reason_phrase phrases status ++ crlf

unfoldable pub header_lines : List Header → Text
header_lines [] = []
header_lines ((name, value) ∷ hs) = (name ++ codes ": " ++ value ++ crlf) ++ header_lines hs

unfoldable pub write_fixed_response : (ℕ → Option Text) → ℕ → List Header → Text → Text
unfolding reason_phrase header_lines
write_fixed_response phrases status headers body =
    status_line phrases status
    ++ header_lines headers
    ++ (codes "content-length: " ++ show_dec (length body) ++ crlf)
    ++ (codes "connection: close" ++ crlf ++ crlf)
    ++ body

abbrev pub framing_headers : List Text
framing_headers = codes "content-length" ∷ codes "transfer-encoding" ∷ codes "connection" ∷ []

-- The headers that the loop writes.
unfoldable pub without_framing : List Header → List Header
without_framing [] = []
without_framing ((name, value) ∷ hs) =
    if elem (lower name) framing_headers
    then without_framing hs
    else (name, value) ∷ without_framing hs

-- for chunk in chunks; an empty one would end the body, and is skipped
unfoldable pub chunked_body : List Text → Text
chunked_body [] = []
chunked_body ([] ∷ cs) = chunked_body cs
chunked_body ((c ∷ chunk) ∷ cs) =
    show_hex (length (c ∷ chunk)) ++ (crlf ++ ((c ∷ chunk) ++ (crlf ++ chunked_body cs)))

abbrev pub last_chunk : Text
last_chunk = codes "0\r\n\r\n"

-- `complete` says that the iteration ended, and not by an exception.
unfoldable pub write_streaming_response :
    (ℕ → Option Text) → ℕ → List Header → List Text → Bool → Text
unfolding reason_phrase header_lines without_framing chunked_body
write_streaming_response phrases status headers chunks complete =
    status_line phrases status
    ++ header_lines (without_framing headers)
    ++ (codes "transfer-encoding: chunked" ++ crlf)
    ++ (codes "connection: close" ++ crlf ++ crlf)
    ++ chunked_body chunks
    ++ (if complete then last_chunk else [])
