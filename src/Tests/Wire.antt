-- ===== src/Tests/Wire.antt =====
-- What is written to the wire, and read from it, at concrete inputs.
use codex_reset_proxy.Prelude.{◌≡◌, ◌≢◌, ◌≤◌, refl, some, List, [], ◌∷◌, ◌++◌, All, arith, length}
use codex_reset_proxy.Text.{Text, codes, join}
use codex_reset_proxy.Upstream.{concat}
use codex_reset_proxy.Bridge.Sse.{sse_text, data_lines}
use codex_reset_proxy.Bridge.Sse.RoundTrip.{
  read_event, IsOneLine, HasNoLineEnd, sse_text-read, sse_text-round_trip, sse_text-separator,
}
use codex_reset_proxy.Http.Fuel.{read_chunked_body-fuel}
use codex_reset_proxy.Http.{fault, no_fuel, got}
use codex_reset_proxy.Http.Request.{HttpRequest, read_chunked_body, read_body, read_http_request}
use codex_reset_proxy.Http.Response.{chunked_body, last_chunk}
use codex_reset_proxy.Http.RoundTrip.{IsShort, chunked_body-read}

ping-IsOneLine : IsOneLine (codes "ping")
ping-IsOneLine = (refl, (refl, (refl, (refl, tt))))

ping-HasNoLineEnd : HasNoLineEnd (codes "ping")
unfolding codex_reset_proxy.Bridge.Sse.is_line_end
ping-HasNoLineEnd = (refl, (refl, (refl, (refl, tt))))

sse_text-read_example :
    read_event (sse_text (codes "ping") (codes "a\nb"))
    ≡ some (codes "ping", join (codes "\n") (data_lines (codes "a\nb")))
sse_text-read_example = sse_text-read (codes "ping") (codes "a\nb") ping-IsOneLine

sse_text-round_trip_example :
    read_event (sse_text (codes "ping") (codes "ping")) ≡ some (codes "ping", codes "ping")
sse_text-round_trip_example =
    sse_text-round_trip (codes "ping") (codes "ping") ping-IsOneLine ping-HasNoLineEnd

sse_text-separator_example :
    read_event (sse_text (codes "ping") (codes "ping" ++ 0x2028 ∷ codes "ping"))
    ≡ some (codes "ping", codes "ping" ++ b'\n' ∷ codes "ping")
sse_text-separator_example =
    sse_text-separator (codes "ping") (codes "ping") (codes "ing") b'p' ping-IsOneLine
      ping-HasNoLineEnd ping-HasNoLineEnd

abbrev two_chunks : List Text
two_chunks = codes "hello " ∷ [] ∷ codes "world" ∷ []

two_chunks-IsShort : All IsShort two_chunks
two_chunks-IsShort = (omega arith, (omega arith, (omega arith, tt)))

two_chunks-fit : length (concat two_chunks) ≤ 100
unfolding concat
two_chunks-fit = omega arith

chunked_body-read_example :
    read_chunked_body 100 (chunked_body two_chunks ++ (last_chunk ++ codes "GET"))
    ≡ got (concat two_chunks) (codes "GET")
chunked_body-read_example =
    chunked_body-read 100 two_chunks (codes "GET") two_chunks-IsShort two_chunks-fit

abbrev request_text : Text
request_text = codes "POST /v1 HTTP/1.1\r\nHost: a\r\nContent-Length: 2\r\n\r\nhiGET"

read_http_request_run :
    read_http_request 100 request_text
    ≡ got
        (some (record {
          method = codes "POST";
          target = codes "/v1";
          version = codes "HTTP/1.1";
          headers = (codes "Host", codes "a") ∷ (codes "Content-Length", codes "2") ∷ [];
          body = codes "hi";
        }))
        (codes "GET")
unfolding read_http_request read_body codex_reset_proxy.Http.readuntil_block
    codex_reset_proxy.Http.cut_block codex_reset_proxy.Http.Request.split_crlf
    codex_reset_proxy.Text.split_onto codex_reset_proxy.Http.Request.read_headers
    codex_reset_proxy.Http.Request.partition_colon codex_reset_proxy.Http.Request.add_header
    codex_reset_proxy.Text.eqb codex_reset_proxy.Text.lower_byte codex_reset_proxy.Text.int_of
    codex_reset_proxy.Text.lstrip codex_reset_proxy.Text.rstrip codex_reset_proxy.Text.is_space
    codex_reset_proxy.Text.read_digits codex_reset_proxy.Text.drop_prefix
    codex_reset_proxy.Text.digit_value codex_reset_proxy.Http.readexactly
    codex_reset_proxy.Text.value_from
read_http_request_run = refl

-- A body that ends within a chunk.
read_chunked_body-fuel_example : read_chunked_body 10 (codes "5\r\nab") ≢ fault no_fuel
read_chunked_body-fuel_example = read_chunked_body-fuel 10 (codes "5\r\nab")
