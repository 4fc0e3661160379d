-- ===== src/Http/RoundTrip.antt =====
-- socks_mitm.py: chunked bodies, as `_write_streaming_response` writes and `_read_chunked_body` reads
-- them.
use codex_reset_proxy.Prelude.{
  ℕ, suc, ◌+◌, ◌-◌, ◌≤◌, ◌<◌, ◌≡◌, refl, ap, ◌∙◌, false, some, List, [], ◌∷◌, ◌++◌, arith, All, ltb,
  length, append_assoc, append-nil, length-append, take-append, drop-append,
}
use codex_reset_proxy.Prelude.Int.{pos}
use codex_reset_proxy.Text.{Text, codes, show, show_hex, elem, eqb}
use codex_reset_proxy.Text.Numbers.{
  IsDigitChar, show_hex-shape, int_of-size_line, pow16, length-show_hex,
}
use codex_reset_proxy.Upstream.{concat}
use codex_reset_proxy.Http.{got, readexactly, cut_line, readline}
use codex_reset_proxy.Http.Request.{read_trailers, chunk_size, read_chunked, read_chunked_body}
use codex_reset_proxy.Http.Response.{crlf, chunked_body, last_chunk}

-- A chunk that the peer can read: its size has at most 16 digits.
abbrev pub IsShort : Text → Type 0
IsShort chunk = length chunk < pow16 16

-- Fuel for the rounds of the reader's loop that the chunks take, with some to spare.
abbrev rounds : ℕ → List Text → ℕ
rounds extra [] = suc (suc extra)
rounds extra ([] ∷ cs) = rounds extra cs
rounds extra ((c ∷ chunk) ∷ cs) = suc (rounds extra cs)

cut_line-digits :
    (s rest : Text) → All IsDigitChar s → cut_line (s ++ (crlf ++ rest)) ≡ some (s ++ crlf, rest)
unfolding cut_line
cut_line-digits [] rest h = refl
cut_line-digits (c ∷ s) rest h = ground (arith, h.0.6, cut_line-digits s rest h.1)

readline-size :
    (n : ℕ) (rest : Text)
    → n < pow16 16
    → readline (show_hex n ++ (crlf ++ rest)) ≡ got (show_hex n ++ crlf) rest
unfolding readline
readline-size n rest h =
    let (c, s, e, k) = show_hex-shape n in
    let cut : cut_line (show_hex n ++ (crlf ++ rest)) ≡ some (show_hex n ++ crlf, rest) =
      rw e (cut_line-digits (c ∷ s) rest k) in
    rw (cut, readline) (ground (arith, length-append (show_hex n) crlf, length-show_hex 15 n h))

readexactly-append : (xs ys : Text) → readexactly (length xs) (xs ++ ys) ≡ got xs ys
unfolding readexactly
readexactly-append xs ys = ground (arith, length-append xs ys, take-append xs ys, drop-append xs ys)

read_trailers-end :
    (fuel : ℕ) (body rest : Text) → read_trailers (suc fuel) body (crlf ++ rest) ≡ got body rest
unfolding read_trailers readline cut_line elem eqb
read_trailers-end fuel body rest = refl

-- One round of the reader's loop, from the results of what it reads.
chunk_round :
    (fuel max_body_bytes n : ℕ) (body s : Text) {line s1 chunk s2 ending s3 : Text}
    → readline s ≡ got line s1
    → chunk_size line ≡ some (pos (suc n))
    → readexactly (suc n) s1 ≡ got chunk s2
    → length (body ++ chunk) ≤ max_body_bytes
    → readexactly 2 s2 ≡ got ending s3
    → read_chunked (suc fuel) max_body_bytes body s
      ≡ read_chunked fuel max_body_bytes (body ++ chunk) s3
unfolding read_chunked
chunk_round fuel max_body_bytes n body s {chunk = chunk} l z c fits e =
    let within : ltb max_body_bytes (length (body ++ chunk)) ≡ false = ground arith in
    rw (l, read_chunked)
      (rw (z, read_chunked)
        (rw (c, read_chunked) (rw (within, read_chunked) (rw (e, read_chunked) refl))))

last_round :
    (fuel max_body_bytes : ℕ) (body s : Text) {line s1 : Text}
    → readline s ≡ got line s1
    → chunk_size line ≡ some (pos 0)
    → read_chunked (suc fuel) max_body_bytes body s ≡ read_trailers fuel body s1
unfolding read_chunked
last_round fuel max_body_bytes body s l z = rw (l, read_chunked) (rw (z, read_chunked) refl)

wire :
    (digits : Text) (chunk cs rest : Text)
    → (digits ++ (crlf ++ (chunk ++ (crlf ++ cs)))) ++ rest
      ≡ digits ++ (crlf ++ (chunk ++ (crlf ++ (cs ++ rest))))
wire digits chunk cs rest =
    append_assoc digits (crlf ++ (chunk ++ (crlf ++ cs))) rest
    ∙ ap (λ (t : Text). digits ++ (crlf ++ t)) (append_assoc chunk (crlf ++ cs) rest)

module _ (max_body_bytes : ℕ) where
  read_last :
      (fuel : ℕ) (body rest : Text)
      → read_chunked (suc (suc fuel)) max_body_bytes body (last_chunk ++ rest) ≡ got body rest
  unfolding show codex_reset_proxy.Text.to_digits codex_reset_proxy.Text.digit_char
  read_last fuel body rest =
      last_round (suc fuel) max_body_bytes body (last_chunk ++ rest)
        (readline-size 0 (crlf ++ rest) (omega arith)) (int_of-size_line 0)
      ∙ read_trailers-end fuel body rest

  read_chunk :
      (fuel c : ℕ) (chunk body rest : Text)
      → IsShort (c ∷ chunk)
      → length (body ++ c ∷ chunk) ≤ max_body_bytes
      → read_chunked
          (suc fuel)
          max_body_bytes
          body
          (show_hex (length (c ∷ chunk)) ++ (crlf ++ ((c ∷ chunk) ++ (crlf ++ rest))))
        ≡ read_chunked fuel max_body_bytes (body ++ c ∷ chunk) rest
  read_chunk fuel c chunk body rest h k =
      chunk_round fuel max_body_bytes (length chunk) body _
        (readline-size (length (c ∷ chunk)) ((c ∷ chunk) ++ (crlf ++ rest)) h)
        (int_of-size_line (length (c ∷ chunk))) (readexactly-append (c ∷ chunk) (crlf ++ rest)) k
        (readexactly-append crlf rest)

  read_chunks :
      (chunks : List Text) (extra : ℕ) (body rest : Text)
      → All IsShort chunks
      → length (body ++ concat chunks) ≤ max_body_bytes
      → read_chunked
          (rounds extra chunks)
          max_body_bytes
          body
          (chunked_body chunks ++ (last_chunk ++ rest))
        ≡ got (body ++ concat chunks) rest
  unfolding chunked_body concat
  read_chunks [] extra body rest k fits = rw (append-nil body) (read_last extra body rest)
  read_chunks ([] ∷ cs) extra body rest k fits = read_chunks cs extra body rest k.1 fits
  read_chunks ((c ∷ chunk) ∷ cs) extra body rest k fits =
      let split = append_assoc body (c ∷ chunk) (concat cs) in
      let later : Text = chunked_body cs ++ (last_chunk ++ rest) in
      let bound : length ((body ++ c ∷ chunk) ++ concat cs) ≤ max_body_bytes = rw split fits in
      let goes_on = read_chunks cs extra (body ++ c ∷ chunk) rest k.1 bound in
      let first = read_chunk (rounds extra cs) c chunk body later k.0 (
        omega (
          arith,
          fits,
          length-append body (c ∷ chunk ++ concat cs),
          length-append (c ∷ chunk) (concat cs),
          length-append body (c ∷ chunk),
        )) in
      let shape =
        wire (show_hex (length (c ∷ chunk))) (c ∷ chunk) (chunked_body cs) (last_chunk ++ rest) in
      ap (λ (t : Text). read_chunked (suc (rounds extra cs)) max_body_bytes body t) shape
      ∙ first
      ∙ goes_on
      ∙ ap (λ (t : Text). got t rest) split

rounds-lem :
    (extra : ℕ) (chunks : List Text)
    → (rounds extra chunks ≡ rounds 0 chunks + extra)
      × (rounds 0 chunks ≤ 2 + length (chunked_body chunks))
unfolding chunked_body
rounds-lem extra [] = (omega arith, omega arith)
rounds-lem extra ([] ∷ cs) = rounds-lem extra cs
rounds-lem extra ((c ∷ chunk) ∷ cs) =
    let (e, b) = rounds-lem extra cs in
    let digits = show_hex (length (c ∷ chunk)) in
    let body = chunked_body cs in
    let l1 = length-append digits (crlf ++ ((c ∷ chunk) ++ (crlf ++ body))) in
    let l2 = length-append (c ∷ chunk) (crlf ++ body) in
    (omega (arith, e), omega (arith, b, l1, l2))

-- What the proxy writes chunk by chunk, with the last chunk behind it and whatever follows, its own
-- reader of chunked bodies reads as the chunks joined, and it leaves what follows: where each chunk
-- has a length of at most 16 hexadecimal digits, and together they are within the reader's limit.
pub chunked_body-read :
    (max_body_bytes : ℕ) (chunks : List Text) (rest : Text)
    → All IsShort chunks
    → length (concat chunks) ≤ max_body_bytes
    → read_chunked_body max_body_bytes (chunked_body chunks ++ (last_chunk ++ rest))
      ≡ got (concat chunks) rest
unfolding read_chunked_body
chunked_body-read max_body_bytes chunks rest k fits =
    let s = chunked_body chunks ++ (last_chunk ++ rest) in
    let extra = suc (length s) - rounds 0 chunks in
    let (e, b) = rounds-lem extra chunks in
    let enough : suc (length s) ≡ rounds extra chunks =
      omega (arith, e, b, length-append (chunked_body chunks) (last_chunk ++ rest)) in
    rw enough (read_chunks max_body_bytes chunks extra [] rest k fits)
