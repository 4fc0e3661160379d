-- ===== src/Http/Limits.antt =====
-- socks_mitm.py: the limit of a request's body.
use codex_reset_proxy.Prelude.{
  ℕ, suc, zero, ◌≤◌, ◌≡◌, refl, false, Option, none, some, List, [], ◌∷◌, ◌++◌, length, ltb,
  length-take, if◌then◌else◌, Bool-cases, Option-cases, inl, inr, arith, ◌==◌,
}
use codex_reset_proxy.Prelude.Int.{ℤ, pos, negsuc}
use codex_reset_proxy.Text.{Text, codes, elem, split}
use codex_reset_proxy.Http.{
  Read, got, fault, too_large, value_error, readline, readexactly, readexactly_ℤ, readuntil_block,
}
use codex_reset_proxy.Http.Request.{
  HttpRequest, Found, read_trailers, chunk_size, read_chunked, read_chunked_body, read_body,
  finish_request, parse_head, parse_lines, read_headers, read_http_request, over, initial,
  is_incomplete, max_http_header_bytes,
}

-- What holds of a value that is read, if one is.
abbrev pub Gives : {A : Type 0} → (A → Type 0) → Read A → Type 0
Gives P (fault e) = Unit {0}
Gives P (got a s) = P a

abbrev pub IsWithin : ℕ → Text → Type 0
IsWithin limit body = length body ≤ limit

abbrev pub IsBodyWithin : ℕ → Option HttpRequest → Type 0
IsBodyWithin limit none = Unit {0}
IsBodyWithin limit (some request) = IsWithin limit request.body

read_trailers-Gives :
    (P : Text → Type 0) (fuel : ℕ) (body s : Text) → P body → Gives P (read_trailers fuel body s)
unfolding read_trailers
read_trailers-Gives P zero body s h = tt
read_trailers-Gives P (suc fuel) body s h =
    cases (λ s'. read_trailers-Gives P fuel body s' h) (readline s) refl
  where
    cases :
        ((s' : Text) → Gives P (read_trailers fuel body s'))
        → (r : Read Text) → readline s ≡ r
        → Gives P (read_trailers (suc fuel) body s)
    cases more (fault e) eq = rw (eq, read_trailers) tt
    cases more (got line s') eq =
        rw (eq, read_trailers)
          (elim (Bool-cases (elem line (codes "\r\n" ∷ codes "\n" ∷ [] ∷ []))) [
            | inl blank ↦ rw blank h
            | inr other ↦ rw other (more s')
          ])

module _ (limit : ℕ) where
  readexactly-Gives : (n : ℕ) (s : Text) → n ≤ limit → Gives (IsWithin limit) (readexactly n s)
  unfolding readexactly
  readexactly-Gives n s h = elim (Bool-cases (ltb (length s) n)) [
    | inl short ↦ rw short tt
    | inr enough ↦ rw enough (omega (arith, h, length-take n s))
  ]

  -- A chunk that is over the limit is refused, and one within it goes on.
  within : (body : Text) → ltb limit (length body) ≡ false → IsWithin limit body
  within body h = ground (arith, h)

  module _ (fuel : ℕ)
      (more : (b s : Text)
        → IsWithin limit b
        → Gives (IsWithin limit) (read_chunked fuel limit b s)) where
    separator-Gives :
        (body : Text) (r : Read Text)
        → IsWithin limit body
        → Gives
            (IsWithin limit)
            (elim r [ fault e ↦ fault e | got _ s3 ↦ read_chunked fuel limit body s3 ])
    separator-Gives body (fault e) h = tt
    separator-Gives body (got end s3) h = more body s3 h

    chunk-Gives :
        (body : Text) (r : Read Text)
        → Gives (IsWithin limit) (elim r [
          | fault e ↦ fault e
          | got chunk s2 ↦
              if ltb limit (length (body ++ chunk))
              then fault too_large
              else elim (readexactly 2 s2) [
                | fault e ↦ fault e
                | got _ s3 ↦ read_chunked fuel limit (body ++ chunk) s3
              ]
        ])
    chunk-Gives body (fault e) = tt
    chunk-Gives body (got chunk s2) = elim (Bool-cases (ltb limit (length (body ++ chunk)))) [
      | inl much ↦ rw much tt
      | inr fits ↦
          rw fits (separator-Gives (body ++ chunk) (readexactly 2 s2) (within (body ++ chunk) fits))
    ]

    line-Gives :
        (body s : Text) (r : Read Text)
        → readline s ≡ r
        → IsWithin limit body
        → Gives (IsWithin limit) (read_chunked (suc fuel) limit body s)
    unfolding read_chunked
    line-Gives body s (fault e) eq h = rw (eq, read_chunked) tt
    line-Gives body s (got l s1) eq h = sized (chunk_size l) refl
      where
        sized :
            (size : Option ℤ)
            → chunk_size l ≡ size
            → Gives (IsWithin limit) (read_chunked (suc fuel) limit body s)
        sized none bad = rw (eq, read_chunked) (rw (bad, read_chunked) tt)
        sized (some (negsuc k)) is_size =
            rw (eq, read_chunked)
              (rw (is_size, read_chunked) (chunk-Gives body (readexactly_ℤ (negsuc k) s1)))
        sized (some (pos zero)) is_size =
            rw (eq, read_chunked)
              (rw (is_size, read_chunked) (read_trailers-Gives (IsWithin limit) fuel body s1 h))
        sized (some (pos (suc k))) is_size =
            rw (eq, read_chunked)
              (rw (is_size, read_chunked) (chunk-Gives body (readexactly_ℤ (pos (suc k)) s1)))

  read_chunked-Gives :
      (fuel : ℕ) (body s : Text)
      → IsWithin limit body
      → Gives (IsWithin limit) (read_chunked fuel limit body s)
  unfolding read_chunked
  read_chunked-Gives zero body s h = tt
  read_chunked-Gives (suc fuel) body s h =
      line-Gives fuel (λ b s' k. read_chunked-Gives fuel b s' k) body s (readline s) refl h

  read_body-Gives : (f : Found) (s : Text) → Gives (IsWithin limit) (read_body limit f s)
  unfolding read_body read_chunked_body
  read_body-Gives f s = elim (Bool-cases f.chunked) [
    | inl yes_chunked ↦
        rw (yes_chunked, read_body) (read_chunked-Gives (suc (length s)) [] s (omega arith))
    | inr plain ↦ rw (plain, read_body) (announced f.content_length)
  ]
    where
      announced :
          (n : ℤ)
          → Gives (IsWithin limit) (
              if over limit n then fault too_large else elim n [
                | pos k ↦ if k == 0 then got [] s else readexactly k s
                | negsuc k ↦ fault value_error
              ])
      announced (negsuc k) = tt
      announced (pos k) = elim (Bool-cases (ltb limit k)) [
        | inl much ↦ rw much tt
        | inr fits ↦ rw fits (elim (Bool-cases (k == 0)) [
          | inl none_at_all ↦ rw none_at_all (omega arith)
          | inr some_bytes ↦ rw some_bytes (readexactly-Gives k s (ground (arith, fits)))
        ])
      ]

  finish_request-Gives :
      (method target version : Text) (f : Found) (r : Read Text)
      → Gives (IsWithin limit) r
      → Gives (IsBodyWithin limit) (finish_request method target version f r)
  finish_request-Gives method target version f (fault e) h = tt
  finish_request-Gives method target version f (got body s) h = h

  parse_head-Gives :
      (words lines : List Text) (s : Text)
      → Gives (IsBodyWithin limit) (parse_head limit words lines s)
  parse_head-Gives [] lines s = tt
  parse_head-Gives (a ∷ []) lines s = tt
  parse_head-Gives (a ∷ b ∷ []) lines s = tt
  parse_head-Gives (a ∷ b ∷ c ∷ d ∷ more) lines s = tt
  parse_head-Gives (a ∷ b ∷ c ∷ []) lines s = elim (Option-cases (read_headers initial lines)) [
    | inl bad ↦ rw (bad, parse_head) tt
    | inr (f, e) ↦ rw (e, parse_head) (finish_request-Gives a b c f _ (read_body-Gives f s))
  ]

  parse_lines-Gives :
      (lines : List Text) (s : Text) → Gives (IsBodyWithin limit) (parse_lines limit lines s)
  parse_lines-Gives [] s = tt
  parse_lines-Gives (line ∷ lines) s = parse_head-Gives (split 32 line) lines s

  -- Whatever the client sends, a request that is read has a body within the limit, sent as a whole
  -- or in chunks.
  pub read_http_request-IsBodyWithin :
      (s : Text) → Gives (IsBodyWithin limit) (read_http_request limit s)
  unfolding read_http_request
  read_http_request-IsBodyWithin s = cases (readuntil_block s) refl
    where
      cases :
          (r : Read Text)
          → readuntil_block s ≡ r
          → Gives (IsBodyWithin limit) (read_http_request limit s)
      cases (fault e) eq =
          rw (eq, read_http_request)
            (elim (Bool-cases (is_incomplete e)) [
              | inl early ↦ rw early tt
              | inr other ↦ rw other tt
            ])
      cases (got block s') eq =
          rw (eq, read_http_request)
            (elim (Bool-cases (ltb max_http_header_bytes (length block))) [
              | inl long ↦ rw long tt
              | inr short ↦ rw short (parse_lines-Gives _ s')
            ])
