-- ===== src/Headers/ApiKey.antt =====
-- `filtered_request_headers_from_raw`, with and without a key of the proxy's own.
use codex_reset_proxy.Prelude.{
  not, none, some, List, [], ◌∷◌, ◌++◌, ◌≡◌, refl, inl, inr, arith, keep, Option-cases, keep-append,
  append-nil,
}
use codex_reset_proxy.Text.{Text, eqb, lower}
use codex_reset_proxy.Text.Equality.{eqb_refl}
use codex_reset_proxy.Config.{Settings}
use codex_reset_proxy.Headers.{
  Header, filter_raw_headers, request_only_headers, encode_latin1, has_key, without_header,
  with_api_key, filtered_request_headers_from_raw,
}

-- The headers of one name, in any case, in order.
abbrev pub named : Text → List Header → List Header
named name = keep (λ h. eqb (lower h.0) (lower name))

-- The headers of every other name.
abbrev pub others : Text → List Header → List Header
others name = keep (λ h. not (eqb (lower h.0) (lower name)))

named-without : (name : Text) (hs : List Header) → named name (without_header name hs) ≡ []
named-without name [] = refl
named-without name (h ∷ hs) = ground (arith, named-without name hs)

others-without :
    (name : Text) (hs : List Header) → others name (without_header name hs) ≡ others name hs
others-without name [] = refl
others-without name (h ∷ hs) = ground (arith, others-without name hs)

encode_latin1-eq-some : (s : Text) {b : Text} → encode_latin1 s ≡ some b → b ≡ s
unfolding encode_latin1
encode_latin1-eq-some [] h = ground arith
encode_latin1-eq-some (c ∷ s) {b} h = elim (Option-cases (encode_latin1 s)) [
  | inl e ↦ ground arith
  | inr (bs, e) ↦ ground (arith, encode_latin1-eq-some s {b = bs} e)
]

with_api_key-eq-some :
    (hs : List Header) (name value : Text) {out : List Header}
    → with_api_key hs (encode_latin1 name) (encode_latin1 value) ≡ some out
    → out ≡ without_header name hs ++ (name, value) ∷ []
with_api_key-eq-some hs name value h = elim (Option-cases (encode_latin1 name)) [
  | inl e ↦ ground arith
  | inr (n, e) ↦ elim (Option-cases (encode_latin1 value)) [
    | inl f ↦ ground arith
    | inr (v, f) ↦ ground (arith, encode_latin1-eq-some name e, encode_latin1-eq-some value f)
  ]
]

module _ (settings : Settings) (raw : List Header) (key : Text) {headers : List Header}
    (configured : has_key settings.upstream_api_key ≡ some key)
    (encoded : filtered_request_headers_from_raw settings raw ≡ some headers) where
  -- With a key configured, the forwarded headers hold exactly one header of the configured name,
  -- with prefix and key as its value, whatever the client sent; every header of another name that
  -- the filter lets through is forwarded unchanged and in order.
  pub filtered_request_headers-key :
      (named settings.upstream_api_key_header headers
        ≡ (settings.upstream_api_key_header, settings.upstream_api_key_prefix ++ key) ∷ [])
      × (others settings.upstream_api_key_header headers
          ≡ others settings.upstream_api_key_header (filter_raw_headers raw request_only_headers))
  unfolding filtered_request_headers_from_raw
  filtered_request_headers-key = rw shape (
    rw (keep-append _ (without_header name hs), named-without name hs, eqb_refl (lower name)),
    rw (keep-append _ (without_header name hs), others-without name hs, eqb_refl (lower name))
        (append-nil _),
  )
    where
      name : Text
      name = settings.upstream_api_key_header

      hs : List Header
      hs = filter_raw_headers raw request_only_headers

      shape :
          headers ≡ without_header name hs ++ (name, settings.upstream_api_key_prefix ++ key) ∷ []
      shape =
          with_api_key-eq-some hs name _
            (rw (configured, filtered_request_headers_from_raw) at encoded)

-- With no key, or an empty one, the client's headers are filtered and nothing else.
pub filtered_request_headers-no_key :
    (settings : Settings) (raw : List Header)
    → has_key settings.upstream_api_key ≡ none
    → filtered_request_headers_from_raw settings raw
      ≡ some (filter_raw_headers raw request_only_headers)
unfolding filtered_request_headers_from_raw
filtered_request_headers-no_key settings raw h = rw (h, filtered_request_headers_from_raw)
