-- ===== src/Headers.antt =====
-- proxy.py: which request and response headers are forwarded.
pub mod Membership
pub mod Filtering
pub mod ApiKey
use codex_reset_proxy.Prelude.{
  ℕ, Bool, true, false, not, ◌&&◌, Option, none, some, List, [], ◌∷◌, ◌++◌, map, keep, leb, ltb,
  if◌then◌else◌,
}
use codex_reset_proxy.Text.{Text, codes, eqb, elem, is_empty, lower, strip, split}
use codex_reset_proxy.Config.{Settings}

-- (name, value)
abbrev pub Header : Type 0
Header = Text × Text

abbrev pub hop_by_hop_headers : List Text
hop_by_hop_headers =
    codes "connection"
    ∷ codes "keep-alive"
    ∷ codes "proxy-authenticate"
    ∷ codes "proxy-authorization"
    ∷ codes "proxy-connection"
    ∷ codes "te"
    ∷ codes "trailer"
    ∷ codes "transfer-encoding"
    ∷ codes "upgrade"
    ∷ []

abbrev pub request_only_headers : List Text
request_only_headers = codes "host" ∷ []

-- The set of the stripped and lowered pieces that are not empty.
unfoldable pub split_header_tokens : Text → List Text
split_header_tokens v = map tokens_of (keep (λ part. not (is_empty (strip part))) (split b',' v))
  where
    tokens_of : Text → Text
    tokens_of part = lower (strip part)

-- What the values of the Connection headers add to `skip`.
unfoldable pub connection_tokens : List Header → List Text
connection_tokens [] = []
connection_tokens ((name, value) ∷ hs) =
    if eqb (lower name) (codes "connection")
    then split_header_tokens value ++ connection_tokens hs
    else connection_tokens hs

-- `skip` as it stands behind the loop; an absent `extra_skip` is the empty list.
abbrev pub skip_set : List Header → List Text → List Text
skip_set raw_headers extra_skip = hop_by_hop_headers ++ extra_skip ++ connection_tokens raw_headers

unfoldable pub filter_raw_headers : List Header → List Text → List Header
filter_raw_headers raw_headers extra_skip =
    keep (λ h. not (elem (lower h.0) (skip_set raw_headers extra_skip))) raw_headers

-- text.encode("latin-1"); `none` for UnicodeEncodeError
unfoldable pub encode_latin1 : Text → Option Text
encode_latin1 [] = some []
encode_latin1 (c ∷ cs) = elim (encode_latin1 cs) [
  | none ↦ none
  | some bs ↦ if ltb c 256 then some (c ∷ bs) else none
]

abbrev pub has_key : Option Text → Option Text
has_key none = none
has_key (some key) = if is_empty key then none else some key

abbrev pub without_header : Text → List Header → List Header
without_header name = keep (λ h. not (eqb (lower h.0) (lower name)))

-- `none` where an encoding raises
abbrev pub with_api_key : List Header → Option Text → Option Text → Option (List Header)
with_api_key headers none value = none
with_api_key headers (some name) none = none
with_api_key headers (some name) (some value) =
    some (without_header name headers ++ (name, value) ∷ [])

unfoldable pub filtered_request_headers_from_raw : Settings → List Header → Option (List Header)
filtered_request_headers_from_raw settings raw_headers =
    let headers = filter_raw_headers raw_headers request_only_headers in
    elim (has_key settings.upstream_api_key) [
      | none ↦ some headers
      | some key ↦
          with_api_key headers (encode_latin1 settings.upstream_api_key_header)
            (encode_latin1 (settings.upstream_api_key_prefix ++ key))
    ]

unfoldable pub filtered_response_headers : List Header → List Header
filtered_response_headers raw_headers = filter_raw_headers raw_headers []
