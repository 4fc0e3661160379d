-- ===== src/Bridge/Request.antt =====
-- websocket_bridge.py: the URL, headers and first message of a WebSocket request, and the key under
-- which its connection is pooled.
pub mod Sorting
pub mod Identity
use codex_reset_proxy.Prelude.{
  ℕ, Bool, true, false, not, ◌||◌, none, some, List, [], ◌∷◌, ◌++◌, map, keep, leb, if◌then◌else◌,
  ◌==◌,
}
use codex_reset_proxy.Text.{Text, codes, eqb, elem, lower, contains}
use codex_reset_proxy.Json.{Json, str, arr, obj, Fields, field, pop, of_pairs}
use codex_reset_proxy.Runtime.{Runtime, value, decode_error, load_error}
use codex_reset_proxy.Config.{Settings}
use codex_reset_proxy.Headers.{Header}
use codex_reset_proxy.Bridge.Pool.{Key}

-- WebSocketBridgeError
pub record BridgeError : Type 0 where
  pub status_code : ℕ
  pub error_code : Text
  pub message : Text
  pub attempts : ℕ

-- The exceptions that the handlers tell apart; the names are those of their classes.
pub data Exn : Type 0 where
  timeout : Exn
  os_error : Text → Exn
  websocket_error : Text → Exn
  bridge : BridgeError → Exn
  other : Text → Exn

-- WebSocketBridgeError(...), with the default of `attempts`
abbrev pub bridge_error : ℕ → Text → Text → Exn
bridge_error status code message =
    bridge (record { status_code = status; error_code = code; message = message; attempts = 1 })

pub data Result {ℓ} (A : Type ℓ) : Type ℓ where
  ok : A → Result A
  err : Exn → Result A

module _ (py : Runtime) where
  abbrev ws_scheme : Text → Result Text
  ws_scheme scheme =
      if eqb scheme (codes "http")
      then ok (codes "ws")
      else if eqb scheme (codes "https")
      then ok (codes "wss")
      else if elem scheme (codes "ws" ∷ codes "wss" ∷ [])
      then ok scheme
      else err (
          bridge_error 500 (codes "invalid_websocket_url")
            (codes "cannot convert URL scheme to websocket: " ++ scheme))

  unfoldable pub build_upstream_ws_url : Text → Result Text
  build_upstream_ws_url url = elim (py.urlsplit url) [
    | none ↦ err (other (codes "ValueError"))
    | some parsed ↦ elim (ws_scheme parsed.scheme) [
      | err e ↦ err e
      | ok scheme ↦ ok (py.urlunsplit scheme parsed.netloc parsed.path parsed.query parsed.fragment)
    ]
  ]

  abbrev pub response_create : Text
  response_create = codes "response.create"

  -- {"type": "response.create", **payload}, without the payload's own type
  abbrev pub with_type : Fields → Fields
  with_type payload = field (codes "type") (str response_create) (pop (codes "type") payload)

  abbrev of_payload : Json → Result Fields
  of_payload (obj payload) = ok (with_type payload)
  of_payload _ =
      err (
        bridge_error 400 (codes "invalid_request_json")
          (codes "request body must be a JSON object"))

  unfoldable pub build_response_create_request : Text → Result Fields
  build_response_create_request body = elim (py.decode_utf8 body) [
    | none ↦
        err (
          bridge_error 400 (codes "invalid_request_body") (codes "request body must be UTF-8 JSON"))
    | some text ↦ elim (py.loads text) [
      | value payload ↦ of_payload payload
      | decode_error msg ↦ err (
          bridge_error 400 (codes "invalid_request_json")
            (codes "request body must be a JSON object: " ++ msg))
      | load_error name ↦ err (other name)
    ]
  ]

  abbrev pub websocket_request_skip_headers : List Text
  websocket_request_skip_headers =
      codes "accept" ∷ codes "accept-encoding" ∷ codes "content-length" ∷ codes "content-type" ∷ []

  -- Decoding latin-1 leaves the numbers as they are.
  unfoldable pub websocket_headers : List Header → List Header
  websocket_headers = keep (λ h. not (elem (lower h.0) websocket_request_skip_headers))

  unfoldable pub is_identity_header : Text → List Text → Text → Bool
  is_identity_header name key_headers key_header =
      if eqb name key_header || elem name key_headers
      then true
      else contains name (codes "auth") || contains name (codes "token")

  -- a ≤ b, for Python's order on texts
  unfoldable pub text_leb : Text → Text → Bool
  text_leb [] t = true
  text_leb (a ∷ s) [] = false
  text_leb (a ∷ s) (b ∷ t) = if a == b then text_leb s t else leb a b

  unfoldable pub pair_leb : Header → Header → Bool
  pair_leb a b = if eqb a.0 b.0 then text_leb a.1 b.1 else text_leb a.0 b.0

  -- `list.sort`
  unfoldable pub insert : Header → List Header → List Header
  insert h [] = h ∷ []
  insert h (x ∷ xs) = if pair_leb h x then h ∷ x ∷ xs else x ∷ insert h xs

  unfoldable pub sort : List Header → List Header
  sort [] = []
  sort (h ∷ hs) = insert h (sort hs)

  -- The pairs that `websocket_pool_key` digests, sorted.
  unfoldable pub identity_headers : Settings → List Header → List Header
  identity_headers settings headers =
      let key_names = map py.str_lower settings.websocket_pool_key_headers in
      let configured = py.str_lower settings.upstream_api_key_header in
      let lowered = map (λ (h : Header). (py.str_lower h.0, h.1)) headers in
      sort (keep (λ (h : Header). is_identity_header h.0 key_names configured) lowered)

  -- `ensure_ascii` makes `encode("utf-8")` leave the digest's input as it is.
  unfoldable pub websocket_pool_key : Settings → Text → List Header → Key
  websocket_pool_key settings url headers = record {
    url = url;
    identity_digest = py.sha256 (py.dumps (arr (of_pairs (identity_headers settings headers))));
  }
