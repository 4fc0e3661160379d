-- ===== src/Http/Route.antt =====
-- socks_mitm.py: the path of an intercepted request, and the transport that answers it.
use codex_reset_proxy.Prelude.{
  Bool, false, ◌||◌, ◌&&◌, ◌≡◌, ◌∙◌, refl, sym, ap, Option, none, some, [], ◌∷◌, ◌++◌,
  if◌then◌else◌, Bool-cases, inl, inr, append_assoc, ◌==◌, arith,
}
use mathlib.Core.Option
use codex_reset_proxy.Text.{Text, codes, eqb, elem, is_empty, starts_with, before}
use codex_reset_proxy.Runtime.{Runtime, SplitUrl}
use codex_reset_proxy.Config.{Settings}
use codex_reset_proxy.Upstream.{rooted, build_upstream_url}

-- {path}?{query}, without the mark where there is no query
abbrev pub with_query : Text → Text → Text
with_query path query = if is_empty query then path else path ++ (codes "?" ++ query)

abbrev or_slash : Text → Text
or_slash [] = codes "/"
or_slash (c ∷ cs) = c ∷ cs

-- `none` where `urlsplit` raises ValueError
unfoldable pub origin_path : Runtime → Text → Option Text
origin_path py target = elim (py.urlsplit target) [
  | none ↦ none
  | some parsed ↦
      if is_empty parsed.scheme || is_empty parsed.netloc
      then some (or_slash target)
      else some (with_query (or_slash parsed.path) parsed.query)
]

unfoldable pub path_matches : Settings → Text → Bool
path_matches settings path = elem (before b'?' path) settings.intercept_paths

unfoldable pub upstream_url : Settings → Text → Text
upstream_url settings path = settings.upstream_base_url ++ rooted path

-- The response that `_handle_mitm_connection` writes.
pub data Handler : Type 0 where
  method_not_allowed websocket_bridge http_proxy : Handler

unfoldable pub handler_of : Settings → Text → Text → Handler
unfolding path_matches
handler_of settings method path =
    if path_matches settings path && eqb settings.transport_mode (codes "websocket_per_request")
    then (if eqb method (codes "POST") then websocket_bridge else method_not_allowed)
    else http_proxy

rooted-append : (path query : Text) → rooted (path ++ b'?' ∷ query) ≡ rooted path ++ b'?' ∷ query
unfolding starts_with
rooted-append [] query = refl
rooted-append (c ∷ cs) query = elim (Bool-cases (c == 47)) [
  | inl slash ↦ rw slash refl
  | inr none_there ↦ rw none_there refl
]

-- An intercepted request goes to the URL to which the HTTP server sends the same request.
pub upstream_url-build :
    (settings : Settings) (path query : Text)
    → upstream_url settings (with_query path query) ≡ build_upstream_url settings path query
unfolding upstream_url build_upstream_url
upstream_url-build settings path [] = refl
upstream_url-build settings path (c ∷ query) =
    ap (λ (t : Text). settings.upstream_base_url ++ t) (rooted-append path (c ∷ query))
    ∙ sym (append_assoc settings.upstream_base_url (rooted path) (b'?' ∷ c ∷ query))
    ∙ sym (append_assoc (settings.upstream_base_url ++ rooted path) (codes "?") (c ∷ query))

build-slash :
    (settings : Settings) (path query : Text)
    → build_upstream_url settings (or_slash path) query ≡ build_upstream_url settings path query
unfolding build_upstream_url starts_with
build-slash settings [] query = refl
build-slash settings (c ∷ path) query = refl

-- An intercepted request whose target is a whole URL goes to the URL to which the HTTP server sends
-- a request for the path and query of that URL: its scheme and host have no influence.
pub origin_path-build :
    (py : Runtime) (settings : Settings) (target : Text) (parsed : SplitUrl)
    → py.urlsplit target ≡ some parsed
    → is_empty parsed.scheme ≡ false
    → is_empty parsed.netloc ≡ false
    → Option.map (upstream_url settings) (origin_path py target)
      ≡ some (build_upstream_url settings parsed.path parsed.query)
unfolding origin_path
origin_path-build py settings target parsed e scheme netloc =
    rw (e, Option.map)
      (rw (scheme, netloc)
        (ap some (
          upstream_url-build settings (or_slash parsed.path) parsed.query
          ∙ build-slash settings parsed.path parsed.query)))

before-query : (path query : Text) → before b'?' (path ++ b'?' ∷ query) ≡ before b'?' path
unfolding before
before-query [] query = refl
before-query (c ∷ cs) query = ground (arith, before-query cs query)

path_matches-query :
    (settings : Settings) (path query : Text)
    → path_matches settings (with_query path query) ≡ path_matches settings path
unfolding path_matches
path_matches-query settings path [] = refl
path_matches-query settings path (c ∷ query) =
    ap (λ (p : Text). elem p settings.intercept_paths) (before-query path (c ∷ query))

-- The query of an intercepted request has no influence on which transport answers it.
pub handler_of-query :
    (settings : Settings) (method path query : Text)
    → handler_of settings method (with_query path query) ≡ handler_of settings method path
unfolding handler_of
handler_of-query settings method path query =
    ap
      (λ (matches : Bool).
        if matches && eqb settings.transport_mode (codes "websocket_per_request")
        then (if eqb method (codes "POST") then websocket_bridge else method_not_allowed)
        else http_proxy)
      (path_matches-query settings path query)
