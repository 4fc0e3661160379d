-- ===== src/Bridge/Request/Identity.antt =====
-- websocket_bridge.py: which requests have the same pool key.
use mathlib.Core.List.{Permᴰ}
use mathlib.Core.List.Permᴰ
use codex_reset_proxy.Prelude.{
  Bool, true, false, ◌≡◌, refl, ap, ◌∙◌, List, ◌∷◌, map, keep, if◌then◌else◌, ◌↔◌,
}
use codex_reset_proxy.Text.{Text}
use codex_reset_proxy.Json.{arr, of_pairs}
use codex_reset_proxy.Runtime.{Runtime}
use codex_reset_proxy.Config.{Settings}
use codex_reset_proxy.Headers.{Header}
use codex_reset_proxy.Bridge.Pool.{Key}
use codex_reset_proxy.Bridge.Request.{
  is_identity_header, identity_headers, websocket_pool_key, sort,
}
use codex_reset_proxy.Bridge.Request.Sorting.{sort-perm, sort-permuted}

module _ {ℓ} {A : Type ℓ} where
  abbrev kept : Bool → A → List A → List A
  kept b x xs = if b then x ∷ xs else xs

  kept-perm : (b : Bool) (x : A) {xs ys : List A} → Permᴰ xs ys → Permᴰ (kept b x xs) (kept b x ys)
  kept-perm true x r = Permᴰ.cons refl r
  kept-perm false x r = r

  kept-swap :
      (b c : Bool) (x y : A) (xs : List A) → Permᴰ (kept b x (kept c y xs)) (kept c y (kept b x xs))
  kept-swap true true x y xs = Permᴰ.swap refl refl
  kept-swap true false x y xs = Permᴰ.refl (x ∷ xs)
  kept-swap false c x y xs = Permᴰ.refl (kept c y xs)

  keep-perm : (p : A → Bool) {xs ys : List A} → Permᴰ xs ys → Permᴰ (keep p xs) (keep p ys)
  keep-perm p Permᴰ.nil = Permᴰ.nil
  keep-perm p (Permᴰ.cons {b = b} e r) = rw e (kept-perm (p b) b (keep-perm p r))
  keep-perm p (Permᴰ.swap {a' = a'} {b' = b'} {l = l} e f) =
      rw (e, f) (kept-swap (p b') (p a') b' a' (keep p l))
  keep-perm p (Permᴰ.trans q r) = Permᴰ.trans (keep-perm p q) (keep-perm p r)

module _ (py : Runtime) (settings : Settings) where
  -- The headers that tell who makes the request, their names in lower case, in their own order.
  abbrev pub identity : List Header → List Header
  identity headers =
      keep
        (λ h.
          is_identity_header py h.0 (map py.str_lower settings.websocket_pool_key_headers)
            (py.str_lower settings.upstream_api_key_header))
        (map (λ h. (py.str_lower h.0, h.1)) headers)

  abbrev pub digest : List Header → Text
  digest sorted = py.sha256 (py.dumps (arr (of_pairs sorted)))

  -- The order of the headers has no influence on the pool key.
  pub websocket_pool_key-perm :
      (url : Text) {headers others : List Header}
      → Permᴰ headers others
      → websocket_pool_key py settings url headers ≡ websocket_pool_key py settings url others
  unfolding websocket_pool_key identity_headers
  websocket_pool_key-perm url p =
      ap (λ (sorted : List Header). record { url = url; identity_digest = digest sorted })
        (sort-perm py (keep-perm _ (Permᴰ.map _ p)))

  -- Two requests have the same pool key exactly when they have the same URL and the same identity
  -- headers, in any order, with the names in any case: where the digests of the two do not collide.
  pub websocket_pool_key_iff :
      (url url' : Text) (headers headers' : List Header)
      → (digest (identity_headers py settings headers)
            ≡ digest (identity_headers py settings headers')
          → identity_headers py settings headers ≡ identity_headers py settings headers')
      → (websocket_pool_key py settings url headers ≡ websocket_pool_key py settings url' headers')
        ↔ ((url ≡ url') × Permᴰ (identity headers) (identity headers'))
  unfolding websocket_pool_key identity_headers
  websocket_pool_key_iff url url' headers headers' no_collision = (
    λ same.
        let sorted = no_collision (ap (λ (k : Key). k.identity_digest) same) in
        (
          ap (λ (k : Key). k.url) same,
          Permᴰ.trans (Permᴰ.symm (sort-permuted py (identity headers)))
              (rw sorted (sort-permuted py (identity headers'))),
        ),
    λ (e, p).
        ap (λ (u : Text). record { url = u; identity_digest = digest (sort py (identity headers)) })
          e
        ∙ ap (λ (sorted : List Header). record { url = url'; identity_digest = digest sorted })
            (sort-perm py p),
  )
