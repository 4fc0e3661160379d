-- ===== src/Headers/Filtering.antt =====
-- What `_filter_raw_headers` keeps.
use mathlib.Core.List.{Memᴰ}
use codex_reset_proxy.Prelude.{
  Bool, true, false, not, List, [], ◌∷◌, ◌++◌, ◌≡◌, refl, inl, inr, ◌↔◌, arith, keep, Bool-cases,
  append-nil,
}
use codex_reset_proxy.Prelude.Members.{keep-mem, mem-keep, keep-keep}
use codex_reset_proxy.Text.{Text, codes, eqb, elem, lower}
use codex_reset_proxy.Headers.{
  Header, connection_tokens, skip_set, filter_raw_headers, hop_by_hop_headers,
}
use codex_reset_proxy.Headers.Membership.{IsSkipped, elem→skipped, skipped→elem, elem-append}

not-true : (b : Bool) → not b ≡ true → b ≡ true → ⊥
not-true b h k = ground arith

module _ (raw : List Header) (extra : List Text) where
  -- A header is forwarded exactly when it stands in the message and its name, lowered, is no
  -- hop-by-hop header, is not in the extra set, and is named by no Connection header of the message.
  pub filter_raw_headers-mem :
      (h : Header)
      → Memᴰ h (filter_raw_headers raw extra) ↔ (Memᴰ h raw × ¬ IsSkipped (lower h.0) raw extra)
  unfolding filter_raw_headers
  filter_raw_headers-mem h = (
    λ m.
        let (m', t) = keep-mem _ h raw m in
        (m', λ s. not-true _ t (skipped→elem (lower h.0) raw extra s)),
    λ k. mem-keep _ h raw k.0 (passes k.1),
  )
    where
      passes :
          ¬ IsSkipped (lower h.0) raw extra → not (elem (lower h.0) (skip_set raw extra)) ≡ true
      passes n = elim (Bool-cases (elem (lower h.0) (skip_set raw extra))) [
        | inl s ↦ absurd (n (elem→skipped (lower h.0) raw extra s))
        | inr s ↦ rw s
      ]

connection_tokens-keep :
    (p : Header → Bool)
    → ((h : Header) → p h ≡ true → eqb (lower h.0) (codes "connection") ≡ false)
    → (hs : List Header) → connection_tokens (keep p hs) ≡ []
unfolding connection_tokens
connection_tokens-keep p none' [] = refl
connection_tokens-keep p none' ((n, v) ∷ hs) = elim (Bool-cases (p (n, v))) [
  | inl t ↦
      rw (t, connection_tokens)
        (rw (none' (n, v) t, connection_tokens) (connection_tokens-keep p none' hs))
  | inr t ↦ rw t (connection_tokens-keep p none' hs)
]

not-in-append :
    (s : Text) (xs ys zs : List Text)
    → not (elem s (xs ++ ys ++ zs)) ≡ true
    → not (elem s (xs ++ ys ++ [])) ≡ true
not-in-append s xs ys zs h = ground (arith, elem-append s (xs ++ ys) zs, append-nil (xs ++ ys))

not_connection :
    (name : Text) (raw : List Header) (extra : List Text)
    → not (elem name (skip_set raw extra)) ≡ true
    → eqb name (codes "connection") ≡ false
unfolding elem
not_connection name raw extra h = elim (Bool-cases (eqb name (codes "connection"))) [
  | inl e ↦ absurd (not-true _ h (rw e))
  | inr e ↦ e
]

-- Filtering what was filtered changes nothing: no Connection header is left to name more.
pub filter_raw_headers_idem :
    (raw : List Header) (extra : List Text)
    → filter_raw_headers (filter_raw_headers raw extra) extra ≡ filter_raw_headers raw extra
unfolding filter_raw_headers
filter_raw_headers_idem raw extra =
    rw (connection_tokens-keep _ (λ h t. not_connection (lower h.0) raw extra t) raw)
      (keep-keep _ _ (λ h t. not-in-append (lower h.0) hop_by_hop_headers extra _ t) raw)
