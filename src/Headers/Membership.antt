-- ===== src/Headers/Membership.antt =====
-- proxy.py: `in` on the sets of header names, and the library's membership.
use mathlib.Core.List.{Memᴰ}
use mathlib.Core.List.Memᴰ.{head, tail}
use codex_reset_proxy.Prelude.{
  Bool, true, false, ◌||◌, List, [], ◌∷◌, ◌++◌, ◌≡◌, refl, ◌⊎◌, inl, inr, arith, Bool-cases, sym,
  ap, ◌∙◌,
}
use codex_reset_proxy.Text.{Text, codes, eqb, elem, lower}
use codex_reset_proxy.Text.Equality.{eqb_iff}
use codex_reset_proxy.Headers.{
  Header, split_header_tokens, connection_tokens, hop_by_hop_headers, skip_set,
}

pub elem-append : (s : Text) (xs ys : List Text) → elem s (xs ++ ys) ≡ (elem s xs || elem s ys)
unfolding elem
elem-append s [] ys = refl
elem-append s (x ∷ xs) ys = ground (arith, elem-append s xs ys)

pub elem→mem : (s : Text) (xs : List Text) → elem s xs ≡ true → Memᴰ s xs
unfolding elem
elem→mem s [] h = absurd (ground arith)
elem→mem s (x ∷ xs) h = elim (Bool-cases (eqb s x)) [
  | inl same ↦ head ((eqb_iff s x).0 same)
  | inr other ↦ tail (elem→mem s xs (ground arith))
]

pub mem→elem : {s : Text} {xs : List Text} → Memᴰ s xs → elem s xs ≡ true
unfolding elem
mem→elem {s} (head {x} e) = ground (arith, eqb_iff s x)
mem→elem {s} (tail m) = ground (arith, mem→elem m)

-- A Connection header of the message names `name`.
pub record NamedByConnection (name : Text) (raw_headers : List Header) : Type 0 where
  pub header : Header
  pub stands : Memᴰ header raw_headers
  pub is_connection : lower header.0 ≡ codes "connection"
  pub token : Memᴰ name (split_header_tokens header.1)

pub NamedByConnection-tail :
    {name : Text} {h : Header} {hs : List Header}
    → NamedByConnection name hs
    → NamedByConnection name (h ∷ hs)
NamedByConnection-tail n = record {
  header = n.header;
  stands = tail n.stands;
  is_connection = n.is_connection;
  token = n.token;
}

pub Or-cases : (a b : Bool) → (a || b) ≡ true → (a ≡ true) ⊎ (b ≡ true)
Or-cases true b h = inl refl
Or-cases false b h = inr h

pub connection_tokens→named :
    (name : Text) (hs : List Header)
    → elem name (connection_tokens hs) ≡ true
    → NamedByConnection name hs
unfolding connection_tokens
connection_tokens→named name [] h = absurd (unfold elem in ground arith)
connection_tokens→named name ((n, v) ∷ hs) h =
    elim (Bool-cases (eqb (lower n) (codes "connection"))) [
      | inl here ↦
          elim (Or-cases (elem name (split_header_tokens v)) (elem name (connection_tokens hs))
            (rw elem-append at (rw (here, connection_tokens) at h))) [
              | inl mine ↦ record {
                header = (n, v);
                stands = head refl;
                is_connection = (eqb_iff (lower n) (codes "connection")).0 here;
                token = elem→mem name (split_header_tokens v) mine;
              }
              | inr later ↦ NamedByConnection-tail (connection_tokens→named name hs later)
            ]
      | inr other ↦
          NamedByConnection-tail
            (connection_tokens→named name hs (rw (other, connection_tokens) at h))
    ]

named→connection_tokens :
    (name : Text) (h : Header) (hs : List Header)
    → Memᴰ h hs
    → lower h.0 ≡ codes "connection"
    → Memᴰ name (split_header_tokens h.1)
    → elem name (connection_tokens hs) ≡ true
unfolding connection_tokens
named→connection_tokens name h [] m c t = elim m [ ]
named→connection_tokens name h (x ∷ hs) (head e) c t =
    let found : elem name (split_header_tokens x.1) ≡ true = rw (← e) (mem→elem t) in
    let is_c : eqb (lower x.0) (codes "connection") ≡ true =
      (eqb_iff (lower x.0) (codes "connection")).1 (ap (λ (y : Header). lower y.0) (sym e) ∙ c) in
    rw (is_c, connection_tokens) (rw elem-append (rw found))
named→connection_tokens name h (x ∷ hs) (tail m) c t =
    let ih = named→connection_tokens name h hs m c t in
    elim (Bool-cases (eqb (lower x.0) (codes "connection"))) [
      | inl is_c ↦
          rw (is_c, connection_tokens)
            (rw (elem-append name (split_header_tokens x.1) (connection_tokens hs))
              (ground (arith, ih)))
      | inr other ↦ rw (other, connection_tokens) ih
    ]

-- What `filter_raw_headers` drops, said of the message and not of the set that it builds.
abbrev pub IsSkipped : Text → List Header → List Text → Type 0
IsSkipped name raw_headers extra_skip =
    Memᴰ name hop_by_hop_headers ⊎ (Memᴰ name extra_skip ⊎ NamedByConnection name raw_headers)

pub elem→skipped :
    (name : Text) (raw : List Header) (extra : List Text)
    → elem name (skip_set raw extra) ≡ true
    → IsSkipped name raw extra
elem→skipped name raw extra h =
    elim (Or-cases _ _ (rw (elem-append name hop_by_hop_headers) at h)) [
      | inl hop ↦ inl (elem→mem name _ hop)
      | inr k ↦ elim (Or-cases _ _ (rw (elem-append name extra) at k)) [
        | inl e ↦ inr (inl (elem→mem name extra e))
        | inr c ↦ inr (inr (connection_tokens→named name raw c))
      ]
    ]

pub skipped→elem :
    (name : Text) (raw : List Header) (extra : List Text)
    → IsSkipped name raw extra
    → elem name (skip_set raw extra) ≡ true
skipped→elem name raw extra s =
    rw (elem-append name hop_by_hop_headers) (rw (elem-append name extra) (join s))
  where
    join :
        IsSkipped name raw extra
        → (elem name hop_by_hop_headers || (elem name extra || elem name (connection_tokens raw)))
          ≡ true
    join (inl m) = rw (mem→elem m)
    join (inr (inl m)) = ground (arith, mem→elem m)
    join (inr (inr n)) =
        ground (arith, named→connection_tokens name n.header raw n.stands n.is_connection n.token)
