-- ===== src/Bridge/Pool/Dict.antt =====
-- Entries of the pool counted by connection.
use codex_reset_proxy.Prelude.{
  ℕ, ◌+◌, true, List, [], ◌∷◌, ◌++◌, ◌≡◌, refl, ◌↔◌, arith, ◌==◌, if◌then◌else◌,
}
use codex_reset_proxy.Text.Equality.{eqb_iff}
use codex_reset_proxy.Bridge.Pool.{
  Key, key_eqb, Entry, Bucket, Idle, bucket_of, set_bucket, del_bucket, store_rest, drain, or_new,
}

pub key_eqb_iff : (k j : Key) → (key_eqb k j ≡ true) ↔ (k ≡ j)
unfolding key_eqb
key_eqb_iff k j = ground (arith, eqb_iff k.url j.url, eqb_iff k.identity_digest j.identity_digest)

-- How many entries hold the connection `c`.
abbrev pub count : ℕ → List Entry → ℕ
count c [] = 0
count c (e ∷ es) = (if e.context == c then 1 else 0) + count c es

pub count-append : (c : ℕ) (xs ys : List Entry) → count c (xs ++ ys) ≡ count c xs + count c ys
count-append c [] ys = omega arith
count-append c (x ∷ xs) ys = omega (arith, count-append c xs ys)

-- The pool's entries, counted.
abbrev pub idle_count : ℕ → Idle → ℕ
idle_count c idle = count c (drain idle)

pub idle_count-set :
    (c : ℕ) (k : Key) (b : Bucket) (d : Idle)
    → idle_count c (set_bucket k b d) + count c (or_new (bucket_of k d))
      ≡ idle_count c d + count c b
unfolding set_bucket bucket_of drain
idle_count-set c k b [] = ground (arith, count-append c b [])
idle_count-set c k b ((j, x) ∷ d) = ground (
  arith,
  idle_count-set c k b d,
  count-append c b (drain d),
  count-append c x (drain d),
  count-append c x (drain (set_bucket k b d)),
)

pub idle_count-del :
    (c : ℕ) (k : Key) (d : Idle)
    → idle_count c (del_bucket k d) + count c (or_new (bucket_of k d)) ≡ idle_count c d
unfolding del_bucket bucket_of drain
idle_count-del c k [] = refl
idle_count-del c k ((j, x) ∷ d) = ground (
  arith,
  idle_count-del c k d,
  count-append c x (drain d),
  count-append c x (drain (del_bucket k d)),
)

pub idle_count-store_rest :
    (c : ℕ) (k : Key) (b : Bucket) (d : Idle)
    → idle_count c (store_rest k b d) + count c (or_new (bucket_of k d))
      ≡ idle_count c d + count c b
idle_count-store_rest c k [] d = omega (arith, idle_count-del c k d)
idle_count-store_rest c k (e ∷ es) d = idle_count-set c k (e ∷ es) d
