-- ===== src/Bridge/Pool/Invariant.antt =====
-- websocket_bridge.py: the shape of the pool's dict. In a well-formed one each bucket holds connections of its key alone, at most the configured
-- number of them and at least one, and no key has two buckets.
use codex_reset_proxy.Prelude.{
  ℕ, ◌≤◌, ◌<◌, Bool, true, Option, none, some, List, [], ◌∷◌, ◌++◌, ◌≡◌, refl, ap, ◌↔◌, inl, inr,
  arith, length, Bool-cases, Option-cases, if◌then◌else◌, All, length-append,
}
use codex_reset_proxy.Bridge.Pool.{
  Key, key_eqb, Entry, Bucket, Idle, bucket_of, set_bucket, del_bucket, take_idle, evict, put_idle,
  or_new, store_rest,
}
use codex_reset_proxy.Bridge.Pool.Dict.{key_eqb_iff}
use codex_reset_proxy.Bridge.Pool.Selection.{Scanned, take_idle-Scanned}

abbrev pub OfKey : Key → Bucket → Type 0
OfKey k = All (λ e. e.key ≡ k)

-- A bucket that the pool may hold under a key.
abbrev pub IsBucket : ℕ → Key → Bucket → Type 0
IsBucket n k b = (0 < length b) × (length b ≤ n) × OfKey k b

abbrev pub IsPool : ℕ → Idle → Type 0
IsPool n [] = Unit
IsPool n ((k, b) ∷ d) = IsBucket n k b × (bucket_of k d ≡ none) × IsPool n d

bucket_of-IsBucket :
    (n : ℕ) (k : Key) (d : Idle) {b : Bucket} → IsPool n d → bucket_of k d ≡ some b → IsBucket n k b
unfolding bucket_of
bucket_of-IsBucket n k [] p e = absurd (ground arith)
bucket_of-IsBucket n k ((j, x) ∷ d) {b} p e =
    ground (arith, key_eqb_iff j k, bucket_of-IsBucket n k d {b = b} p.2)

pub bucket_of-set_other :
    (k j : Key) (b : Bucket) (d : Idle)
    → bucket_of j (set_bucket k b d) ≡ (if key_eqb k j then some b else bucket_of j d)
unfolding bucket_of set_bucket
bucket_of-set_other k j b [] = refl
bucket_of-set_other k j b ((i, x) ∷ d) =
    ground (arith, key_eqb_iff i k, key_eqb_iff i j, key_eqb_iff k j, bucket_of-set_other k j b d)

pub set_bucket-IsPool :
    (n : ℕ) (k : Key) (b : Bucket) (d : Idle)
    → IsBucket n k b
    → IsPool n d
    → IsPool n (set_bucket k b d)
unfolding set_bucket bucket_of
set_bucket-IsPool n k b [] h p = (h, refl, tt)
set_bucket-IsPool n k b ((j, x) ∷ d) h p = elim (Bool-cases (key_eqb j k)) [
  | inl e ↦ ground (arith, key_eqb_iff j k)
  | inr e ↦ rw e (
    p.0,
    ground (arith, bucket_of-set_other k j b d, key_eqb_iff k j, key_eqb_iff j k),
    set_bucket-IsPool n k b d h p.2,
  )
]

del_bucket-none :
    (k j : Key) (d : Idle) → bucket_of j d ≡ none → bucket_of j (del_bucket k d) ≡ none
unfolding bucket_of del_bucket
del_bucket-none k j [] h = refl
del_bucket-none k j ((i, x) ∷ d) h = ground (arith, del_bucket-none k j d)

del_bucket-IsPool : (n : ℕ) (k : Key) (d : Idle) → IsPool n d → IsPool n (del_bucket k d)
unfolding del_bucket
del_bucket-IsPool n k [] p = tt
del_bucket-IsPool n k ((j, x) ∷ d) p = elim (Bool-cases (key_eqb j k)) [
  | inl e ↦ rw e p.2
  | inr e ↦ rw e (p.0, del_bucket-none k j d p.1, del_bucket-IsPool n k d p.2)
]

store_rest-IsPool :
    (n : ℕ) (k : Key) (b : Bucket) (d : Idle)
    → length b ≤ n
    → OfKey k b
    → IsPool n d
    → IsPool n (store_rest k b d)
store_rest-IsPool n k [] d l o p = del_bucket-IsPool n k d p
store_rest-IsPool n k (e ∷ es) d l o p = set_bucket-IsPool n k (e ∷ es) d (omega arith, l, o) p

OfKey-append : (k : Key) (xs ys : Bucket) → OfKey k (xs ++ ys) ↔ (OfKey k xs × OfKey k ys)
OfKey-append k [] ys = (λ h. (tt, h), λ h. h.1)
OfKey-append k (x ∷ xs) ys = (
  λ h. let (a, b) = (OfKey-append k xs ys).0 h.1 in ((h.0, a), b),
  λ h. (h.0.0, (OfKey-append k xs ys).1 (h.0.1, h.1)),
)

-- The bucket of a key, or the new one that `setdefault` would make.
or_new-OfKey :
    (n : ℕ) (k : Key) (d : Idle)
    → IsPool n d
    → (length (or_new (bucket_of k d)) ≤ n) × OfKey k (or_new (bucket_of k d))
or_new-OfKey n k d p = elim (Option-cases (bucket_of k d)) [
  | inl e ↦ rw e (omega arith, tt)
  | inr (b, e) ↦ let q = bucket_of-IsBucket n k d p e in rw e (q.1, q.2)
]

evict-length : (n : ℕ) (b : Bucket) → 0 < n → length (evict n b).0 < n
unfolding evict
evict-length n [] h = h
evict-length n (e ∷ es) h = ground (arith, evict-length n es)

evict-OfKey : (n : ℕ) (k : Key) (b : Bucket) → OfKey k b → OfKey k (evict n b).0
unfolding evict
evict-OfKey n k [] o = tt
evict-OfKey n k (e ∷ es) o = ground (arith, evict-OfKey n k es)

-- A release keeps the pool well-formed: the bucket of the released connection has at most the
-- configured number of entries afterwards, and all of that key.
pub put_idle-IsPool :
    (n : ℕ) (e : Entry) (idle : Idle) → 0 < n → IsPool n idle → IsPool n (put_idle n e idle).0
unfolding put_idle
put_idle-IsPool n e idle h p =
    let b = or_new (bucket_of e.key idle) in
    let (l, o) = or_new-OfKey n e.key idle p in
    set_bucket-IsPool n e.key _ idle
      (
        omega (arith, length-append (evict n b).0 (e ∷ [])),
        omega (arith, length-append (evict n b).0 (e ∷ []), evict-length n b),
        (OfKey-append e.key (evict n b).0 (e ∷ [])).1 (evict-OfKey n e.key b o, (refl, tt)),
      )
      p

Scanned-keys :
    (usable : Entry → Bool) (n : ℕ) (k : Key) (b : Bucket) (sel : Option Entry) (stale : List Entry)
    (rest : Bucket)
    → length b ≤ n
    → OfKey k b
    → Scanned usable b sel stale rest
    → (length rest ≤ n)
      × OfKey k rest
      × ((e : Entry) → sel ≡ some e → (e.key ≡ k) × (usable e ≡ true))
Scanned-keys usable n k b none stale rest l o s =
    rw s.0 (omega arith, tt, λ e h. absurd (ground arith))
Scanned-keys usable n k b (some x) stale rest l o (newer, split, st, us, un) =
    let (o-rest, o-x) = (OfKey-append k rest (x ∷ newer)).0 (rw split at o) in
    (omega (arith, ap length split, length-append rest (x ∷ newer)), o-rest, λ e h. ground arith)

-- A checkout keeps the pool well-formed, and what it selects is usable and of the key asked for.
pub take_idle-IsPool :
    (n : ℕ) (usable : Entry → Bool) (k : Key) (idle : Idle)
    → IsPool n idle
    → let (selected, stale, idle') = take_idle usable k idle in
      IsPool n idle' × ((e : Entry) → selected ≡ some e → (e.key ≡ k) × (usable e ≡ true))
take_idle-IsPool n usable k idle p =
    let (rest, scanned, which) = take_idle-Scanned usable k idle in
    let (l, o) = or_new-OfKey n k idle p in
    let (l', o', found) = Scanned-keys usable n k _ _ _ rest l o scanned in
    elim which [
      | inl (_, same) ↦ (rw same p, found)
      | inr stored ↦ (rw stored (store_rest-IsPool n k rest idle l' o' p), found)
    ]
