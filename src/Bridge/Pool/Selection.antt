-- ===== src/Bridge/Pool/Selection.antt =====
-- websocket_bridge.py: which entry a checkout takes, which it discards, and their number.
use mathlib.Core.List.{reverse, reverse-cons}
use codex_reset_proxy.Prelude.{
  ℕ, ◌+◌, Bool, true, false, Option, none, some, List, [], ◌∷◌, ◌++◌, ◌≡◌, refl, ap, sym, ◌∙◌, ◌⊎◌,
  inl, inr, arith, Option-cases, All,
}
use codex_reset_proxy.Bridge.Pool.{
  Key, Entry, Bucket, Idle, bucket_of, scan, scan_step, take_idle, evict, put_idle, or_new,
  store_rest,
}
use codex_reset_proxy.Bridge.Pool.Dict.{
  count, count-append, idle_count, idle_count-set, idle_count-store_rest,
}

abbrev pub Unusable : (Entry → Bool) → List Entry → Type 0
Unusable usable = All (λ e. usable e ≡ false)

-- A scan from the newest entry back: it discards, newest first, the unusable entries newer than the
-- one it takes, and leaves the older ones.
abbrev pub Scanned : (Entry → Bool) → Bucket → Option Entry → List Entry → Bucket → Type 0
Scanned usable b none stale rest = (rest ≡ []) × (stale ≡ reverse b) × Unusable usable b
Scanned usable b (some s) stale rest =
    (newer : List Entry) × (b ≡ rest ++ s ∷ newer)
    × (stale ≡ reverse newer)
    × (usable s ≡ true)
    × Unusable usable newer

scan_step-Scanned :
    (usable : Entry → Bool) (e : Entry) (es : Bucket) (u : Bool) (sel : Option Entry)
    (stale : List Entry) (rest : Bucket)
    → usable e ≡ u
    → Scanned usable es sel stale rest
    → let r = scan_step u e sel stale rest in Scanned usable (e ∷ es) r.selected r.stale r.rest
scan_step-Scanned usable e es u (some s) stale rest t (newer, split, st, us, un) =
    (newer, ap (◌∷◌ e) split, st, us, un)
scan_step-Scanned usable e es true none stale rest t (nil, st, un) = (es, refl, st, t, un)
scan_step-Scanned usable e es false none stale rest t (nil, st, un) =
    (refl, ap (λ (x : List Entry). x ++ e ∷ []) st ∙ sym (reverse-cons e es), (t, un))

scan-Scanned :
    (usable : Entry → Bool) (b : Bucket)
    → let r = scan usable b in Scanned usable b r.selected r.stale r.rest
unfolding scan
scan-Scanned usable [] = (refl, refl, tt)
scan-Scanned usable (e ∷ es) =
    scan_step-Scanned usable e es (usable e) _ _ _ refl (scan-Scanned usable es)

-- What a checkout does, for every bucket of its key: it takes the newest usable connection, or none
-- if none is usable; the entries newer than it, all unusable, are handed over for closing. The older
-- entries are what stays in the bucket, which goes when none is left; without a bucket of the key the
-- pool stays as it is.
pub take_idle-Scanned :
    (usable : Entry → Bool) (k : Key) (idle : Idle)
    → let (selected, stale, idle') = take_idle usable k idle in
      (rest : Bucket) × Scanned usable (or_new (bucket_of k idle)) selected stale rest
      × (((bucket_of k idle ≡ none) × (idle' ≡ idle)) ⊎ (idle' ≡ store_rest k rest idle))
unfolding take_idle
take_idle-Scanned usable k idle = elim (Option-cases (bucket_of k idle)) [
  | inl e ↦ rw (e, take_idle) ([], (refl, refl, tt), inl (refl, refl))
  | inr (b, e) ↦ rw (e, take_idle) ((scan usable b).rest, scan-Scanned usable b, inr refl)
]

abbrev pub chosen : Option Entry → List Entry
chosen none = []
chosen (some e) = e ∷ []

count-scan_step :
    (c : ℕ) (u : Bool) (e : Entry) (sel : Option Entry) (stale : List Entry) (rest : Bucket)
    → let r = scan_step u e sel stale rest in
      (sel ≡ none → rest ≡ [])
      → count c (chosen r.selected) + count c r.stale + count c r.rest
        ≡ count c (chosen sel) + count c stale + count c rest + count c (e ∷ [])
count-scan_step c u e (some s) stale rest h = omega arith
count-scan_step c true e none stale rest h = omega (arith, ap (count c) (h refl))
count-scan_step c false e none stale rest h =
    omega (arith, ap (count c) (h refl), count-append c stale (e ∷ []))

scan-none :
    (usable : Entry → Bool) (b : Bucket)
    → (scan usable b).selected ≡ none
    → (scan usable b).rest ≡ []
scan-none usable b h = go _ _ _ h (scan-Scanned usable b)
  where
    go :
        (sel : Option Entry) (stale : List Entry) (rest : Bucket)
        → sel ≡ none
        → Scanned usable b sel stale rest
        → rest ≡ []
    go none stale rest e s = s.0
    go (some x) stale rest e s = absurd (ground arith)

count-scan :
    (c : ℕ) (usable : Entry → Bool) (b : Bucket)
    → count c (chosen (scan usable b).selected)
        + count c (scan usable b).stale
        + count c (scan usable b).rest
      ≡ count c b
unfolding scan
count-scan c usable [] = refl
count-scan c usable (e ∷ es) =
    omega
      (arith, count-scan c usable es, count-scan_step c (usable e) e _ _ _ (scan-none usable es))

-- A checkout loses no connection and makes none up: each is taken, handed over for closing, or stays.
pub take_idle-count :
    (c : ℕ) (usable : Entry → Bool) (k : Key) (idle : Idle)
    → let (selected, stale, idle') = take_idle usable k idle in
      count c (chosen selected) + count c stale + idle_count c idle' ≡ idle_count c idle
unfolding take_idle
take_idle-count c usable k idle = elim (Option-cases (bucket_of k idle)) [
  | inl e ↦ rw (e, take_idle) (omega arith)
  | inr (b, e) ↦
      rw (e, take_idle)
        (omega (
          arith,
          count-scan c usable b,
          rw e at (idle_count-store_rest c k (scan usable b).rest idle),
        ))
]

pub evict-split : (n : ℕ) (b : Bucket) → b ≡ (evict n b).1 ++ (evict n b).0
unfolding evict
evict-split n [] = refl
evict-split n (e ∷ es) = ground (arith, evict-split n es)

-- A release puts the connection into its bucket, and of all those pooled loses only what it hands
-- over for closing.
pub put_idle-count :
    (c n : ℕ) (e : Entry) (idle : Idle)
    → let (idle', evicted) = put_idle n e idle in
      idle_count c idle' + count c evicted ≡ idle_count c idle + count c (e ∷ [])
unfolding put_idle
put_idle-count c n e idle =
    let b = or_new (bucket_of e.key idle) in
    omega (
      arith,
      idle_count-set c e.key ((evict n b).0 ++ e ∷ []) idle,
      count-append c (evict n b).0 (e ∷ []),
      ap (count c) (evict-split n b),
      count-append c (evict n b).1 (evict n b).0,
    )
