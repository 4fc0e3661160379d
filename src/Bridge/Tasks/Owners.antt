-- ===== src/Bridge/Tasks/Owners.antt =====
-- websocket_bridge.py: the keys for which the connections of a pool were opened.
use codex_reset_proxy.Prelude.{
  ℕ, suc, ◌<◌, ◌≡◌, refl, Bool, true, false, Option, none, some, List, [], ◌∷◌, ◌++◌, ◌==◌,
  if◌then◌else◌, arith, All, Bool-cases, inl, inr, leb, length,
}
use codex_reset_proxy.Bridge.Pool.{
  Key, Entry, Idle, Bucket, take_idle, put_idle, bucket_of, set_bucket, del_bucket, store_rest,
  or_new, key_eqb, evict,
}
use mathlib.Core.Option.{some-injective}
use codex_reset_proxy.Bridge.Pool.Selection.{Scanned, take_idle-Scanned}
use codex_reset_proxy.Bridge.Tasks.{
  Task, checks_out, discards, opens, serves, stores, shuts_down, closes, ended, lost,
}

-- `own c` is the key for which the connection c was opened, of those below `n`.
module _ (own : ℕ → Key) (n : ℕ) where
  abbrev pub IsFor : Key → ℕ → Type 0
  IsFor k c = (c < n) × (own c ≡ k)

  abbrev pub IsKept : List Entry → Type 0
  IsKept = All (λ e. IsFor e.key e.context)

  abbrev pub IsKeptIdle : Idle → Type 0
  IsKeptIdle [] = Unit {0}
  IsKeptIdle ((k, b) ∷ d) = IsKept b × IsKeptIdle d

  -- What a task is about to use was opened for the key of its request.
  abbrev pub IsOwn : ℕ → Task → Type 0
  IsOwn max_idle (discards k (some e) stale) = IsFor k e.context
  IsOwn max_idle (serves phase k c) = IsFor k c
  IsOwn max_idle (stores k c) = (0 < max_idle) × IsFor k c
  IsOwn max_idle _ = Unit {0}

  IsKept-append : (xs ys : List Entry) → IsKept xs → IsKept ys → IsKept (xs ++ ys)
  IsKept-append [] ys h k = k
  IsKept-append (x ∷ xs) ys h k = (h.0, IsKept-append xs ys h.1 k)

  IsKept-split : (xs ys : List Entry) → IsKept (xs ++ ys) → IsKept xs × IsKept ys
  IsKept-split [] ys h = (tt, h)
  IsKept-split (x ∷ xs) ys h = let (l, r) = IsKept-split xs ys h.1 in ((h.0, l), r)

  IsKept-bucket : (k : Key) (d : Idle) → IsKeptIdle d → IsKept (or_new (bucket_of k d))
  unfolding bucket_of
  IsKept-bucket k [] h = tt
  IsKept-bucket k ((j, b) ∷ d) h = elim (Bool-cases (key_eqb j k)) [
    | inl e ↦ rw e h.0
    | inr e ↦ rw e (IsKept-bucket k d h.1)
  ]

  IsKeptIdle-set :
      (k : Key) (b : Bucket) (d : Idle) → IsKept b → IsKeptIdle d → IsKeptIdle (set_bucket k b d)
  unfolding set_bucket
  IsKeptIdle-set k b [] h i = (h, tt)
  IsKeptIdle-set k b ((j, x) ∷ d) h i = elim (Bool-cases (key_eqb j k)) [
    | inl e ↦ rw e (h, i.1)
    | inr e ↦ rw e (i.0, IsKeptIdle-set k b d h i.1)
  ]

  IsKeptIdle-del : (k : Key) (d : Idle) → IsKeptIdle d → IsKeptIdle (del_bucket k d)
  unfolding del_bucket
  IsKeptIdle-del k [] i = tt
  IsKeptIdle-del k ((j, x) ∷ d) i = elim (Bool-cases (key_eqb j k)) [
    | inl e ↦ rw e i.1
    | inr e ↦ rw e (i.0, IsKeptIdle-del k d i.1)
  ]

  IsKeptIdle-store_rest :
      (k : Key) (b : Bucket) (d : Idle) → IsKept b → IsKeptIdle d → IsKeptIdle (store_rest k b d)
  IsKeptIdle-store_rest k [] d h i = IsKeptIdle-del k d i
  IsKeptIdle-store_rest k (e ∷ es) d h i = IsKeptIdle-set k (e ∷ es) d h i

  IsKept-evict : (m : ℕ) (b : Bucket) → IsKept b → IsKept (evict m b).0
  unfolding evict
  IsKept-evict m [] h = tt
  IsKept-evict m (e ∷ es) h = elim (Bool-cases (leb m (suc (length es)))) [
    | inl full ↦ rw full (IsKept-evict m es h.1)
    | inr fits ↦ rw fits h
  ]

  Scanned-IsKept :
      (usable : Entry → Bool) (b : Bucket) (selected : Option Entry) (stale : List Entry)
      (rest : Bucket)
      → Scanned usable b selected stale rest
      → IsKept b
      → IsKept rest × ((e : Entry) → selected ≡ some e → IsFor e.key e.context)
  Scanned-IsKept usable b none stale rest s h = (rw s.0 tt, λ e is. absurd (ground arith))
  Scanned-IsKept usable b (some x) stale rest (newer, split, _, _, _) h =
      let (older, kept) = IsKept-split rest (x ∷ newer) (rw split at h) in
      (older, λ e is. rw (some-injective _ _ is) at kept.0)

  pub take_idle-IsKept :
      (usable : Entry → Bool) (k : Key) (d : Idle)
      → IsKeptIdle d
      → let (selected, stale, d') = take_idle usable k d in
        IsKeptIdle d' × ((e : Entry) → selected ≡ some e → IsFor e.key e.context)
  take_idle-IsKept usable k d h =
      let (rest, scanned, which) = take_idle-Scanned usable k d in
      let (older, found) = Scanned-IsKept usable _ _ _ rest scanned (IsKept-bucket k d h) in
      elim which [
        | inl (_, same) ↦ (rw same h, found)
        | inr stored ↦ (rw stored (IsKeptIdle-store_rest k rest d older h), found)
      ]

  pub put_idle-IsKept :
      (m : ℕ) (e : Entry) (d : Idle)
      → IsFor e.key e.context
      → IsKeptIdle d
      → IsKeptIdle (put_idle m e d).0
  unfolding put_idle
  put_idle-IsKept m e d h i =
      IsKeptIdle-set e.key _ d
        (IsKept-append _ (e ∷ []) (IsKept-evict m _ (IsKept-bucket e.key d i)) (h, tt)) i

-- Opening one more connection changes none of this.
module _ (own : ℕ → Key) (n : ℕ) (j : Key) where
  abbrev pub own_new : ℕ → Key
  own_new c = if c == n then j else own c

  IsFor-grow : (k : Key) (c : ℕ) → IsFor own n k c → IsFor own_new (suc n) k c
  IsFor-grow k c (lt, e) =
      let old : (c == n) ≡ false = ground arith in (omega (arith, lt), rw old e)

  pub IsFor-new : IsFor own_new (suc n) j n
  IsFor-new = let new : (n == n) ≡ true = ground arith in (omega arith, rw new refl)

  IsKept-grow : (es : List Entry) → IsKept own n es → IsKept own_new (suc n) es
  IsKept-grow [] h = tt
  IsKept-grow (e ∷ es) h = (IsFor-grow e.key e.context h.0, IsKept-grow es h.1)

  pub IsKeptIdle-grow : (d : Idle) → IsKeptIdle own n d → IsKeptIdle own_new (suc n) d
  IsKeptIdle-grow [] h = tt
  IsKeptIdle-grow ((k, b) ∷ d) h = (IsKept-grow b h.0, IsKeptIdle-grow d h.1)

  pub IsOwn-grow : (m : ℕ) (t : Task) → IsOwn own n m t → IsOwn own_new (suc n) m t
  IsOwn-grow m (checks_out k) h = tt
  IsOwn-grow m (discards k none stale) h = tt
  IsOwn-grow m (discards k (some e) stale) h = IsFor-grow k e.context h
  IsOwn-grow m (opens k) h = tt
  IsOwn-grow m (serves phase k c) h = IsFor-grow k c h
  IsOwn-grow m (stores k c) h = (h.0, IsFor-grow k c h.1)
  IsOwn-grow m shuts_down h = tt
  IsOwn-grow m (closes es) h = tt
  IsOwn-grow m ended h = tt
  IsOwn-grow m (lost c) h = tt
