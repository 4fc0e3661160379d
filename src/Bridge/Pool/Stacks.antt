-- ===== src/Bridge/Pool/Stacks.antt =====
-- websocket_bridge.py: bounded stacks of connections, the newest on top, and the pool's dict of
-- buckets as such stacks.
use mathlib.Core.Path.{fun_ext, ap₂}
use mathlib.Core.List.{reverse, reverse-cons, reverse-append, reverse-reverse}
use codex_reset_proxy.Prelude.{
  ℕ, zero, suc, ◌-◌, ◌≤◌, ◌≡◌, refl, sym, ap, ◌∙◌, Bool, Option, none, some, List, [], ◌∷◌, ◌++◌,
  if◌then◌else◌, inl, inr, arith, length, take, drop, Bool-cases, Option-cases, ◌⊎◌, length-append,
  take-append, drop-append, leb,
}
use codex_reset_proxy.Bridge.Pool.{
  Key, key_eqb, Entry, Bucket, Idle, bucket_of, set_bucket, del_bucket, scan, scan_step, take_idle,
  evict, put_idle, or_new, store_rest,
}
use codex_reset_proxy.Bridge.Pool.Selection.{evict-split}
use codex_reset_proxy.Bridge.Pool.Dict.{key_eqb_iff}
use codex_reset_proxy.Bridge.Pool.Invariant.{bucket_of-set_other, IsPool}

-- A stack for each key.
abbrev pub Stacks : Type 0
Stacks = Key → List Entry

abbrev pub pop : (Entry → Bool) → List Entry → Option Entry × List Entry × List Entry
pop usable [] = (none, [], [])
pop usable (e ∷ es) =
    if usable e
    then (some e, [], es)
    else let (found, stale, rest) = pop usable es in (found, e ∷ stale, rest)

abbrev pub replace : Key → List Entry → Stacks → Stacks
replace k es st j = if key_eqb k j then es else st j

-- What a checkout promises: the first usable entry from the top, and those above it thrown away.
abbrev pub take_from : (Entry → Bool) → Key → Stacks → Option Entry × List Entry × Stacks
take_from usable k st =
    let (found, stale, rest) = pop usable (st k) in (found, stale, replace k rest st)

-- What a release promises: the entry on top, and the oldest ones thrown away beyond the bound.
abbrev pub put_onto : ℕ → Entry → Stacks → Stacks × List Entry
put_onto n e st =
    (replace e.key (e ∷ take (n - 1) (st e.key)) st, reverse (drop (n - 1) (st e.key)))

-- The stacks that a dict of buckets stands for.
abbrev pub view : Idle → Stacks
view idle k = reverse (or_new (bucket_of k idle))

abbrev onto_last :
    (Entry → Bool)
    → Entry
    → Option Entry × List Entry × List Entry
    → Option Entry × List Entry × List Entry
onto_last usable e (some s, stale, rest) = (some s, stale, rest ++ e ∷ [])
onto_last usable e (none, stale, rest) =
    if usable e then (some e, stale, []) else (none, stale ++ e ∷ [], [])

pop-last :
    (usable : Entry → Bool) (es : List Entry) (e : Entry)
    → pop usable (es ++ e ∷ []) ≡ onto_last usable e (pop usable es)
pop-last usable [] e = ground arith
pop-last usable (x ∷ es) e = elim (Bool-cases (usable x)) [
  | inl taken ↦ rw taken refl
  | inr passed ↦ rw (passed, pop-last usable es e) (above (pop usable es))
]
  where
    above :
        (r : Option Entry × List Entry × List Entry)
        → (let (found, stale, rest) = onto_last usable e r in (found, x ∷ stale, rest))
          ≡ onto_last usable e (let (found, stale, rest) = r in (found, x ∷ stale, rest))
    above (some s, stale, rest) = refl
    above (none, stale, rest) = elim (Bool-cases (usable e)) [
      | inl t ↦ rw t refl
      | inr f ↦ rw f refl
    ]

scan_step-onto :
    (usable : Entry → Bool) (e : Entry) (selected : Option Entry) (stale : List Entry)
    (rest : Bucket)
    → let r = scan_step (usable e) e selected stale rest in
      onto_last usable e (selected, stale, reverse rest) ≡ (r.selected, r.stale, reverse r.rest)
scan_step-onto usable e (some s) stale rest =
    ap (λ (x : List Entry). (some s, stale, x)) (sym (reverse-cons e rest))
scan_step-onto usable e none stale rest = elim (Bool-cases (usable e)) [
  | inl t ↦ rw t refl
  | inr f ↦ rw f refl
]

scan-pop :
    (usable : Entry → Bool) (b : Bucket)
    → let r = scan usable b in pop usable (reverse b) ≡ (r.selected, r.stale, reverse r.rest)
unfolding scan
scan-pop usable [] = refl
scan-pop usable (e ∷ es) =
    ap (pop usable) (reverse-cons e es)
    ∙ pop-last usable (reverse es) e
    ∙ ap (onto_last usable e) (scan-pop usable es)
    ∙ scan_step-onto usable e _ _ _

length-reverse : (b : List Entry) → length (reverse b) ≡ length b
length-reverse [] = refl
length-reverse (e ∷ es) =
    ap length (reverse-cons e es)
    ∙ omega (arith, length-append (reverse es) (e ∷ []), length-reverse es)

take_all : (n : ℕ) (b : List Entry) → length b ≤ n → (take n b ≡ b) × (drop n b ≡ [])
take_all zero [] h = (refl, refl)
take_all zero (e ∷ es) h = absurd (omega (arith, h))
take_all (suc n) [] h = (refl, refl)
take_all (suc n) (e ∷ es) h = let (t, d) = take_all n es (omega (arith, h)) in (ap (◌∷◌ e) t, d)

-- What eviction keeps has the size of the bound less one, unless nothing is evicted.
evict-size :
    (n : ℕ) (b : Bucket)
    → (length (evict n b).0 ≡ n - 1) ⊎ (((evict n b).1 ≡ []) × (length (evict n b).0 ≤ n - 1))
unfolding evict
evict-size n [] = inr (refl, omega arith)
evict-size n (e ∷ es) = elim (Bool-cases (leb n (length (e ∷ es)))) [
  | inl full ↦ rw full (elim (evict-size n es) [
    | inl exact ↦ inl exact
    | inr (nil, le) ↦
        let same : length es ≡ length (evict n es).0 =
          ap length (evict-split n es)
          ∙ ap (λ (x : List Entry). length (x ++ (evict n es).0)) nil in
        inl (ground (arith, full, le, same))
  ])
  | inr fits ↦ rw fits (inr (refl, ground arith))
]

stack_cut :
    (n : ℕ) (older kept : Bucket)
    → (length kept ≡ n - 1) ⊎ ((older ≡ []) × (length kept ≤ n - 1))
    → (take (n - 1) (reverse (older ++ kept)) ≡ reverse kept)
      × (reverse (drop (n - 1) (reverse (older ++ kept))) ≡ older)
stack_cut n older kept (inl exact) =
    let size : n - 1 ≡ length (reverse kept) = sym exact ∙ sym (length-reverse kept) in
    rw (reverse-append older kept, size)
      (
        take-append (reverse kept) (reverse older),
        ap reverse (drop-append (reverse kept) (reverse older)) ∙ reverse-reverse older,
      )
stack_cut n older kept (inr (nil, le)) =
    let (t, d) = take_all (n - 1) (reverse kept) (omega (arith, le, length-reverse kept)) in
    rw nil (t, ap reverse d)

evict-stack :
    (n : ℕ) (b : Bucket)
    → (take (n - 1) (reverse b) ≡ reverse (evict n b).0)
      × (reverse (drop (n - 1) (reverse b)) ≡ (evict n b).1)
evict-stack n b =
    let (t, d) = stack_cut n (evict n b).1 (evict n b).0 (evict-size n b) in
    let split = ap reverse (evict-split n b) in
    (ap (take (n - 1)) split ∙ t, ap (λ (x : List Entry). reverse (drop (n - 1) x)) split ∙ d)

view-set :
    (k : Key) (b : Bucket) (idle : Idle) (j : Key)
    → view (set_bucket k b idle) j ≡ replace k (reverse b) (view idle) j
view-set k b idle j =
    ap (λ (o : Option Bucket). reverse (or_new o)) (bucket_of-set_other k j b idle)
    ∙ (elim (Bool-cases (key_eqb k j)) [ inl same ↦ rw same refl | inr other ↦ rw other refl ])

bucket_of-del :
    (n : ℕ) (k j : Key) (idle : Idle)
    → IsPool n idle
    → bucket_of j (del_bucket k idle) ≡ (if key_eqb k j then none else bucket_of j idle)
unfolding bucket_of del_bucket
bucket_of-del n k j [] p = ground arith
bucket_of-del n k j ((i, x) ∷ d) p =
    ground
      (arith, key_eqb_iff i k, key_eqb_iff i j, key_eqb_iff k j, bucket_of-del n k j d p.2, p.1)

view-store_rest :
    (n : ℕ) (k : Key) (rest : Bucket) (idle : Idle) (j : Key)
    → IsPool n idle
    → view (store_rest k rest idle) j ≡ replace k (reverse rest) (view idle) j
view-store_rest n k (e ∷ es) idle j p = view-set k (e ∷ es) idle j
view-store_rest n k [] idle j p =
    ap (λ (o : Option Bucket). reverse (or_new o)) (bucket_of-del n k j idle p)
    ∙ (elim (Bool-cases (key_eqb k j)) [ inl same ↦ rw same refl | inr other ↦ rw other refl ])

view-absent :
    (k : Key) (idle : Idle) → bucket_of k idle ≡ none → view idle ≡ replace k [] (view idle)
view-absent k idle h = fun_ext λ j. elim (Bool-cases (key_eqb k j)) [
  | inl same ↦ rw same (
      ap (λ (i : Key). view idle i) (sym ((key_eqb_iff k j).0 same))
      ∙ ap (λ (o : Option Bucket). reverse (or_new o)) h)
  | inr other ↦ rw other refl
]

abbrev viewed : Option Entry × List Entry × Idle → Option Entry × List Entry × Stacks
viewed (found, stale, idle) = (found, stale, view idle)

pub take_idle-view :
    (n : ℕ) (usable : Entry → Bool) (k : Key) (idle : Idle)
    → IsPool n idle
    → viewed (take_idle usable k idle) ≡ take_from usable k (view idle)
unfolding take_idle
take_idle-view n usable k idle p = elim (Option-cases (bucket_of k idle)) [
  | inl e ↦ rw (e, take_idle) (ap (λ (st : Stacks). (none, [], st)) (view-absent k idle e))
  | inr (b, e) ↦
      rw (e, take_idle)
        (rw (scan-pop usable b) (
          ap (λ (st : Stacks). ((scan usable b).selected, (scan usable b).stale, st))
            (fun_ext λ j. view-store_rest n k (scan usable b).rest idle j p)))
]

pub put_idle-view :
    (n : ℕ) (e : Entry) (idle : Idle)
    → (view (put_idle n e idle).0, (put_idle n e idle).1) ≡ put_onto n e (view idle)
unfolding put_idle
put_idle-view n e idle =
    let b = or_new (bucket_of e.key idle) in
    let (kept, older) = evict-stack n b in
    let top : reverse ((evict n b).0 ++ e ∷ []) ≡ e ∷ take (n - 1) (reverse b) =
      reverse-append (evict n b).0 (e ∷ []) ∙ ap (◌∷◌ e) (sym kept) in
    ap₂ (λ (st : Stacks) (es : List Entry). (st, es))
      (fun_ext λ j.
        view-set e.key ((evict n b).0 ++ e ∷ []) idle j
        ∙ ap (λ (es : List Entry). replace e.key es (view idle) j) top)
      (sym older)
