-- ===== src/Bridge/Pool.antt =====
-- websocket_bridge.py: the idle connections of `WebSocketBridgePool`, and what each of its critical
-- sections (the code under `async with self._lock`) does to them.
pub mod Dict
pub mod Invariant
pub mod Selection
pub mod Stacks
pub mod Refinement
use codex_reset_proxy.Prelude.{
  ℕ, ◌-◌, Bool, true, false, not, ◌&&◌, ◌||◌, Option, none, some, List, [], ◌∷◌, ◌++◌, leb, ltb,
  length, if◌then◌else◌,
}
use codex_reset_proxy.Text.{Text, eqb}

pub record Key : Type 0 where
  pub url : Text
  pub identity_digest : Text

unfoldable pub key_eqb : Key → Key → Bool
key_eqb k j = eqb k.url j.url && eqb k.identity_digest j.identity_digest

-- IdleWebSocketBridge. A number names the connection: its `websocket` and its `context`.
pub record Entry : Type 0 where
  pub context : ℕ
  pub key : Key
  pub created_at : ℕ
  pub last_used_at : ℕ

-- A bucket is the Python list: oldest entry first.
abbrev pub Bucket : Type 0
Bucket = List Entry

-- self._idle
abbrev pub Idle : Type 0
Idle = List (Key × Bucket)

-- self._idle.get(key)
unfoldable pub bucket_of : Key → Idle → Option Bucket
bucket_of k [] = none
bucket_of k ((j, b) ∷ d) = if key_eqb j k then some b else bucket_of k d

-- self._idle[key] = bucket, in place where the key is there
unfoldable pub set_bucket : Key → Bucket → Idle → Idle
set_bucket k b [] = (k, b) ∷ []
set_bucket k b ((j, c) ∷ d) = if key_eqb j k then (j, b) ∷ d else (j, c) ∷ set_bucket k b d

-- self._idle.pop(key, None)
unfoldable pub del_bucket : Key → Idle → Idle
del_bucket k [] = []
del_bucket k ((j, c) ∷ d) = if key_eqb j k then d else (j, c) ∷ del_bucket k d

-- What a scan of a bucket gives: the entry found, those discarded in the order of their removal,
-- and what stays.
pub record Scan : Type 0 where
  pub selected : Option Entry
  pub stale : List Entry
  pub rest : Bucket

-- One candidate, behind what the newer entries gave: an entry found earlier ends the loop, a usable
-- one ends it here, and any other is stale.
abbrev pub scan_step : Bool → Entry → Option Entry → List Entry → Bucket → Scan
scan_step usable e (some s) stale rest = record {
  selected = some s;
  stale = stale;
  rest = e ∷ rest;
}
scan_step true e none stale rest = record { selected = some e; stale = stale; rest = [] }
scan_step false e none stale rest = record { selected = none; stale = stale ++ e ∷ []; rest = [] }

-- while bucket: candidate = bucket.pop() ...
-- The entries behind the head are popped before it.
unfoldable pub scan : (Entry → Bool) → Bucket → Scan
scan usable [] = record { selected = none; stale = []; rest = [] }
scan usable (e ∷ es) =
    let later = scan usable es in scan_step (usable e) e later.selected later.stale later.rest

-- if bucket == []: self._idle.pop(key, None)
abbrev pub store_rest : Key → Bucket → Idle → Idle
store_rest k [] idle = del_bucket k idle
store_rest k (e ∷ es) idle = set_bucket k (e ∷ es) idle

-- The critical section of `_checkout`.
unfoldable pub take_idle : (Entry → Bool) → Key → Idle → Option Entry × List Entry × Idle
unfolding scan
take_idle usable k idle = elim (bucket_of k idle) [
  | none ↦ (none, [], idle)
  | some bucket ↦
      let found = scan usable bucket in (found.selected, found.stale, store_rest k found.rest idle)
]

-- while len(bucket) >= max_idle: close_later.append(bucket.pop(0))
unfoldable pub evict : ℕ → Bucket → Bucket × List Entry
evict max_idle [] = ([], [])
evict max_idle (e ∷ es) =
    let later = evict max_idle es in
    if leb max_idle (length (e ∷ es)) then (later.0, e ∷ later.1) else (e ∷ es, [])

abbrev pub or_new : Option Bucket → Bucket
or_new none = []
or_new (some b) = b

-- The critical section of `release`: the new idle connections, and the entries to close.
unfoldable pub put_idle : ℕ → Entry → Idle → Idle × List Entry
unfolding evict
put_idle max_idle entry idle =
    let kept = evict max_idle (or_new (bucket_of entry.key idle)) in
    (set_bucket entry.key (kept.0 ++ entry ∷ []) idle, kept.1)

-- The critical section of `aclose`: all entries, and the empty dict.
unfoldable pub drain : Idle → List Entry
drain [] = []
drain ((k, b) ∷ d) = b ++ drain d

-- `_is_idle_entry_usable`, with `now` and what `_websocket_appears_open` says of the connection
unfoldable pub is_usable : ℕ → ℕ → (ℕ → Bool) → Entry → Bool
is_usable idle_timeout now appears_open entry =
    if ltb idle_timeout (now - entry.last_used_at) then false else appears_open entry.context
