-- ===== src/Socks/Net.antt =====
-- Two peers with a stream in either direction, whose steps interleave in any order.
use codex_reset_proxy.Prelude.{
  ℕ, zero, suc, ◌+◌, ◌≡◌, ◌≤◌, refl, sym, ap, ◌∙◌, false, Option, none, some, [], ◌∷◌, ◌++◌, ltb,
  if◌then◌else◌, length, take, drop, arith, Bool-cases, inl, inr, ◌⊎◌, append-nil, length-append,
  take-append, drop-append,
}
use mathlib.Core.Option.{some-injective}
use codex_reset_proxy.Text.{Text}
use codex_reset_proxy.Socks.{Proc, ret, fail, send, receive}

-- One step of a peer, from the bytes that have arrived: what it becomes, the bytes it leaves, and
-- those it writes. A peer that waits for more has none.
unfoldable pub advance : {A : Type 0} → Proc A → Text → Option (Proc A × Text × Text)
advance (ret a) s = none
advance (fail e) s = none
advance (send bytes p) s = some (p, s, bytes)
advance (receive n p closed) s =
    if ltb (length s) n then none else some (p (take n s), drop n s, [])

-- The client, the server, the bytes on their way to the server, and those to the client.
pub data Net (A B : Type 0) : Type 0 where
  net : Proc A → Proc B → Text → Text → Net A B

module _ {A B : Type 0} where
  abbrev pub client_to : Proc B → Text → Proc A × Text × Text → Net A B
  client_to server up (client, down, written) = net client server (up ++ written) down

  abbrev pub server_to : Proc A → Text → Proc B × Text × Text → Net A B
  server_to client down (server, up, written) = net client server up (down ++ written)

  pub data Step : Net A B → Net A B → Type 0 where
    client_moves :
        (client : Proc A) (server : Proc B) (up down : Text) (t : Proc A × Text × Text)
        → advance client down ≡ some t
        → Step (net client server up down) (client_to server up t)
    server_moves :
        (client : Proc A) (server : Proc B) (up down : Text) (t : Proc B × Text × Text)
        → advance server up ≡ some t
        → Step (net client server up down) (server_to client down t)

  -- A run of so many steps.
  pub data Run : ℕ → Net A B → Net A B → Type 0 where
    stop : {a : Net A B} → Run 0 a a
    step : {n : ℕ} {a b c : Net A B} → Step a b → Run n b c → Run (suc n) a c

pub take-early : (n : ℕ) (s more : Text) → n ≤ length s → take n (s ++ more) ≡ take n s
take-early zero s more h = refl
take-early (suc n) [] more h = ground (arith, h)
take-early (suc n) (c ∷ s) more h = ap (◌∷◌ c) (take-early n s more (omega arith))

pub drop-early : (n : ℕ) (s more : Text) → n ≤ length s → drop n (s ++ more) ≡ drop n s ++ more
drop-early zero s more h = refl
drop-early (suc n) [] more h = ground (arith, h)
drop-early (suc n) (c ∷ s) more h = drop-early n s more (omega arith)

module _ {A : Type 0} where
  advance-read :
      (bytes rest : Text) (p : Text → Proc A) (closed : Proc A)
      → advance (receive (length bytes) p closed) (bytes ++ rest) ≡ some (p bytes, rest, [])
  unfolding advance
  advance-read bytes rest p closed =
      let all : ltb (length (bytes ++ rest)) (length bytes) ≡ false =
        ground (arith, length-append bytes rest) in
      rw (all, take-append bytes rest, drop-append bytes rest)

  -- What arrives later changes nothing in a step that can be made.
  advance-append :
      (p : Proc A) (s more : Text) (t : Proc A × Text × Text)
      → advance p s ≡ some t
      → advance p (s ++ more) ≡ some (t.0, t.1 ++ more, t.2)
  unfolding advance
  advance-append (ret a) s more t e = grind (arith, e)
  advance-append (fail x) s more t e = grind (arith, e)
  advance-append (send bytes p) s more t e =
      ap (λ (t : Proc A × Text × Text). some (t.0, t.1 ++ more, t.2)) (some-injective _ _ e)
  advance-append (receive n p closed) s more t e = elim (Bool-cases (ltb (length s) n)) [
    | inl short ↦ let never = rw short at e in grind (arith, never)
    | inr enough ↦
        let later : ltb (length (s ++ more)) n ≡ false = ground (arith, length-append s more) in
        let taken = some-injective _ _ (rw enough at e) in
        rw (later, take-early n s more (ground arith), drop-early n s more (ground arith))
          (ap (λ (t : Proc A × Text × Text). some (t.0, t.1 ++ more, t.2)) taken)
  ]

module _ {A B : Type 0} where
  -- A step of either side leaves the other's possible.
  met :
      (p : Proc A) (q : Proc B) (up down : Text) (t : Proc A × Text × Text)
      (u : Proc B × Text × Text)
      → advance p down ≡ some t
      → advance q up ≡ some u
      → (d : Net A B) × Step (client_to q up t) d × Step (server_to p down u) d
  met p q up down t u e f = (
    net t.0 u.0 (u.1 ++ t.2) (t.1 ++ u.2),
    server_moves t.0 q (up ++ t.2) t.1 (u.0, u.1 ++ t.2, u.2) (advance-append q up t.2 u f),
    client_moves p u.0 u.1 (down ++ u.2) (t.0, t.1 ++ u.2, t.2) (advance-append p down u.2 t e),
  )

  -- Two steps from one state lead to the same state, or each to one from which a step leads to a
  -- common one.
  diamond :
      {a b c : Net A B} → Step a b → Step a c → (b ≡ c) ⊎ ((d : Net A B) × Step b d × Step c d)
  diamond (client_moves p q up down t e) (client_moves _ _ _ _ u f) =
      inl (ap (client_to q up) (some-injective _ _ (sym e ∙ f)))
  diamond (server_moves p q up down t e) (server_moves _ _ _ _ u f) =
      inl (ap (server_to p down) (some-injective _ _ (sym e ∙ f)))
  diamond (client_moves p q up down t e) (server_moves _ _ _ _ u f) = inr (met p q up down t u e f)
  diamond (server_moves p q up down u f) (client_moves _ _ _ _ t e) =
      let (d, l, r) = met p q up down t u e f in inr (d, r, l)

  -- No step is left.
  abbrev pub IsQuiet : Net A B → Type 0
  IsQuiet (net p q up down) = (advance p down ≡ none) × (advance q up ≡ none)

  no_step : {a b : Net A B} → IsQuiet a → Step a b → ⊥
  no_step quiet (client_moves p q up down t e) = let never = sym quiet.0 ∙ e in grind (arith, never)
  no_step quiet (server_moves p q up down t e) = let never = sym quiet.1 ∙ e in grind (arith, never)

  after_step :
      {n : ℕ} {a b f : Net A B}
      → Run n a f
      → IsQuiet f
      → Step a b
      → (m : ℕ) × (n ≡ suc m) × Run m b f
  after_step stop quiet s = elim (no_step quiet s) [ ]
  after_step (step {n = n} r rs) quiet s = elim (diamond s r) [
    | inl same ↦ (n, refl, rw same rs)
    | inr (d, left, right) ↦
        let (m, e, run) = after_step rs quiet right in (suc m, ap suc e, step left run)
  ]

  -- If one order of the steps ends in a state without a further step, then so does every order: it
  -- takes as many steps, and whatever was done so far, the same state is still reached.
  pub settles :
      {n k : ℕ} {a b f : Net A B}
      → Run n a f
      → IsQuiet f
      → Run k a b
      → (m : ℕ) × (n ≡ k + m) × Run m b f
  settles {n = n} run quiet stop = (n, omega arith, run)
  settles {f = f} run quiet (step s ss) =
      let (m, e, later) = after_step run quiet s in
      let (left, e', last) = settles {n = m} {f = f} later quiet ss in
      (left, omega (arith, e, e'), last)

-- The steps of either side, put in front of a run.
module _ {A B : Type 0} {k : ℕ} {f : Net A B} where
  pub client_writes :
      (bytes : Text) (p : Proc A) (q : Proc B) (up down : Text)
      → Run k (net p q (up ++ bytes) down) f
      → Run (suc k) (net (send bytes p) q up down) f
  unfolding advance
  client_writes bytes p q up down run =
      step (client_moves (send bytes p) q up down (p, down, bytes) refl) run

  pub server_writes :
      (bytes : Text) (p : Proc A) (q : Proc B) (up down : Text)
      → Run k (net p q up (down ++ bytes)) f
      → Run (suc k) (net p (send bytes q) up down) f
  unfolding advance
  server_writes bytes p q up down run =
      step (server_moves p (send bytes q) up down (q, up, bytes) refl) run

  pub client_reads :
      (bytes rest : Text) (p : Text → Proc A) (closed : Proc A) (q : Proc B) (up : Text) {n : ℕ}
      → length bytes ≡ n
      → Run k (net (p bytes) q up rest) f
      → Run (suc k) (net (receive n p closed) q up (bytes ++ rest)) f
  client_reads bytes rest p closed q up e run = rw (sym e) (
      step
        (client_moves (receive (length bytes) p closed) q up (bytes ++ rest) (p bytes, rest, [])
          (advance-read bytes rest p closed))
        (rw append-nil run))

  pub server_reads :
      (bytes rest : Text) (p : Proc A) (q : Text → Proc B) (closed : Proc B) (down : Text) {n : ℕ}
      → length bytes ≡ n
      → Run k (net p (q bytes) rest down) f
      → Run (suc k) (net p (receive n q closed) (bytes ++ rest) down) f
  server_reads bytes rest p q closed down e run = rw (sym e) (
      step
        (server_moves p (receive (length bytes) q closed) (bytes ++ rest) down (q bytes, rest, [])
          (advance-read bytes rest q closed))
        (rw append-nil run))

  -- All that has arrived is read.
  pub server_reads_all :
      (bytes : Text) (p : Proc A) (q : Text → Proc B) (closed : Proc B) (down : Text) {n : ℕ}
      → length bytes ≡ n
      → Run k (net p (q bytes) [] down) f
      → Run (suc k) (net p (receive n q closed) bytes down) f
  server_reads_all bytes p q closed down e run =
      rw append-nil at (server_reads bytes [] p q closed down e run)

  pub client_reads_all :
      (bytes : Text) (p : Text → Proc A) (closed : Proc A) (q : Proc B) (up : Text) {n : ℕ}
      → length bytes ≡ n
      → Run k (net (p bytes) q up []) f
      → Run (suc k) (net (receive n p closed) q up bytes) f
  client_reads_all bytes p closed q up e run =
      rw append-nil at (client_reads bytes [] p closed q up e run)
