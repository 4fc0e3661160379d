-- ===== src/Http/Fuel.antt =====
-- socks_mitm.py: the fuel of `_read_chunked_body`.
use codex_reset_proxy.Prelude.{
  ℕ, zero, suc, ◌+◌, ◌-◌, ◌≤◌, ◌<◌, ◌≡◌, ◌≢◌, refl, Bool, true, false, Option, none, some, [], ◌∷◌,
  ◌++◌, ◌⊎◌, inl, inr, arith, ltb, ◌==◌, if◌then◌else◌, length, take, drop, Bool-cases, length-drop,
}
use codex_reset_proxy.Prelude.Int.{ℤ, pos, negsuc}
use codex_reset_proxy.Text.{
  Text, codes, elem, eqb, before, int_of, lstrip, rstrip, read_digits, drop_prefix,
}
use codex_reset_proxy.Http.{
  incomplete, limit_overrun, value_error, too_large, no_fuel, Read, got, fault, readexactly,
  cut_line, readline, stream_limit,
}
use codex_reset_proxy.Http.Request.{read_trailers, chunk_size, read_chunked, read_chunked_body}

abbrev IsFueled : {A : Type 0} → Read A → Type 0
IsFueled (fault no_fuel) = ⊥
IsFueled _ = Unit {0}

-- No more is left than there was, and less if something was read.
abbrev Consumes : Text → Read Text → Type 0
Consumes s (got l r) = length l + length r ≡ length s
Consumes s (fault no_fuel) = ⊥
Consumes s (fault _) = Unit {0}

abbrev CutsOff : Text → Option (Text × Text) → Type 0
CutsOff s none = Unit {0}
CutsOff s (some (l, r)) = length l + length r ≡ length s

cut_line-CutsOff : (s : Text) → CutsOff s (cut_line s)
unfolding cut_line
cut_line-CutsOff [] = tt
cut_line-CutsOff (c ∷ cs) = elim (Bool-cases (c == b'\n')) [
  | inl ending ↦ rw ending (omega arith)
  | inr inside ↦ rw inside (longer (cut_line cs) (cut_line-CutsOff cs))
]
  where
    longer :
        (o : Option (Text × Text))
        → CutsOff cs o
        → CutsOff (c ∷ cs) (elim o [ none ↦ none | some (l, r) ↦ some (c ∷ l, r) ])
    longer none h = tt
    longer (some (l, r)) h = omega (arith, h)

readline-Consumes : (s : Text) → Consumes s (readline s)
unfolding readline
readline-Consumes s = cases (cut_line s) (cut_line-CutsOff s)
  where
    cases :
        (o : Option (Text × Text))
        → CutsOff s o
        → Consumes s (elim o [
          | none ↦ if ltb stream_limit (length s) then fault value_error else got s []
          | some (l, r) ↦ if ltb stream_limit (length l - 1) then fault value_error else got l r
        ])
    cases none h = elim (Bool-cases (ltb stream_limit (length s))) [
      | inl long ↦ rw long tt
      | inr fits ↦ rw fits (omega arith)
    ]
    cases (some (l, r)) h = elim (Bool-cases (ltb stream_limit (length l - 1))) [
      | inl long ↦ rw long tt
      | inr fits ↦ rw fits h
    ]

-- What readexactly gives.
readexactly-cases :
    (n : ℕ) (s : Text)
    → (readexactly n s ≡ fault incomplete)
      ⊎ ((l : Text) × (r : Text) × (readexactly n s ≡ got l r) × (length r ≤ length s))
unfolding readexactly
readexactly-cases n s = elim (Bool-cases (ltb (length s) n)) [
  | inl short ↦ inl (rw short refl)
  | inr enough ↦ inr (take n s, drop n s, rw enough refl, omega (arith, length-drop n s))
]

either-IsFueled :
    {A : Type 0} (b : Bool) (x y : Read A) → IsFueled x → IsFueled y → IsFueled (if b then x else y)
either-IsFueled true x y h k = h
either-IsFueled false x y h k = k

read_trailers-IsFueled :
    (fuel : ℕ) (body s : Text) → length s < fuel → IsFueled (read_trailers fuel body s)
unfolding read_trailers elem eqb
read_trailers-IsFueled zero body s h = omega (arith, h)
read_trailers-IsFueled (suc fuel) body s h =
    cases (readline s) refl (readline-Consumes s) (read_trailers-IsFueled fuel body)
  where
    cases :
        (r : Read Text)
        → readline s ≡ r
        → Consumes s r
        → ((s' : Text) → length s' < fuel → IsFueled (read_trailers fuel body s'))
        → IsFueled (read_trailers (suc fuel) body s)
    cases (fault incomplete) e k later = rw (e, read_trailers) tt
    cases (fault limit_overrun) e k later = rw (e, read_trailers) tt
    cases (fault value_error) e k later = rw (e, read_trailers) tt
    cases (fault too_large) e k later = rw (e, read_trailers) tt
    cases (fault no_fuel) e k later = elim k [ ]
    cases (got [] s') e k later = rw (e, read_trailers) tt
    cases (got (c ∷ line) s') e k later =
        rw (e, read_trailers)
          (either-IsFueled (elem (c ∷ line) (codes "\r\n" ∷ codes "\n" ∷ [] ∷ [])) (got body s')
            (read_trailers fuel body s') tt (later s' (omega (arith, h, k))))

no_size : chunk_size [] ≡ none
unfolding int_of lstrip rstrip before read_digits drop_prefix
no_size = refl

module _ (max_body_bytes : ℕ) where
  abbrev Later : ℕ → Type 0
  Later fuel =
      (body s : Text) → length s < fuel → IsFueled (read_chunked fuel max_body_bytes body s)

  -- The two bytes behind a chunk.
  abbrev next_chunk : ℕ → Text → Text → Read Text
  next_chunk fuel body s2 = elim (readexactly 2 s2) [
    | fault e ↦ fault e
    | got _ s3 ↦ read_chunked fuel max_body_bytes body s3
  ]

  behind :
      (fuel : ℕ) (body s2 : Text)
      → length s2 < fuel
      → Later fuel
      → IsFueled (next_chunk fuel body s2)
  behind fuel body s2 h later = elim (readexactly-cases 2 s2) [
    | inl short ↦ rw (short, IsFueled) tt
    | inr (ending, s3, c, shorter) ↦ rw (c, IsFueled) (later body s3 (omega (arith, h, shorter)))
  ]

  -- A chunk of a size that is not 0.
  chunk-IsFueled :
      (fuel n : ℕ) (body s line s1 : Text)
      → readline s ≡ got line s1
      → chunk_size line ≡ some (pos (suc n))
      → length s1 < fuel
      → Later fuel
      → IsFueled (read_chunked (suc fuel) max_body_bytes body s)
  unfolding read_chunked
  chunk-IsFueled fuel n body s line s1 e z h later = elim (readexactly-cases (suc n) s1) [
    | inl short ↦ rw (e, read_chunked) (rw (z, read_chunked) (rw (short, read_chunked) tt))
    | inr (chunk, s2, c, shorter) ↦
        rw (e, read_chunked)
          (rw (z, read_chunked)
            (rw (c, read_chunked)
              (either-IsFueled (ltb max_body_bytes (length (body ++ chunk))) (fault too_large)
                (next_chunk fuel (body ++ chunk) s2) tt
                (behind fuel (body ++ chunk) s2 (omega (arith, h, shorter)) later))))
  ]

  chunked-IsFueled :
      (fuel : ℕ) (body s : Text)
      → length s < fuel
      → IsFueled (read_chunked fuel max_body_bytes body s)
  unfolding read_chunked
  chunked-IsFueled zero body s h = omega (arith, h)
  chunked-IsFueled (suc fuel) body s h =
      cases (readline s) refl (readline-Consumes s) (chunked-IsFueled fuel)
    where
      sized :
          (line s1 : Text) (z : Option ℤ)
          → readline s ≡ got line s1
          → chunk_size line ≡ z
          → length s1 < fuel
          → Later fuel
          → IsFueled (read_chunked (suc fuel) max_body_bytes body s)
      sized line s1 none e z k later = rw (e, read_chunked) (rw (z, read_chunked) tt)
      sized line s1 (some (pos zero)) e z k later =
          rw (e, read_chunked) (rw (z, read_chunked) (read_trailers-IsFueled fuel body s1 k))
      sized line s1 (some (pos (suc n))) e z k later =
          chunk-IsFueled fuel n body s line s1 e z k later
      sized line s1 (some (negsuc n)) e z k later = rw (e, read_chunked) (rw (z, read_chunked) tt)

      cases :
          (r : Read Text)
          → readline s ≡ r
          → Consumes s r
          → Later fuel
          → IsFueled (read_chunked (suc fuel) max_body_bytes body s)
      cases (fault incomplete) e k later = rw (e, read_chunked) tt
      cases (fault limit_overrun) e k later = rw (e, read_chunked) tt
      cases (fault value_error) e k later = rw (e, read_chunked) tt
      cases (fault too_large) e k later = rw (e, read_chunked) tt
      cases (fault no_fuel) e k later = elim k [ ]
      cases (got [] s1) e k later = rw (e, read_chunked) (rw (no_size, read_chunked) tt)
      cases (got (c ∷ line) s1) e k later =
          sized (c ∷ line) s1 (chunk_size (c ∷ line)) e refl (omega (arith, h, k)) later

-- The reader of a chunked body ends by itself on every input: the number of bytes to come, and one,
-- is fuel enough.
pub read_chunked_body-fuel :
    (max_body_bytes : ℕ) (s : Text) → read_chunked_body max_body_bytes s ≢ fault no_fuel
unfolding read_chunked_body
read_chunked_body-fuel max_body_bytes s e =
    rw e at (chunked-IsFueled max_body_bytes (suc (length s)) [] s (omega arith))
