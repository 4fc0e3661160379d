-- ===== src/Certs/Names.antt =====
-- certs.py: `_safe_filename`.
use codex_reset_proxy.Prelude.{
  ℕ, ◌≤◌, ◌≡◌, refl, ap, Bool, true, false, ◌||◌, ◌&&◌, [], ◌∷◌, ◌==◌, leb, length, take,
  length-take, if◌then◌else◌, Bool-cases, inl, inr, All, arith,
}
use codex_reset_proxy.Text.{Text, codes}

-- [A-Za-z0-9_.-]
unfoldable pub is_safe : ℕ → Bool
is_safe c =
    leb b'A' c && leb c b'Z'
    || leb b'a' c && leb c b'z'
    || leb b'0' c && leb c b'9'
    || c == b'_'
    || c == b'.'
    || c == b'-'

-- re.sub(r"[^A-Za-z0-9_.-]+", "_", host), within a run of unsafe characters or not
unfoldable pub sub_runs : Bool → Text → Text
sub_runs inside [] = []
sub_runs inside (c ∷ cs) =
    let safe = c ∷ sub_runs false cs in
    let run = sub_runs true cs in if is_safe c then safe else if inside then run else b'_' ∷ run

abbrev pub or_unknown : Text → Text
or_unknown [] = codes "unknown"
or_unknown (c ∷ cs) = c ∷ cs

unfoldable pub safe_filename : Text → Text
safe_filename host = or_unknown (take 180 (sub_runs false host))

abbrev pub IsSafe : ℕ → Type 0
IsSafe c = is_safe c ≡ true

underscore : IsSafe b'_'
unfolding is_safe
underscore = refl

sub_runs-IsSafe : (inside : Bool) (s : Text) → All IsSafe (sub_runs inside s)
unfolding sub_runs
sub_runs-IsSafe inside [] = tt
sub_runs-IsSafe inside (c ∷ cs) = elim (Bool-cases (is_safe c)) [
  | inl safe ↦ rw (safe, sub_runs) (safe, sub_runs-IsSafe false cs)
  | inr unsafe ↦ rw (unsafe, sub_runs) (run inside (sub_runs-IsSafe true cs))
]
  where
    run :
        (b : Bool)
        → All IsSafe (sub_runs true cs)
        → All IsSafe (if b then sub_runs true cs else b'_' ∷ sub_runs true cs)
    run true h = h
    run false h = (underscore, h)

sub_runs-safe : (s : Text) → All IsSafe s → sub_runs false s ≡ s
unfolding sub_runs
sub_runs-safe [] h = refl
sub_runs-safe (c ∷ cs) h = rw (h.0, sub_runs) (ap (◌∷◌ c) (sub_runs-safe cs h.1))

take-All : (P : ℕ → Type 0) (n : ℕ) (s : Text) → All P s → All P (take n s)
take-All P ℕ.zero s h = tt
take-All P (ℕ.suc n) [] h = tt
take-All P (ℕ.suc n) (c ∷ cs) h = (h.0, take-All P n cs h.1)

take-short : (n : ℕ) (s : Text) → length s ≤ n → take n s ≡ s
take-short ℕ.zero [] h = refl
take-short ℕ.zero (c ∷ cs) h = absurd (omega (arith, h))
take-short (ℕ.suc n) [] h = refl
take-short (ℕ.suc n) (c ∷ cs) h = ap (◌∷◌ c) (take-short n cs (omega (arith, h)))

-- A name of safe characters, of 1 to 180 of them.
abbrev pub IsFileName : Text → Type 0
IsFileName s = All IsSafe s × (1 ≤ length s) × (length s ≤ 180)

or_unknown-IsFileName : (s : Text) → All IsSafe s → length s ≤ 180 → IsFileName (or_unknown s)
unfolding is_safe
or_unknown-IsFileName [] h short =
    ((refl, (refl, (refl, (refl, (refl, (refl, (refl, tt))))))), omega arith, omega arith)
or_unknown-IsFileName (c ∷ cs) h short = (h, omega arith, short)

or_unknown-nonempty : (s : Text) → 1 ≤ length s → or_unknown s ≡ s
or_unknown-nonempty [] h = absurd (omega (arith, h))
or_unknown-nonempty (c ∷ cs) h = refl

pub safe_filename-IsFileName : (host : Text) → IsFileName (safe_filename host)
unfolding safe_filename
safe_filename-IsFileName host =
    or_unknown-IsFileName _ (take-All IsSafe 180 _ (sub_runs-IsSafe false host))
      (length-take 180 (sub_runs false host))

pub safe_filename-kept : (s : Text) → IsFileName s → safe_filename s ≡ s
unfolding safe_filename
safe_filename-kept s (safe, long, short) =
    rw (sub_runs-safe s safe) (rw (take-short 180 s short) (or_unknown-nonempty s long))

-- Whatever the host is, its file name consists of 1 to 180 letters, digits, underscores, dots and
-- dashes, so that it names a file of the directory; and the file name of a file name is itself.
pub safe_filename_lem :
    (host : Text)
    → IsFileName (safe_filename host) × (safe_filename (safe_filename host) ≡ safe_filename host)
safe_filename_lem host =
    let is_name = safe_filename-IsFileName host in
    (is_name, safe_filename-kept (safe_filename host) is_name)
