-- ===== src/Text/Numbers.antt =====
-- Python's `f"{n:x}"` and `int(s, 16)`, one after the other.
use codex_reset_proxy.Prelude.{
  ℕ, zero, suc, ◌+◌, ◌*◌, ◌/◌, ◌%◌, ◌≤◌, ◌<◌, ◌≡◌, ◌≢◌, refl, ap, ◌∙◌, Bool, true, false, some,
  List, [], ◌∷◌, ◌++◌, map, inl, inr, arith, All, ltb, ◌==◌, if◌then◌else◌, length, append-nil,
  Bool-cases, ◌||◌,
}
use codex_reset_proxy.Prelude.Int.{pos}
use codex_reset_proxy.Text.{
  Text, codes, to_digits, digit_char, digit_value, show, show_hex, read_digits, value_from,
  drop_prefix, is_space, lstrip, rstrip, strip, magnitude, signed, int_of, before,
}

abbrev IsDigits : List ℕ → Type 0
IsDigits = All (λ d. d < 16)

to_digits-IsDigits :
    (f n : ℕ) (acc : List ℕ) → n ≤ f → IsDigits acc → IsDigits (to_digits 16 f n acc)
unfolding to_digits
to_digits-IsDigits zero n acc h k = (omega arith, k)
to_digits-IsDigits (suc f) n acc h k =
    ground (arith, to_digits-IsDigits f (n / 16) ((n % 16) ∷ acc) (omega arith))

to_digits-value :
    (f n : ℕ) (acc : List ℕ) → n ≤ f → value_from 16 0 (to_digits 16 f n acc) ≡ value_from 16 n acc
unfolding to_digits value_from
to_digits-value zero n acc h =
    let e : 0 * 16 + n ≡ n = omega arith in ap (λ (k : ℕ). value_from 16 k acc) e
to_digits-value (suc f) n acc h = elim (Bool-cases (ltb n 16)) [
  | inl small ↦
      rw small (let e : 0 * 16 + n ≡ n = omega arith in ap (λ (k : ℕ). value_from 16 k acc) e)
  | inr large ↦ rw large (
      to_digits-value f (n / 16) ((n % 16) ∷ acc) (ground arith)
      ∙ ap (λ (k : ℕ). value_from 16 k acc) (omega arith))
]

to_digits-cons :
    (f n : ℕ) (acc : List ℕ) → (d : ℕ) × (ds : List ℕ) × (to_digits 16 f n acc ≡ d ∷ ds)
unfolding to_digits
to_digits-cons zero n acc = (n, acc, refl)
to_digits-cons (suc f) n acc = elim (Bool-cases (ltb n 16)) [
  | inl small ↦ rw small (n, acc, refl)
  | inr large ↦ rw large (to_digits-cons f (n / 16) ((n % 16) ∷ acc))
]

-- What a printed digit is not.
abbrev pub IsDigitChar : ℕ → Type 0
IsDigitChar c =
    (is_space c ≡ false)
    × ((c == b';') ≡ false)
    × ((c == b'_') ≡ false)
    × ((c == b'-') ≡ false)
    × ((c == b'+') ≡ false)
    × ((c == b'x' || c == b'X') ≡ false)
    × (c ≢ 10)

digit_char-IsDigitChar : (d : ℕ) → d < 16 → IsDigitChar (digit_char d)
unfolding digit_char is_space
digit_char-IsDigitChar d h = (
  ground arith,
  ground arith,
  ground arith,
  ground arith,
  ground arith,
  ground arith,
  λ e. ground arith,
)

digit_value-digit_char : (d : ℕ) → d < 16 → digit_value (digit_char d) ≡ d
unfolding digit_char digit_value
digit_value-digit_char d h = ground arith

read_digits-map :
    (d : ℕ) (ds : List ℕ) (need : Bool)
    → d < 16
    → IsDigits ds
    → read_digits 16 need (map digit_char (d ∷ ds)) ≡ some (d ∷ ds)
unfolding read_digits
read_digits-map d [] need h k =
    let (_, _, u, _, _, _, _) = digit_char-IsDigitChar d h in
    rw (u, digit_value-digit_char d h) (ground arith)
read_digits-map d (e ∷ es) need h k =
    let (_, _, u, _, _, _, _) = digit_char-IsDigitChar d h in
    rw (u, digit_value-digit_char d h)
      (rw (read_digits-map e es false k.0 k.1) (ground (arith, digit_value-digit_char d h)))

pub map-IsDigitChar : (ds : List ℕ) → IsDigits ds → All IsDigitChar (map digit_char ds)
map-IsDigitChar [] h = tt
map-IsDigitChar (d ∷ ds) h = (digit_char-IsDigitChar d h.0, map-IsDigitChar ds h.1)

drop_prefix-hex : (base : ℕ) (s : Text) → All IsDigitChar s → drop_prefix base s ≡ s
unfolding drop_prefix
drop_prefix-hex base [] h = refl
drop_prefix-hex base (c ∷ []) h = refl
drop_prefix-hex base (c ∷ x ∷ s) h = ground (arith, h.1.0.5)

lstrip-hex : (c : ℕ) (s : Text) → IsDigitChar c → lstrip (c ∷ s) ≡ c ∷ s
unfolding lstrip
lstrip-hex c s h = rw h.0

rstrip-hex : (s tail : Text) → All IsDigitChar s → rstrip tail ≡ [] → rstrip (s ++ tail) ≡ s
unfolding rstrip
rstrip-hex [] tail h e = e
rstrip-hex (c ∷ s) tail h e = rw (rstrip-hex s tail h.1 e) (last s)
  where
    last :
        (s : Text)
        → (elim s [ [] ↦ if is_space c then [] else c ∷ [] | d ∷ ds ↦ c ∷ d ∷ ds ]) ≡ c ∷ s
    last [] = rw h.0.0
    last (d ∷ ds) = refl

before-hex :
    (s tail : Text)
    → All IsDigitChar s
    → before b';' tail ≡ tail
    → before b';' (s ++ tail) ≡ s ++ tail
unfolding before
before-hex [] tail h e = e
before-hex (c ∷ s) tail h e = rw (h.0.1, before-hex s tail h.1 e)

signed-hex :
    (c : ℕ) (s : Text) {n : ℕ}
    → IsDigitChar c
    → magnitude 16 (c ∷ s) ≡ some n
    → signed 16 (c ∷ s) ≡ some (pos n)
signed-hex c s h e = ground (arith, h.3, h.4)

-- The digits of a number, as they are printed: at least one, and each a digit.
pub show_hex-shape : (n : ℕ) → (c : ℕ) × (s : Text) × (show_hex n ≡ c ∷ s) × All IsDigitChar (c ∷ s)
unfolding show
show_hex-shape n =
    let (d, ds, e) = to_digits-cons n n [] in
    let k : IsDigits (d ∷ ds) = rw e at (to_digits-IsDigits n n [] (omega arith) tt) in
    (digit_char d, map digit_char ds, rw e, map-IsDigitChar (d ∷ ds) k)

magnitude-digits :
    (s : Text) (ds : List ℕ)
    → drop_prefix 16 s ≡ s
    → read_digits 16 true s ≡ some ds
    → magnitude 16 s ≡ some (value_from 16 0 ds)
magnitude-digits s ds p e = rw (p, magnitude) (rw (e, magnitude))

magnitude-show_hex : (n : ℕ) → magnitude 16 (show_hex n) ≡ some n
unfolding show
magnitude-show_hex n =
    let (d, ds, e) = to_digits-cons n n [] in
    let k : IsDigits (d ∷ ds) = rw e at (to_digits-IsDigits n n [] (omega arith) tt) in
    let v : value_from 16 0 (d ∷ ds) ≡ n =
      rw e at (to_digits-value n n [] (omega arith)) ∙ unfold value_from in refl in
    rw e (
      magnitude-digits (map digit_char (d ∷ ds)) (d ∷ ds)
        (drop_prefix-hex 16 (map digit_char (d ∷ ds)) (map-IsDigitChar (d ∷ ds) k))
        (read_digits-map d ds true k.0 k.1)
      ∙ ap some v)

int_of-strip :
    (c : ℕ) (s tail : Text) {n : ℕ}
    → All IsDigitChar (c ∷ s)
    → rstrip tail ≡ []
    → magnitude 16 (c ∷ s) ≡ some n
    → int_of 16 (c ∷ s ++ tail) ≡ some (pos n)
unfolding int_of
int_of-strip c s tail h t e =
    rw (rstrip-hex (c ∷ s) tail h t, lstrip-hex c s h.0) (signed-hex c s h.0 e)

-- A printed number is read back, with or without white space behind it.
pub int_of-show_hex :
    (n : ℕ) (tail : Text) → rstrip tail ≡ [] → int_of 16 (show_hex n ++ tail) ≡ some (pos n)
int_of-show_hex n tail t =
    let (c, s, e, h) = show_hex-shape n in
    rw e (int_of-strip c s tail h t (rw e at (magnitude-show_hex n)))

rstrip-crlf : rstrip (codes "\r\n") ≡ []
unfolding rstrip is_space
rstrip-crlf = refl

before-crlf : before b';' (codes "\r\n") ≡ codes "\r\n"
unfolding before
before-crlf = refl

-- So is the size line of a chunk, cut off at a semicolon that is not there.
pub int_of-size_line :
    (n : ℕ) → int_of 16 (strip (before b';' (show_hex n ++ codes "\r\n"))) ≡ some (pos n)
int_of-size_line n =
    let (c, s, e, h) = show_hex-shape n in
    let read : int_of 16 (c ∷ s) ≡ some (pos n) =
      rw (append-nil, e) at (int_of-show_hex n [] (unfold rstrip in refl)) in
    rw e (
      rw
        (
          before-hex (c ∷ s) (codes "\r\n") h before-crlf,
          rstrip-hex (c ∷ s) (codes "\r\n") h rstrip-crlf,
          lstrip-hex c s h.0,
        )
        read)

-- 16 to the k
abbrev pub pow16 : ℕ → ℕ
pow16 zero = 1
pow16 (suc k) = 16 * pow16 k

length-to_digits :
    (f k n : ℕ) (acc : List ℕ)
    → n < pow16 (suc k)
    → length (to_digits 16 f n acc) ≤ length acc + suc k
unfolding to_digits
length-to_digits zero k n acc h = omega arith
length-to_digits (suc f) zero n acc h = ground arith
length-to_digits (suc f) (suc k) n acc h =
    ground (arith, length-to_digits f k (n / 16) ((n % 16) ∷ acc) (omega arith))

length-map-digit_char : (ds : List ℕ) → length (map digit_char ds) ≡ length ds
length-map-digit_char [] = refl
length-map-digit_char (d ∷ ds) = ap suc (length-map-digit_char ds)

pub length-show_hex : (k n : ℕ) → n < pow16 (suc k) → length (show_hex n) ≤ suc k
unfolding show
length-show_hex k n h =
    omega (arith, length-to_digits n k n [] h, length-map-digit_char (to_digits 16 n n []))
