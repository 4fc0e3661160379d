-- ===== src/Text.antt =====
-- Python's `bytes` and `str` as lists of numbers (bytes, code points), with the methods that the
-- program calls on them. Decoding latin-1 maps each byte to the code point of the same number.
pub mod Numbers
pub mod Equality
use Prim.Native.Char.{code}
use codex_reset_proxy.Prelude.{
  ℕ, suc, zero, ◌+◌, ◌-◌, ◌*◌, ◌/◌, ◌%◌, String, Bool, true, false, not, ◌&&◌, ◌||◌, Option, none,
  some, List, [], ◌∷◌, ◌++◌, map, leb, ltb, ◌==◌, if◌then◌else◌, length,
}
use codex_reset_proxy.Prelude.Int.{ℤ, pos, negate}

abbrev pub Text : Type 0
Text = List ℕ

abbrev pub codes : String → Text
codes String.[] = []
codes (String.◌∷◌ c s) = code c ∷ codes s

-- a == b
unfoldable pub eqb : Text → Text → Bool
eqb [] [] = true
eqb (a ∷ s) (b ∷ t) = a == b && eqb s t
eqb _ _ = false

-- s in list
unfoldable pub elem : Text → List Text → Bool
elem s [] = false
elem s (t ∷ ts) = eqb s t || elem s ts

abbrev pub is_empty : Text → Bool
is_empty [] = true
is_empty (_ ∷ _) = false

abbrev within : ℕ → ℕ → ℕ → Bool
within lo hi c = leb lo c && leb c hi

-- bytes.lower()
unfoldable pub lower_byte : ℕ → ℕ
lower_byte c = if within b'A' b'Z' c then c + 32 else c

abbrev pub lower : Text → Text
lower = map lower_byte

-- The bytes that `bytes.strip` and `bytes.lstrip` remove.
unfoldable pub is_space : ℕ → Bool
is_space c = c == 32 || within 9 13 c

unfoldable pub lstrip : Text → Text
lstrip [] = []
lstrip (c ∷ cs) = if is_space c then lstrip cs else c ∷ cs

unfoldable pub rstrip : Text → Text
rstrip [] = []
rstrip (c ∷ cs) = elim (rstrip cs) [ [] ↦ if is_space c then [] else c ∷ [] | d ∷ ds ↦ c ∷ d ∷ ds ]

abbrev pub strip : Text → Text
strip s = lstrip (rstrip s)

-- s.startswith(t)
unfoldable pub starts_with : Text → Text → Bool
starts_with s [] = true
starts_with [] (_ ∷ _) = false
starts_with (a ∷ s) (b ∷ t) = a == b && starts_with s t

-- t in s
unfoldable pub contains : Text → Text → Bool
contains [] t = is_empty t
contains (a ∷ s) t = starts_with (a ∷ s) t || contains s t

-- s.split(c), for a separator of one byte; there is always a first piece
unfoldable pub split_onto : ℕ → Text → Text → List Text
split_onto c acc [] = acc ∷ []
split_onto c acc (a ∷ s) =
    let cut = acc ∷ split_onto c [] s in
    let go_on = split_onto c (acc ++ a ∷ []) s in if a == c then cut else go_on

abbrev pub split : ℕ → Text → List Text
split c = split_onto c []

-- s.split(c, 1)[0]
unfoldable pub before : ℕ → Text → Text
before c [] = []
before c (a ∷ s) = if a == c then [] else a ∷ before c s

-- c.join(pieces)
unfoldable pub join : Text → List Text → Text
join c [] = []
join c (s ∷ []) = s
join c (s ∷ t ∷ ts) = s ++ c ++ join c (t ∷ ts)

-- The digits of n, most significant first, in front of `acc`; the fuel bounds their number.
unfoldable pub to_digits : ℕ → ℕ → ℕ → List ℕ → List ℕ
to_digits base zero n acc = n ∷ acc
to_digits base (suc f) n acc =
    let more = to_digits base f (n / base) ((n % base) ∷ acc) in
    if ltb n base then n ∷ acc else more

unfoldable pub digit_char : ℕ → ℕ
digit_char d = if ltb d 10 then d + 48 else d + 87

-- str(n) and f"{n:x}"; n never needs more than n rounds
unfoldable pub show : ℕ → ℕ → Text
show base n = map digit_char (to_digits base n n [])

abbrev pub show_dec : ℕ → Text
show_dec = show 10

abbrev pub show_hex : ℕ → Text
show_hex = show 16

unfoldable pub digit_value : ℕ → ℕ
digit_value c =
    if within b'0' b'9' c
    then c - 48
    else if within b'a' b'z' c
    then c - 87
    else if within b'A' b'Z' c
    then c - 55
    else 36

-- Digits with single underscores between them; `need` says that a digit must come next.
unfoldable pub read_digits : ℕ → Bool → Text → Option (List ℕ)
read_digits base need [] = if need then none else some []
read_digits base need (c ∷ cs) =
    let gap = read_digits base true cs in
    let rest = read_digits base false cs in
    if c == b'_'
    then (if need then none else gap)
    else if ltb (digit_value c) base
    then elim rest [ none ↦ none | some ds ↦ some (digit_value c ∷ ds) ]
    else none

unfoldable pub value_from : ℕ → ℕ → List ℕ → ℕ
value_from base acc [] = acc
value_from base acc (d ∷ ds) = value_from base (acc * base + d) ds

abbrev drop_gap : Text → Text
drop_gap [] = []
drop_gap (c ∷ r) = if c == b'_' then r else c ∷ r

-- An optional 0x in base 16, and one underscore behind it.
unfoldable pub drop_prefix : ℕ → Text → Text
drop_prefix base (z ∷ x ∷ cs) =
    if base == 16 && z == b'0' && (x == b'x' || x == b'X') then drop_gap cs else z ∷ x ∷ cs
drop_prefix base s = s

-- Python refuses longer decimal numerals.
abbrev pub max_str_digits : ℕ
max_str_digits = 4300

abbrev pub magnitude : ℕ → Text → Option ℕ
magnitude base s = elim (read_digits base true (drop_prefix base s)) [
  | none ↦ none
  | some ds ↦
      if base == 10 && ltb max_str_digits (length ds) then none else some (value_from base 0 ds)
]

abbrev pub signed : ℕ → Text → Option ℤ
signed base [] = none
signed base (c ∷ cs) =
    if c == b'-'
    then elim (magnitude base cs) [ none ↦ none | some n ↦ some (negate n) ]
    else elim (magnitude base (if c == b'+' then cs else c ∷ cs)) [
      | none ↦ none
      | some n ↦ some (pos n)
    ]

-- int(s, base), `none` for ValueError
unfoldable pub int_of : ℕ → Text → Option ℤ
int_of base s = signed base (strip s)
