-- ===== src/Bridge/Sse/RoundTrip.antt =====
-- Reading a server-sent event back, as a client of the stream does.
use codex_reset_proxy.Prelude.{
  ℕ, Bool, true, false, ◌||◌, ◌&&◌, Option, none, some, List, [], ◌∷◌, ◌++◌, ◌≡◌, refl, sym, ap,
  ◌∙◌, inl, inr, arith, map, ◌==◌, if◌then◌else◌, All, Bool-cases, append_assoc, append-nil,
}
use codex_reset_proxy.Text.{Text, codes, join}
use codex_reset_proxy.Bridge.Sse.{
  is_line_end, lines_onto, splitlines, or_blank, data_lines, unlines, sse_text,
}

-- A reader of event streams ends a line at a line feed or a carriage return.
abbrev is_eol : ℕ → Bool
is_eol c = c == 10 || c == 13

-- The ended lines of a stream, behind the part of a line read so far.
abbrev stream_lines : Text → Text → List Text
stream_lines line [] = []
stream_lines line (c ∷ cs) =
    let cut = line ∷ stream_lines [] cs in
    let go_on = stream_lines (line ++ c ∷ []) cs in if is_eol c then cut else go_on

abbrev drop_start : Text → Text → Option Text
drop_start [] s = some s
drop_start (p ∷ ps) [] = none
drop_start (p ∷ ps) (c ∷ cs) = if p == c then drop_start ps cs else none

-- The first event of the stream: its type and the data lines joined by line feeds.
abbrev dispatch : Text → List Text → List Text → Option (Text × Text)
dispatch event_type received [] = none
dispatch event_type received ([] ∷ ls) = some (event_type, join (codes "\n") received)
dispatch event_type received ((c ∷ l) ∷ ls) = elim (drop_start (codes "data: ") (c ∷ l)) [
  | some d ↦ dispatch event_type (received ++ d ∷ []) ls
  | none ↦ elim (drop_start (codes "event: ") (c ∷ l)) [
    | some t ↦ dispatch t received ls
    | none ↦ dispatch event_type received ls
  ]
]

abbrev pub read_event : Text → Option (Text × Text)
read_event s = dispatch (codes "message") [] (stream_lines [] s)

-- No line feed and no carriage return.
abbrev pub IsOneLine : Text → Type 0
IsOneLine = All (λ c. is_eol c ≡ false)

-- No character at which `str.splitlines` splits.
abbrev pub HasNoLineEnd : Text → Type 0
HasNoLineEnd = All (λ c. is_line_end c ≡ false)

stream_lines-line :
    (acc l rest : Text)
    → IsOneLine l
    → stream_lines acc (l ++ b'\n' ∷ rest) ≡ (acc ++ l) ∷ stream_lines [] rest
stream_lines-line acc [] rest h = ap (λ (x : Text). x ∷ stream_lines [] rest) (sym (append-nil acc))
stream_lines-line acc (c ∷ l) rest h = rw h.0 (
    stream_lines-line (acc ++ c ∷ []) l rest h.1
    ∙ ap (λ (x : Text). x ∷ stream_lines [] rest) (append_assoc acc (c ∷ []) l))

stream_lines-unlines : (ls : List Text) → All IsOneLine ls → stream_lines [] (unlines ls) ≡ ls
unfolding unlines
stream_lines-unlines [] h = refl
stream_lines-unlines (l ∷ ls) h =
    stream_lines-line [] l (unlines ls) h.0 ∙ ap (◌∷◌ l) (stream_lines-unlines ls h.1)

dispatch-data :
    (t : Text) (received ls : List Text)
    → dispatch t received (map (λ l. codes "data: " ++ l) ls ++ [] ∷ [])
      ≡ some (t, join (codes "\n") (received ++ ls))
dispatch-data t received [] = rw append-nil
dispatch-data t received (l ∷ ls) =
    dispatch-data t (received ++ l ∷ []) ls
    ∙ ap (λ (x : List Text). some (t, join (codes "\n") x)) (append_assoc received (l ∷ []) ls)

IsOneLine-append : (a b : Text) → IsOneLine a → IsOneLine b → IsOneLine (a ++ b)
IsOneLine-append [] b h k = k
IsOneLine-append (c ∷ a) b h k = (h.0, IsOneLine-append a b h.1 k)

eol→line_end : (c : ℕ) → is_line_end c ≡ false → is_eol c ≡ false
unfolding is_line_end
eol→line_end c h = ground arith

if-All :
    (b : Bool) (xs ys : List Text)
    → All IsOneLine xs
    → All IsOneLine ys
    → All IsOneLine (if b then xs else ys)
if-All true xs ys h k = h
if-All false xs ys h k = k

lines_onto-IsOneLine :
    (s line : Text) (cr : Bool) → IsOneLine line → All IsOneLine (lines_onto line cr s)
unfolding lines_onto
lines_onto-IsOneLine [] [] cr h = tt
lines_onto-IsOneLine [] (a ∷ line) cr h = (h, tt)
lines_onto-IsOneLine (c ∷ s) line cr h =
    if-All (cr && c == 10) _ _ (lines_onto-IsOneLine s line false h)
      (elim (Bool-cases (is_line_end c)) [
        | inl e ↦ rw e (h, lines_onto-IsOneLine s [] (c == 13) tt)
        | inr e ↦ rw e (
            lines_onto-IsOneLine s (line ++ c ∷ []) false
              (IsOneLine-append line (c ∷ []) h (eol→line_end c e, tt)))
      ])

data_lines-IsOneLine : (s : Text) → All IsOneLine (data_lines s)
unfolding splitlines
data_lines-IsOneLine s = nonempty (splitlines s) (lines_onto-IsOneLine s [] false tt)
  where
    nonempty : (ls : List Text) → All IsOneLine ls → All IsOneLine (or_blank ls)
    nonempty [] h = (tt, tt)
    nonempty (l ∷ ls) h = h

written_lines :
    (ls : List Text)
    → All IsOneLine ls
    → All IsOneLine (map (λ l. codes "data: " ++ l) ls ++ [] ∷ [])
written_lines [] h = (tt, tt)
written_lines (l ∷ ls) h = (
  IsOneLine-append (codes "data: ") l (refl, (refl, (refl, (refl, (refl, (refl, tt)))))) h.0,
  written_lines ls h.1,
)

-- An event whose type is one line is read back with its type, and with the lines of the message,
-- as `str.splitlines` finds them, joined by line feeds.
pub sse_text-read :
    (t s : Text)
    → IsOneLine t
    → read_event (sse_text t s) ≡ some (t, join (codes "\n") (data_lines s))
unfolding sse_text
sse_text-read t s h =
    ap (dispatch (codes "message") []) (
      stream_lines-unlines _ (
        IsOneLine-append (codes "event: ") t
            (refl, (refl, (refl, (refl, (refl, (refl, (refl, tt))))))) h,
        written_lines (data_lines s) (data_lines-IsOneLine s),
      ))
    ∙ dispatch-data t [] (data_lines s)

lines_onto-plain :
    (s rest line : Text)
    → HasNoLineEnd s
    → lines_onto line false (s ++ rest) ≡ lines_onto (line ++ s) false rest
unfolding lines_onto
lines_onto-plain [] rest line h = rw append-nil
lines_onto-plain (c ∷ s) rest line h = rw h.0 (
    lines_onto-plain s rest (line ++ c ∷ []) h.1
    ∙ ap (λ (x : Text). lines_onto x false rest) (append_assoc line (c ∷ []) s))

data_lines-plain : (s : Text) → HasNoLineEnd s → data_lines s ≡ s ∷ []
unfolding splitlines
data_lines-plain s h =
    ap or_blank (ap (lines_onto [] false) (sym (append-nil s)) ∙ lines_onto-plain s [] [] h)
    ∙ ending s
  where
    ending : (x : Text) → or_blank (lines_onto x false []) ≡ x ∷ []
    ending [] = refl
    ending (c ∷ x) = refl

-- So a message with no line boundary in it, such as JSON in ASCII on one line, arrives as it is.
pub sse_text-round_trip :
    (t s : Text) → IsOneLine t → HasNoLineEnd s → read_event (sse_text t s) ≡ some (t, s)
sse_text-round_trip t s h k =
    sse_text-read t s h
    ∙ ap (λ (x : List Text). some (t, join (codes "\n") x)) (data_lines-plain s k)
    ∙ unfold join in refl

separator : is_line_end 0x2028 ≡ true
unfolding is_line_end
separator = refl

-- U+2028, which JSON allows inside a string as it is, does not survive: the client reads a line
-- feed in its place.
pub sse_text-separator :
    (t a b : Text) (c : ℕ)
    → IsOneLine t
    → HasNoLineEnd a
    → HasNoLineEnd (c ∷ b)
    → read_event (sse_text t (a ++ 0x2028 ∷ c ∷ b)) ≡ some (t, a ++ b'\n' ∷ c ∷ b)
unfolding splitlines
sse_text-separator t a b c h k l =
    sse_text-read t (a ++ 0x2028 ∷ c ∷ b) h
    ∙ ap (λ (x : List Text). some (t, join (codes "\n") (or_blank x))) split
    ∙ unfold join in ap (λ (x : Text). some (t, x)) (append_assoc a (codes "\n") (c ∷ b))
  where
    last : lines_onto [] false (c ∷ b) ≡ (c ∷ b) ∷ []
    last = ap (lines_onto [] false) (sym (append-nil (c ∷ b))) ∙ lines_onto-plain (c ∷ b) [] [] l

    split : lines_onto [] false (a ++ 0x2028 ∷ c ∷ b) ≡ a ∷ (c ∷ b) ∷ []
    split = lines_onto-plain a (0x2028 ∷ c ∷ b) [] k ∙ rw separator (ap (◌∷◌ a) last)
