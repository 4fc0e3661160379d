-- ===== src/Upstream/Body.antt =====
-- `read_limited_body` against its specification.
use codex_reset_proxy.Prelude.{
  ℕ, ◌+◌, ◌≤◌, none, some, List, [], ◌∷◌, ◌++◌, ◌≡◌, refl, arith, ltb, length, if◌then◌else◌,
  length-append, append_assoc, append-nil,
}
use codex_reset_proxy.Text.{Text}
use codex_reset_proxy.Upstream.{read_chunks, concat, read_limited_body}

pub concat-append : (xs ys : List Text) → concat (xs ++ ys) ≡ concat xs ++ concat ys
unfolding concat
concat-append [] ys = refl
concat-append (x ∷ xs) ys = simp (concat-append xs ys, append_assoc)

read_chunks_lem :
    (limit size : ℕ) (chunks stream : List Text)
    → size ≤ limit
    → read_chunks limit size chunks stream
      ≡ (if ltb limit (size + length (concat stream)) then none else some (chunks ++ stream))
unfolding read_chunks concat
read_chunks_lem limit size chunks [] h = ground (arith, append-nil chunks)
read_chunks_lem limit size chunks (c ∷ cs) h = ground (
  arith,
  read_chunks_lem limit (size + length c) (chunks ++ c ∷ []) cs,
  length-append c (concat cs),
  append_assoc chunks (c ∷ []) cs,
)

-- A body is accepted exactly when its chunks have at most `limit` bytes together, and is then their
-- concatenation in order; otherwise the function raises.
pub read_limited_body_lem :
    (stream : List Text) (limit : ℕ)
    → read_limited_body stream limit
      ≡ (if ltb limit (length (concat stream)) then none else some (concat stream))
unfolding read_limited_body
read_limited_body_lem stream limit = ground (arith, read_chunks_lem limit 0 [] stream)
