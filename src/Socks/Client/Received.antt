-- ===== src/Socks/Client/Received.antt =====
-- `_recv_exact`, whatever the pieces in which the bytes arrive.
use codex_reset_proxy.Prelude.{
  ℕ, zero, suc, ◌-◌, ◌≤◌, ◌≡◌, refl, sym, ap, ◌∙◌, true, false, Option, none, some, [], ◌∷◌, ◌++◌,
  ltb, ◌==◌, if◌then◌else◌, length, take, drop, arith, Bool-cases, inl, inr, append-nil,
  append_assoc, length-append,
}
use codex_reset_proxy.Text.{Text}
use codex_reset_proxy.Socks.Net.{take-early, drop-early}
use codex_reset_proxy.Socks.Client.{Pieces, bytes_of, bytes_left, push_back, recv_loop, recv_exact}

-- What reading n bytes of a whole text gives.
abbrev cut : ℕ → Text → Option (Text × Text)
cut n s = if ltb (length s) n then none else some (take n s, drop n s)

-- The same of pieces, with only their bytes told.
abbrev pub as_bytes : Option (Text × Pieces) → Option (Text × Text)
as_bytes none = none
as_bytes (some (read, left)) = some (read, bytes_left left)

push_back-bytes : (s : Text) (ps : Pieces) → bytes_left (push_back s ps) ≡ s ++ bytes_left ps
unfolding bytes_left
push_back-bytes [] ps = refl
push_back-bytes (b ∷ bs) ps = refl

abbrev onto : Text → Option (Text × Text) → Option (Text × Text)
onto chunks none = none
onto chunks (some (read, left)) = some (chunks ++ read, left)

onto-onto : (a b : Text) (x : Option (Text × Text)) → onto a (onto b x) ≡ onto (a ++ b) x
onto-onto a b none = refl
onto-onto a b (some (read, left)) = ap (λ (t : Text). some (t, left)) (sym (append_assoc a b read))

onto-nil : (x : Option (Text × Text)) → onto [] x ≡ x
onto-nil none = refl
onto-nil (some (read, left)) = refl

cut-cons : (n c : ℕ) (s : Text) → cut (suc n) (c ∷ s) ≡ onto (c ∷ []) (cut n s)
cut-cons n c s = elim (Bool-cases (ltb (length s) n)) [
  | inl short ↦ let also : ltb (suc (length s)) (suc n) ≡ true = ground arith in rw (short, also)
  | inr enough ↦ let also : ltb (suc (length s)) (suc n) ≡ false = ground arith in rw (enough, also)
]

cut-late :
    (n : ℕ) (s rest : Text) → length s ≤ n → cut n (s ++ rest) ≡ onto s (cut (n - length s) rest)
cut-late n [] rest h = let e : n - 0 ≡ n = omega arith in rw e (sym (onto-nil (cut n rest)))
cut-late zero (c ∷ s) rest h = ground (arith, h)
cut-late (suc n) (c ∷ s) rest h =
    let e : suc n - suc (length s) ≡ n - length s = omega arith in
    rw e (
      cut-cons n c (s ++ rest)
      ∙ ap (onto (c ∷ [])) (cut-late n s rest (omega arith))
      ∙ onto-onto (c ∷ []) s (cut (n - length s) rest))

cut-early :
    (n : ℕ) (s rest : Text) → n ≤ length s → cut n (s ++ rest) ≡ some (take n s, drop n s ++ rest)
cut-early n s rest h =
    let enough : ltb (length (s ++ rest)) n ≡ false = ground (arith, length-append s rest) in
    rw (enough, take-early n s rest h, drop-early n s rest h)

cut-0 : (s : Text) → cut 0 s ≡ some ([], s)
cut-0 s = ground arith

recv_loop_lem :
    (n : ℕ) (chunks : Text) (ps : Pieces)
    → as_bytes (recv_loop n chunks ps) ≡ onto chunks (cut n (bytes_left ps))
unfolding recv_loop bytes_left
recv_loop_lem zero chunks [] = ap (λ (t : Text). some (t, [])) (sym (append-nil chunks))
recv_loop_lem (suc n) chunks [] = ground arith
recv_loop_lem zero chunks (p ∷ ps) =
    rw (cut-0 (bytes_of p ++ bytes_left ps))
      (ap (λ (t : Text). some (t, bytes_of p ++ bytes_left ps)) (sym (append-nil chunks)))
recv_loop_lem (suc n) chunks (p ∷ ps) =
    let more : (suc n == 0) ≡ false = ground arith in
    elim (Bool-cases (ltb (suc n) (length (bytes_of p)))) [
      | inl early ↦
          rw (more, early, cut-early (suc n) (bytes_of p) (bytes_left ps) (ground arith))
            (ap (λ (t : Text). some (chunks ++ take (suc n) (bytes_of p), t))
              (push_back-bytes (drop (suc n) (bytes_of p)) ps))
      | inr late ↦
          rw (more, late, cut-late (suc n) (bytes_of p) (bytes_left ps) (ground arith))
            (recv_loop_lem (suc n - length (bytes_of p)) (chunks ++ bytes_of p) ps
              ∙ sym (onto-onto chunks (bytes_of p) _))
    ]

-- However the bytes arrive in pieces, `_recv_exact` returns the first n of them and leaves the
-- others, and it raises where there are fewer.
pub recv_exact_lem :
    (n : ℕ) (ps : Pieces)
    → as_bytes (recv_exact n ps) ≡ (
        if ltb (length (bytes_left ps)) n
        then none
        else some (take n (bytes_left ps), drop n (bytes_left ps)))
unfolding recv_exact
recv_exact_lem n ps = recv_loop_lem n [] ps ∙ onto-nil (cut n (bytes_left ps))
