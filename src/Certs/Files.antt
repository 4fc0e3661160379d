-- ===== src/Certs/Files.antt =====
-- certs.py: the paths that it makes, and files that are replaced.
use mathlib.Core.List.{append_cancel_right}
use codex_reset_proxy.Prelude.{
  ℕ, ◌≡◌, ◌⊎◌, refl, sym, ap, ◌∙◌, true, false, some, [], ◌∷◌, ◌++◌, Bool-cases, inl, inr, arith,
}
use codex_reset_proxy.Text.{Text, codes, eqb}
use codex_reset_proxy.Text.Equality.{eqb_iff, eqb_refl, eqb_comm}
use codex_reset_proxy.Certs.{FilePath, path_eqb, Files, put}
use codex_reset_proxy.Certs.Leaf.{leaf_cert_path, leaf_key_path}

path_eqb_refl : (p : FilePath) → path_eqb p p ≡ true
unfolding path_eqb
path_eqb_refl [] = refl
path_eqb_refl (a ∷ p) = rw (eqb_refl a) (path_eqb_refl p)

pub put-same : (p : FilePath) (bytes : Text) (files : Files) → put p bytes files p ≡ some bytes
unfolding put
put-same p bytes files = rw (path_eqb_refl p) refl

pub put-other :
    (q p : FilePath) (bytes : Text) (files : Files)
    → path_eqb q p ≡ false
    → put p bytes files q ≡ files q
unfolding put
put-other q p bytes files h = rw h refl

abbrev last_of : Text → ℕ
last_of [] = 0
last_of (c ∷ []) = c
last_of (c ∷ d ∷ s) = last_of (d ∷ s)

last_of-append : (s : Text) (c d : ℕ) (t : Text) → last_of (s ++ c ∷ d ∷ t) ≡ last_of (d ∷ t)
last_of-append [] c d t = refl
last_of-append (a ∷ []) c d t = refl
last_of-append (a ∷ b ∷ s) c d t = last_of-append (b ∷ s) c d t

-- The file of a key is not that of a certificate.
suffix_differs : (s t : Text) → eqb (s ++ codes ".key") (t ++ codes ".crt") ≡ false
suffix_differs s t = elim (Bool-cases (eqb (s ++ codes ".key") (t ++ codes ".crt"))) [
  | inl e ↦ absurd (
      omega (
        arith,
        sym (last_of-append s _ _ _)
            ∙ ap last_of ((eqb_iff (s ++ codes ".key") (t ++ codes ".crt")).0 e)
            ∙ last_of-append t _ _ _,
      ))
  | inr e ↦ e
]

pub key-cert : (s t : Text) → path_eqb (leaf_key_path s) (leaf_cert_path t) ≡ false
unfolding path_eqb eqb
key-cert s t = rw (suffix_differs s t) refl

-- Files of two different names are different.
pub leaf-leaf :
    (s t : Text)
    → (s ≡ t)
      ⊎ ((path_eqb (leaf_cert_path s) (leaf_cert_path t) ≡ false)
          × (path_eqb (leaf_key_path s) (leaf_key_path t) ≡ false))
unfolding path_eqb eqb
leaf-leaf s t = elim (Bool-cases (eqb (s ++ codes ".crt") (t ++ codes ".crt"))) [
  | inl e ↦ inl (append_cancel_right s t (codes ".crt") ((eqb_iff _ _).0 e))
  | inr e ↦ elim (Bool-cases (eqb (s ++ codes ".key") (t ++ codes ".key"))) [
    | inl k ↦ inl (append_cancel_right s t (codes ".key") ((eqb_iff _ _).0 k))
    | inr k ↦ inr (rw e refl, rw k refl)
  ]
]

pub cert-key : (s t : Text) → path_eqb (leaf_cert_path s) (leaf_key_path t) ≡ false
unfolding path_eqb eqb
cert-key s t = rw (eqb_comm (s ++ codes ".crt") (t ++ codes ".key")) (rw (suffix_differs t s) refl)
