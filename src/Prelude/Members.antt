-- ===== src/Prelude/Members.antt =====
-- Members of the list that a test keeps.
use mathlib.Core.List.{Memᴰ}
use mathlib.Core.List.Memᴰ.{head, tail}
use codex_reset_proxy.Prelude.{
  Bool, true, List, [], ◌∷◌, ◌≡◌, refl, inl, inr, arith, keep, Bool-cases, sym, ap, ◌∙◌,
}

module _ {A : Type 0} (p : A → Bool) where
  kept-mem :
      (x y : A) (ys : List A)
      → p y ≡ true
      → (Memᴰ x (keep p ys) → Memᴰ x ys × (p x ≡ true))
      → Memᴰ x (y ∷ keep p ys)
      → Memᴰ x (y ∷ ys) × (p x ≡ true)
  kept-mem x y ys h later (head e) = (head e, ap p e ∙ h)
  kept-mem x y ys h later (tail m) = (tail (later m).0, (later m).1)

  pub keep-mem : (x : A) (xs : List A) → Memᴰ x (keep p xs) → Memᴰ x xs × (p x ≡ true)
  keep-mem x [] m = elim m [ ]
  keep-mem x (y ∷ ys) m = elim (Bool-cases (p y)) [
    | inl h ↦ kept-mem x y ys h (keep-mem x ys) (rw (h, keep) at m)
    | inr h ↦ let (m', e) = keep-mem x ys (rw (h, keep) at m) in (tail m', e)
  ]

  pub mem-keep : (x : A) (xs : List A) → Memᴰ x xs → p x ≡ true → Memᴰ x (keep p xs)
  mem-keep x [] m h = elim m [ ]
  mem-keep x (y ∷ ys) (head e) h = rw (ap p (sym e) ∙ h) (head e)
  mem-keep x (y ∷ ys) (tail m) h = elim (Bool-cases (p y)) [
    | inl t ↦ rw t (tail (mem-keep x ys m h))
    | inr t ↦ rw t (mem-keep x ys m h)
  ]

pub keep-keep :
    {A : Type 0} (p q : A → Bool)
    → ((x : A) → p x ≡ true → q x ≡ true)
    → (xs : List A) → keep q (keep p xs) ≡ keep p xs
keep-keep p q sub [] = refl
keep-keep p q sub (x ∷ xs) = ground (arith, sub x, keep-keep p q sub xs)
