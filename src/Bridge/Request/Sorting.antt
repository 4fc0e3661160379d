-- ===== src/Bridge/Request/Sorting.antt =====
-- websocket_bridge.py: the order in which `websocket_pool_key` sorts headers.
use mathlib.Core.List.{Permᴰ}
use mathlib.Core.List.Permᴰ
use mathlib.Core.Path.{ap₂}
use codex_reset_proxy.Prelude.{
  ◌≡◌, refl, sym, ap, ◌∙◌, true, false, List, [], ◌∷◌, inl, inr, arith, Bool-cases,
}
use codex_reset_proxy.Text.{Text}
use codex_reset_proxy.Text.Equality.{eqb_iff}
use codex_reset_proxy.Headers.{Header}
use codex_reset_proxy.Runtime.{Runtime}
use codex_reset_proxy.Bridge.Request.{text_leb, pair_leb, insert, sort}

module _ (py : Runtime) where
  text_leb_total : (s t : Text) → text_leb py s t ≡ false → text_leb py t s ≡ true
  unfolding text_leb
  text_leb_total [] t h = ground (arith, h)
  text_leb_total (a ∷ s) [] h = refl
  text_leb_total (a ∷ s) (b ∷ t) h = ground (arith, h, text_leb_total s t)

  text_leb_antisym : (s t : Text) → text_leb py s t ≡ true → text_leb py t s ≡ true → s ≡ t
  unfolding text_leb
  text_leb_antisym [] [] h k = refl
  text_leb_antisym [] (b ∷ t) h k = ground (arith, k)
  text_leb_antisym (a ∷ s) [] h k = ground (arith, h)
  text_leb_antisym (a ∷ s) (b ∷ t) h k = ground (arith, h, k, text_leb_antisym s t)

  text_leb_trans :
      (s t u : Text) → text_leb py s t ≡ true → text_leb py t u ≡ true → text_leb py s u ≡ true
  unfolding text_leb
  text_leb_trans [] t u h k = refl
  text_leb_trans (a ∷ s) [] u h k = ground (arith, h)
  text_leb_trans (a ∷ s) (b ∷ t) [] h k = ground (arith, k)
  text_leb_trans (a ∷ s) (b ∷ t) (c ∷ u) h k = ground (arith, h, k, text_leb_trans s t u)

  pair_leb_total : (a b : Header) → pair_leb py a b ≡ false → pair_leb py b a ≡ true
  unfolding pair_leb
  pair_leb_total (s, x) (t, y) h =
      ground (arith, h, eqb_iff s t, eqb_iff t s, text_leb_total s t, text_leb_total x y)

  pair_leb_antisym : (a b : Header) → pair_leb py a b ≡ true → pair_leb py b a ≡ true → a ≡ b
  unfolding pair_leb
  pair_leb_antisym (s, x) (t, y) h k =
      ground (arith, h, k, eqb_iff s t, eqb_iff t s, text_leb_antisym s t, text_leb_antisym x y)

  pair_leb_trans :
      (a b c : Header) → pair_leb py a b ≡ true → pair_leb py b c ≡ true → pair_leb py a c ≡ true
  unfolding pair_leb
  pair_leb_trans (s, x) (t, y) (u, z) h k = grind (
    arith,
    h,
    k,
    eqb_iff s t,
    eqb_iff t u,
    eqb_iff s u,
    text_leb_trans s t u,
    text_leb_trans x y z,
    text_leb_antisym s t,
  )

  insert-before :
      (a : Header) (x : Header) (xs : List Header)
      → pair_leb py a x ≡ true
      → insert py a (x ∷ xs) ≡ a ∷ x ∷ xs
  unfolding insert
  insert-before a x xs h = rw h refl

  insert-behind :
      (a : Header) (x : Header) (xs : List Header)
      → pair_leb py a x ≡ false
      → insert py a (x ∷ xs) ≡ x ∷ insert py a xs
  unfolding insert
  insert-behind a x xs h = rw h refl

  -- Where a comes first, it is inserted in front of b and what follows.
  insert-first :
      (a b : Header) (xs : List Header)
      → pair_leb py a b ≡ true
      → insert py b xs ≡ b ∷ xs
      → a ∷ b ∷ xs ≡ insert py b (a ∷ xs)
  insert-first a b xs h e = elim (Bool-cases (pair_leb py b a)) [
    | inl both ↦
        let same = pair_leb_antisym a b h both in
        ap (λ (c : Header). c ∷ b ∷ xs) same
        ∙ ap (λ (c : Header). b ∷ c ∷ xs) (sym same)
        ∙ sym (insert-before b a xs both)
    | inr after ↦ ap (◌∷◌ a) (sym e) ∙ sym (insert-behind b a xs after)
  ]

  not_first :
      (a b x : Header) → pair_leb py a x ≡ true → pair_leb py b x ≡ false → pair_leb py b a ≡ false
  not_first a b x early late = elim (Bool-cases (pair_leb py b a)) [
    | inl first ↦ let same = pair_leb_trans b a x first early in absurd (ground (arith, same, late))
    | inr after ↦ after
  ]

  insert_ordered :
      (a b : Header) (xs : List Header)
      → pair_leb py a b ≡ true
      → insert py a (insert py b xs) ≡ insert py b (insert py a xs)
  insert_ordered a b [] h = unfold insert in insert-before a b [] h ∙ insert-first a b [] h refl
  insert_ordered a b (x ∷ xs) h = elim (Bool-cases (pair_leb py b x)) [
    | inl early ↦
        let e = insert-before b x xs early in
        let f = insert-before a x xs (pair_leb_trans a b x h early) in
        ap (insert py a) e
        ∙ insert-before a b (x ∷ xs) h
        ∙ insert-first a b (x ∷ xs) h e
        ∙ ap (insert py b) (sym f)
    | inr late ↦ elim (Bool-cases (pair_leb py a x)) [
      | inl early ↦
          let e = insert-behind b x xs late in
          let after : pair_leb py b a ≡ false = not_first a b x early late in
          ap (insert py a) e
          ∙ insert-before a x (insert py b xs) early
          ∙ ap (◌∷◌ a) (sym e)
          ∙ sym (insert-behind b a (x ∷ xs) after)
          ∙ ap (insert py b) (sym (insert-before a x xs early))
      | inr last ↦
          ap (insert py a) (insert-behind b x xs late)
          ∙ insert-behind a x (insert py b xs) last
          ∙ ap (◌∷◌ x) (insert_ordered a b xs h)
          ∙ sym (insert-behind b x (insert py a xs) late)
          ∙ ap (insert py b) (sym (insert-behind a x xs last))
    ]
  ]

  insert_comm :
      (a b : Header) (xs : List Header)
      → insert py a (insert py b xs) ≡ insert py b (insert py a xs)
  insert_comm a b xs = elim (Bool-cases (pair_leb py a b)) [
    | inl h ↦ insert_ordered a b xs h
    | inr h ↦ sym (insert_ordered b a xs (pair_leb_total a b h))
  ]

  -- The sorted list does not depend on the order of what is sorted.
  pub sort-perm : {xs ys : List Header} → Permᴰ xs ys → sort py xs ≡ sort py ys
  unfolding sort
  sort-perm Permᴰ.nil = refl
  sort-perm (Permᴰ.cons e p) = ap₂ (insert py) e (sort-perm p)
  sort-perm (Permᴰ.swap {a' = a'} {b' = b'} {l = l} e f) =
      ap₂ (λ (x y : Header). insert py x (insert py y (sort py l))) e f
      ∙ insert_comm b' a' (sort py l)
  sort-perm (Permᴰ.trans p q) = sort-perm p ∙ sort-perm q

  insert-perm : (a : Header) (xs : List Header) → Permᴰ (insert py a xs) (a ∷ xs)
  unfolding insert
  insert-perm a [] = Permᴰ.refl _
  insert-perm a (x ∷ xs) = elim (Bool-cases (pair_leb py a x)) [
    | inl first ↦ rw first (Permᴰ.refl _)
    | inr later ↦ rw later (Permᴰ.trans (Permᴰ.cons refl (insert-perm a xs)) (Permᴰ.swap refl refl))
  ]

  pub sort-permuted : (xs : List Header) → Permᴰ (sort py xs) xs
  unfolding sort
  sort-permuted [] = Permᴰ.nil
  sort-permuted (x ∷ xs) =
      Permᴰ.trans (insert-perm x (sort py xs)) (Permᴰ.cons refl (sort-permuted xs))
