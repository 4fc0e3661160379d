-- ===== src/Text/Equality.antt =====
-- `==` and `in` on texts.
use codex_reset_proxy.Prelude.{true, ◌∷◌, ◌≡◌, refl, ◌↔◌, arith}
use codex_reset_proxy.Text.{Text, eqb}

pub eqb_iff : (s t : Text) → (eqb s t ≡ true) ↔ (s ≡ t)
unfolding eqb
eqb_iff (a ∷ s) (b ∷ t) = ground (arith, eqb_iff s t)
eqb_iff _ _ = ground arith

pub eqb_refl : (s : Text) → eqb s s ≡ true
eqb_refl s = (eqb_iff s s).1 refl

pub eqb_comm : (s t : Text) → eqb s t ≡ eqb t s
unfolding eqb
eqb_comm (a ∷ s) (b ∷ t) = ground (arith, eqb_comm s t)
eqb_comm _ _ = ground arith
