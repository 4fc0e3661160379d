-- ===== src/Mitm/Tunnel/Delivery.antt =====
-- socks_mitm.py: what a tunnel delivers.
use codex_reset_proxy.Prelude.{
  ◌≡◌, ◌⊎◌, refl, ◌∙◌, inl, inr, Bool, true, [], ◌++◌, append_assoc, append-nil,
}
use codex_reset_proxy.Text.{Text}
use codex_reset_proxy.Mitm.Tunnel.{
  Pipe, copying, Copies, passes, loses, Tunnel, Step, up_copies, up_finishes, up_breaks,
  down_copies, down_finishes, down_breaks, leaves, Reach, here, then_step, opened,
}

-- What is written is a prefix of what was sent, and what is neither written nor still to come was
-- lost behind a close.
abbrev pub Delivers : Text → Bool → Pipe → Type 0
Delivers sends closed p =
    (sends ≡ p.passed ++ p.lost ++ p.coming) × ((p.lost ≡ []) ⊎ (closed ≡ true))

abbrev pub IsFaithful : Text → Text → Tunnel → Type 0
IsFaithful client_sends upstream_sends t =
    Delivers client_sends t.upstream_closed t.up
    × Delivers upstream_sends t.client_closed t.down
    × ((t.up_stage ≡ copying) ⊎ (t.upstream_closed ≡ true))
    × ((t.down_stage ≡ copying) ⊎ (t.client_closed ≡ true))
    × ((t.inside ≡ true) ⊎ ((t.upstream_closed ≡ true) × (t.client_closed ≡ true)))

Copies-Delivers :
    (sends : Text) {closed : Bool} {p q : Pipe}
    → Copies closed p q
    → Delivers sends closed p
    → Delivers sends closed q
Copies-Delivers sends (passes chunk rest passed some few) (e, _) =
    (e ∙ simp (append_assoc, append-nil), inl refl)
Copies-Delivers sends (loses chunk rest passed lost some few) (e, _) =
    (e ∙ simp append_assoc, inr refl)

closed-Delivers :
    (sends : Text) {closed : Bool} (p : Pipe) → Delivers sends closed p → Delivers sends true p
closed-Delivers sends p (e, _) = (e, inr refl)

up_closes :
    {P : Type 0} {a b : Bool} → P ⊎ ((a ≡ true) × (b ≡ true)) → P ⊎ ((true ≡ true) × (b ≡ true))
up_closes (inl h) = inl h
up_closes (inr (a, b)) = inr (refl, b)

down_closes :
    {P : Type 0} {a b : Bool} → P ⊎ ((a ≡ true) × (b ≡ true)) → P ⊎ ((a ≡ true) × (true ≡ true))
down_closes (inl h) = inl h
down_closes (inr (a, b)) = inr (a, refl)

Step-IsFaithful :
    (client_sends upstream_sends : Text) {t u : Tunnel}
    → Step t u
    → IsFaithful client_sends upstream_sends t
    → IsFaithful client_sends upstream_sends u
Step-IsFaithful c s (up_copies stage step) (up, down, a, b, i) =
    (Copies-Delivers c step up, down, a, b, i)
Step-IsFaithful c s (up_finishes {t} stage h) (up, down, a, b, i) =
    (closed-Delivers c t.up up, down, inr refl, b, up_closes i)
Step-IsFaithful c s (up_breaks {t} stage) (up, down, a, b, i) =
    (closed-Delivers c t.up up, down, inr refl, b, up_closes i)
Step-IsFaithful c s (down_copies stage step) (up, down, a, b, i) =
    (up, Copies-Delivers s step down, a, b, i)
Step-IsFaithful c s (down_finishes {t} stage h) (up, down, a, b, i) =
    (up, closed-Delivers s t.down down, a, inr refl, down_closes i)
Step-IsFaithful c s (down_breaks {t} stage) (up, down, a, b, i) =
    (up, closed-Delivers s t.down down, a, inr refl, down_closes i)
Step-IsFaithful c s (leaves {t} h) (up, down, a, b, i) =
    (closed-Delivers c t.up up, closed-Delivers s t.down down, inr refl, inr refl, inr (refl, refl))

-- However the two tasks of a tunnel and the one that waits for them interleave, and wherever they
-- break: what each end is written is a prefix of what the other sent, in order and unchanged; bytes
-- are lost only behind a close of the receiver's writer; a task that has ended has closed its
-- writer; and behind the tunnel both are closed.
pub Reach-IsFaithful :
    (client_sends upstream_sends : Text) {t : Tunnel}
    → Reach (opened client_sends upstream_sends) t
    → IsFaithful client_sends upstream_sends t
Reach-IsFaithful c s here = ((refl, inl refl), (refl, inl refl), inl refl, inl refl, inl refl)
Reach-IsFaithful c s (then_step r step) = Step-IsFaithful c s step (Reach-IsFaithful c s r)
