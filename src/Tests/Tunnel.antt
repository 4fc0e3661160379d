-- ===== src/Tests/Tunnel.antt =====
-- A tunnel whose client sends two bytes, of which one is copied before the task raises.
use codex_reset_proxy.Prelude.{true, refl, [], arith}
use codex_reset_proxy.Text.{codes}
use codex_reset_proxy.Mitm.Tunnel.{
  Tunnel, broken, passes, up_copies, up_breaks, Reach, here, then_step, opened,
}
use codex_reset_proxy.Mitm.Tunnel.Delivery.{IsFaithful, Reach-IsFaithful}

abbrev torn : Tunnel
torn = record (opened (codes "ab") (codes "c")) {
  up = record { coming = codes "b"; passed = codes "a"; lost = [] };
  up_stage = broken;
  upstream_closed = true;
}

torn_run : Reach (opened (codes "ab") (codes "c")) torn
torn_run =
    then_step
      (then_step here
        (up_copies refl (passes (codes "a") (codes "b") [] (omega arith) (omega arith))))
      (up_breaks refl)

Reach-IsFaithful_example : IsFaithful (codes "ab") (codes "c") torn
Reach-IsFaithful_example = Reach-IsFaithful (codes "ab") (codes "c") torn_run
