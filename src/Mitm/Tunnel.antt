-- ===== src/Mitm/Tunnel.antt =====
-- socks_mitm.py: `_handle_tunnel` behind its connection, with the two tasks that run `_pipe`.
pub mod Delivery
use codex_reset_proxy.Prelude.{ℕ, ◌≤◌, ◌≡◌, ◌⊎◌, Bool, true, false, [], ◌++◌, length}
use codex_reset_proxy.Text.{Text}

-- One direction: the bytes that its sender still sends, those written before the transport of the
-- receiver was gone, and those written later, which asyncio throws away.
pub record Pipe : Type 0 where
  pub coming : Text
  pub passed : Text
  pub lost : Text

-- `_pipe` is in its loop, has come to the end of the stream, or has raised.
pub data Stage : Type 0 where
  copying finished broken : Stage

-- A round of the loop: `read(64 * 1024)` gives some bytes, and `write` gets them. A transport that
-- is closed may still send what it has in its buffer, until the first bytes are lost.
pub data Copies : Bool → Pipe → Pipe → Type 0 where
  passes :
      (chunk rest passed : Text) {closed : Bool}
      → 1 ≤ length chunk
      → length chunk ≤ 65536
      → Copies closed
          (record { coming = chunk ++ rest; passed = passed; lost = [] })
          (record { coming = rest; passed = passed ++ chunk; lost = [] })
  loses :
      (chunk rest passed lost : Text)
      → 1 ≤ length chunk
      → length chunk ≤ 65536
      → Copies true
          (record { coming = chunk ++ rest; passed = passed; lost = lost })
          (record { coming = rest; passed = passed; lost = lost ++ chunk })

-- `up` goes from the client to the upstream, `down` back. `inside` says that `gather` still waits.
pub record Tunnel : Type 0 where
  pub up : Pipe
  pub down : Pipe
  pub up_stage : Stage
  pub down_stage : Stage
  pub upstream_closed : Bool
  pub client_closed : Bool
  pub inside : Bool

-- A step of either task or of the one that waits for both. The end of a stream is read where its
-- sender is at its end, or the own transport is closed. A task that raises does not stop the other,
-- but `gather` raises at once; the two `finally` clauses that follow have no await between them.
pub data Step : Tunnel → Tunnel → Type 0 where
  up_copies :
      {t : Tunnel} {p : Pipe}
      → t.up_stage ≡ copying
      → Copies t.upstream_closed t.up p
      → Step t (record t { up = p })
  up_finishes :
      {t : Tunnel}
      → t.up_stage ≡ copying
      → (t.up.coming ≡ []) ⊎ (t.client_closed ≡ true)
      → Step t (record t { up_stage = finished; upstream_closed = true })
  up_breaks :
      {t : Tunnel}
      → t.up_stage ≡ copying
      → Step t (record t { up_stage = broken; upstream_closed = true })
  down_copies :
      {t : Tunnel} {p : Pipe}
      → t.down_stage ≡ copying
      → Copies t.client_closed t.down p
      → Step t (record t { down = p })
  down_finishes :
      {t : Tunnel}
      → t.down_stage ≡ copying
      → (t.down.coming ≡ []) ⊎ (t.upstream_closed ≡ true)
      → Step t (record t { down_stage = finished; client_closed = true })
  down_breaks :
      {t : Tunnel}
      → t.down_stage ≡ copying
      → Step t (record t { down_stage = broken; client_closed = true })
  leaves :
      {t : Tunnel}
      → ((t.up_stage ≡ finished) × (t.down_stage ≡ finished))
        ⊎ ((t.up_stage ≡ broken) ⊎ (t.down_stage ≡ broken))
      → Step t (record t { upstream_closed = true; client_closed = true; inside = false })

pub data Reach (y : Tunnel) : Tunnel → Type 0 where
  here : Reach y y
  then_step : {x z : Tunnel} → Reach y x → Step x z → Reach y z

abbrev pub pipe_of : Text → Pipe
pipe_of sends = record { coming = sends; passed = []; lost = [] }

-- The tunnel when the copying begins, by all that its two ends ever send.
abbrev pub opened : Text → Text → Tunnel
opened client_sends upstream_sends = record {
  up = pipe_of client_sends;
  down = pipe_of upstream_sends;
  up_stage = copying;
  down_stage = copying;
  upstream_closed = false;
  client_closed = false;
  inside = true;
}
