-- ===== src/Socks/Handshake.antt =====
-- The SOCKS5 client and server of this repository, connected to each other.
use codex_reset_proxy.Prelude.{
  ℕ, ◌+◌, ◌/◌, ◌%◌, ◌<◌, ◌≡◌, refl, true, false, Option, some, [], ◌∷◌, ◌++◌, ltb, length, arith,
  Bool-cases, inl, inr, ◌&&◌,
}
use codex_reset_proxy.Text.{Text, is_empty}
use codex_reset_proxy.Runtime.{Runtime}
use codex_reset_proxy.Socks.{Proc, ret, fail, send, receive, ◌>>=◌, incomplete_read}
use codex_reset_proxy.Socks.Server.{
  SocksTarget, read_greeting, choose_method, read_connect, read_socks_address, has_byte, from_bytes,
  read_domain, read_target,
}
use codex_reset_proxy.Socks.Server
use codex_reset_proxy.Socks.Client.{
  negotiate, use_method, send_connect, check_reply, check_bound_address, closed,
}
use codex_reset_proxy.Socks.Net.{
  advance, Net, net, Run, stop, IsQuiet, settles, client_writes, server_writes, client_reads,
  server_reads, client_reads_all, server_reads_all,
}

module _ (py : Runtime) (username password host : Text) (port : ℕ) (raw decoded : Text) where
  abbrev pub start : Net (Unit {0}) (Option SocksTarget)
  start = net (negotiate py username password host port) (Server.socks5_handshake py) [] []

  abbrev pub agreed : Net (Unit {0}) (Option SocksTarget)
  agreed = net (ret tt) (ret (some (record { host = decoded; port = port }))) [] []

  agreed-IsQuiet : IsQuiet agreed
  unfolding advance
  agreed-IsQuiet = (refl, refl)

  -- The method is chosen, and the client is about to send its request.
  chosen : Net (Unit {0}) (Option SocksTarget)
  chosen =
      net (send_connect (py.encode_idna host) port)
        (receive 4 (read_connect py) (fail incomplete_read)) [] []

  choose :
      (client : Text → Proc (Unit {0})) (other : Proc (Unit {0})) (methods : Text)
      → (client (0x05 ∷ 0x00 ∷ []) ≡ send_connect (py.encode_idna host) port)
      → (has_byte 0 methods ≡ true)
      → Run 9 chosen agreed
      → Run 14
          (net
            (send (0x05 ∷ length methods ∷ methods) (receive 2 client other))
            (Server.socks5_handshake py)
            []
            [])
          agreed
  unfolding advance Server.socks5_handshake read_greeting choose_method chosen
  choose client other methods e has run = client_writes _ _ _ [] [] (
      server_reads (0x05 ∷ length methods ∷ []) methods _ _ _ [] refl (
        server_reads_all methods _ _ _ [] refl (
          rw has (
            server_writes (0x05 ∷ 0x00 ∷ []) _ _ [] []
              (client_reads_all (0x05 ∷ 0x00 ∷ []) client _ _ [] refl (rw e run))))))

  port_bytes : port < 65536 → from_bytes 0 (port / 256 ∷ port % 256 ∷ []) ≡ port
  unfolding from_bytes
  port_bytes small = omega arith

  connect :
      py.encode_idna host ≡ some raw
      → py.decode_idna raw ≡ some decoded
      → length raw < 256
      → port < 65536
      → Run 9 chosen agreed
  unfolding chosen read_connect read_socks_address ◌>>=◌ check_reply check_bound_address
  connect e d short small =
      let fits : ltb 255 (length raw) ≡ false = ground arith in
      let in_range : ltb 65535 port ≡ false = ground arith in
      let last = port / 256 ∷ port % 256 ∷ [] in
      rw e (
        rw (fits, in_range)
          (client_writes _ _ _ [] [] (
            server_reads (5 ∷ 1 ∷ 0 ∷ 3 ∷ []) (length raw ∷ raw ++ last) _ _ _ [] refl (
              server_reads (length raw ∷ []) (raw ++ last) _ _ _ [] refl (
                server_reads raw last _ _ _ [] refl (
                  rw d (
                    server_reads_all last _ _ _ [] refl (
                      rw (port_bytes small) (
                        server_writes _ _ _ [] [] (
                          client_reads (5 ∷ 0 ∷ 0 ∷ 1 ∷ []) (0 ∷ 0 ∷ 0 ∷ 0 ∷ 0 ∷ 0 ∷ []) check_reply
                            _ _ [] refl
                            (client_reads (0 ∷ 0 ∷ 0 ∷ 0 ∷ []) (0 ∷ 0 ∷ []) _ _ _ [] refl
                              (client_reads_all (0 ∷ 0 ∷ []) _ _ _ [] refl stop))))))))))))

  whole : Run 9 chosen agreed → Run 14 start agreed
  unfolding negotiate use_method has_byte
  whole run = elim (Bool-cases (is_empty username && is_empty password)) [
    | inl none_given ↦
        rw none_given
          (choose (use_method py username password host port) closed (0x00 ∷ []) refl refl run)
    | inr given ↦
        rw given (
          choose (use_method py username password host port) closed (0x00 ∷ 0x02 ∷ []) refl refl
            run)
  ]

  -- Connected to each other, the repository's client and its server agree, with or without
  -- credentials: in whatever order their steps interleave, the handshake takes 14 steps in all, and
  -- whatever part of them is done, the others lead to the state where the client has returned, the
  -- server has the destination and no byte is left in either direction. This is for a host whose
  -- IDNA encoding has fewer than 256 bytes, and a port below 65536; the destination that the server
  -- has is the port and the decoding of that encoding.
  pub negotiate-agreed :
      {k : ℕ} {b : Net (Unit {0}) (Option SocksTarget)}
      → py.encode_idna host ≡ some raw
      → py.decode_idna raw ≡ some decoded
      → length raw < 256
      → port < 65536
      → Run k start b
      → (m : ℕ) × (14 ≡ k + m) × Run m b agreed
  negotiate-agreed e d short small run =
      settles (whole (connect e d short small)) agreed-IsQuiet run
