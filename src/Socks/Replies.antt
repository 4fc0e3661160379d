-- ===== src/Socks/Replies.antt =====
-- socks_mitm.py: what `_socks5_handshake` tells its client, on every input.
use codex_reset_proxy.Prelude.{
  ℕ, ◌≡◌, refl, Bool, true, false, not, Option, none, some, [], ◌∷◌, ◌++◌, ltb, ◌==◌, length, take,
  drop, if◌then◌else◌, Bool-cases, Option-cases, inl, inr, ◌⊎◌,
}
use codex_reset_proxy.Text.{Text}
use codex_reset_proxy.Runtime.{Runtime}
use codex_reset_proxy.Socks.{
  Error, Proc, ret, fail, send, receive, ◌>>=◌, End, returns, raises, run_on, socks_version,
  socks_no_auth, socks_cmd_connect, socks_atyp_ipv4, socks_atyp_domain, socks_atyp_ipv6,
}
use codex_reset_proxy.Socks.Server.{
  SocksTarget, socks5_handshake, read_greeting, choose_method, read_connect, read_target,
  read_domain, read_socks_address, has_byte, or_unicode_error,
}

-- The reply of `_send_socks_reply`.
abbrev pub reply : ℕ → Text
reply code = 5 ∷ code ∷ 0 ∷ 1 ∷ 0 ∷ 0 ∷ 0 ∷ 0 ∷ 0 ∷ 0 ∷ []

-- The two bytes that choose the method.
abbrev accepted : Text → Text
accepted more = 5 ∷ 0 ∷ more

-- A target goes with the reply of success, and only with it; no target goes with one of the other
-- replies or with none, and an exception with none behind the choice of the method.
abbrev pub IsTold : Text → End (Option SocksTarget) → Type 0
IsTold written (returns (some t)) = written ≡ accepted (reply 0)
IsTold written (returns none) =
    (written ≡ [])
    ⊎ ((written ≡ 5 ∷ 0xff ∷ [])
        ⊎ ((written ≡ accepted (reply 1)) ⊎ (written ≡ accepted (reply 7))))
IsTold written (raises e) = (written ≡ []) ⊎ (written ≡ accepted [])

-- What holds of every run of a process, whatever it reads.
abbrev Always : {A : Type 0} → (Text → End A → Type 0) → Proc A → Type 0
Always P (ret a) = P [] (returns a)
Always P (fail e) = P [] (raises e)
Always P (send bytes p) = Always (λ written. P (bytes ++ written)) p
Always P (receive n p closed) = ((bytes : Text) → Always P (p bytes)) × Always P closed

run_on-Always :
    {A : Type 0} (P : Text → End A → Type 0) (p : Proc A) (s : Text)
    → Always P p
    → P (run_on p s).0 (run_on p s).1
unfolding run_on
run_on-Always P (ret a) s h = h
run_on-Always P (fail e) s h = h
run_on-Always P (send bytes p) s h = run_on-Always (λ written. P (bytes ++ written)) p s h
run_on-Always P (receive n p closed) s h = elim (Bool-cases (ltb (length s) n)) [
  | inl short ↦ rw short (run_on-Always P closed [] h.1)
  | inr enough ↦ rw enough (run_on-Always P (p (take n s)) (drop n s) (h.0 (take n s)))
]

Always-if :
    {A : Type 0} (P : Text → End A → Type 0) (b : Bool) (p q : Proc A)
    → Always P p
    → Always P q
    → Always P (if b then p else q)
Always-if P true p q h k = h
Always-if P false p q h k = k

-- A process that only reads.
abbrev IsSilent : {A : Type 0} → Proc A → Type 0
IsSilent (ret a) = Unit {0}
IsSilent (fail e) = Unit {0}
IsSilent (send bytes p) = ⊥
IsSilent (receive n p closed) = ((bytes : Text) → IsSilent (p bytes)) × IsSilent closed

Always-bind :
    {A B : Type 0} (P : Text → End B → Type 0) (p : Proc A) (next : A → Proc B)
    → IsSilent p
    → ((e : Error) → P [] (raises e))
    → ((a : A) → Always P (next a))
    → Always P (p >>= next)
unfolding ◌>>=◌
Always-bind P (ret a) next q h k = k a
Always-bind P (fail e) next q h k = h e
Always-bind P (send bytes p) next q h k = absurd q
Always-bind P (receive n p closed) next q h k =
    (λ bytes. Always-bind P (p bytes) next (q.0 bytes) h k, Always-bind P closed next q.1 h k)

IsSilent-if :
    {A : Type 0} (b : Bool) (p q : Proc A) → IsSilent p → IsSilent q → IsSilent (if b then p else q)
IsSilent-if true p q h k = h
IsSilent-if false p q h k = k

-- The rest of the handshake behind the choice of the method.
abbrev IsToldLater : Text → End (Option SocksTarget) → Type 0
IsToldLater written = IsTold (accepted written)

module _ (py : Runtime) where
  read_domain-IsSilent : (bytes : Text) → IsSilent (read_domain py bytes)
  read_domain-IsSilent [] = tt
  read_domain-IsSilent (n ∷ []) = (decoded, tt)
    where
      decoded : (raw : Text) → IsSilent (or_unicode_error (py.decode_idna raw))
      decoded raw = elim (Option-cases (py.decode_idna raw)) [
        | inl bad ↦ rw bad tt
        | inr (s, e) ↦ rw e tt
      ]
  read_domain-IsSilent (n ∷ m ∷ more) = tt

  read_socks_address-IsSilent : (atyp : ℕ) → IsSilent (read_socks_address py atyp)
  unfolding read_socks_address
  read_socks_address-IsSilent atyp =
      IsSilent-if (atyp == socks_atyp_ipv4) _ _ (λ bytes. tt, tt)
        (IsSilent-if (atyp == socks_atyp_domain) _ _ (read_domain-IsSilent, tt)
          (IsSilent-if (atyp == socks_atyp_ipv6) _ _ (λ bytes. tt, tt) tt))

  read_target-told : (atyp : ℕ) → Always IsToldLater (read_target py atyp)
  unfolding ◌>>=◌
  read_target-told atyp =
      Always-bind IsToldLater (read_socks_address py atyp) _ (read_socks_address-IsSilent atyp)
        (λ e. inr refl) (λ host. (λ bytes. refl, inr refl))

  read_connect-told : (bytes : Text) → Always IsToldLater (read_connect py bytes)
  unfolding read_connect
  read_connect-told (version ∷ command ∷ reserved ∷ atyp ∷ []) =
      Always-if IsToldLater (not (version == socks_version)) _ _ (inr (inr (inl refl))) (
        Always-if IsToldLater (not (command == socks_cmd_connect)) _ _ (inr (inr (inr refl)))
          (read_target-told atyp))
  read_connect-told [] = inr refl
  read_connect-told (a ∷ []) = inr refl
  read_connect-told (a ∷ b ∷ []) = inr refl
  read_connect-told (a ∷ b ∷ c ∷ []) = inr refl
  read_connect-told (a ∷ b ∷ c ∷ d ∷ e ∷ more) = inr refl

  choose_method-IsTold : (methods : Text) → Always IsTold (choose_method py methods)
  unfolding choose_method
  choose_method-IsTold methods =
      Always-if IsTold (not (has_byte socks_no_auth methods)) _ _ (inr (inl refl))
        (read_connect-told, inr refl)

  read_greeting-IsTold : (bytes : Text) → Always IsTold (read_greeting py bytes)
  unfolding read_greeting
  read_greeting-IsTold (version ∷ count ∷ []) =
      Always-if IsTold (not (version == socks_version)) _ _ (inl refl)
        (choose_method-IsTold, inl refl)
  read_greeting-IsTold [] = inl refl
  read_greeting-IsTold (a ∷ []) = inl refl
  read_greeting-IsTold (a ∷ b ∷ c ∷ more) = inl refl

  -- Whatever the client sends, the handshake gives a target exactly when it has written the choice
  -- of the method and then the reply of success, and nothing else; it gives none when it has
  -- written nothing, the refusal of the methods, or the choice and one of the replies 1 and 7; and
  -- when it raises, it has written nothing, or the choice alone.
  pub socks5_handshake-IsTold :
      (s : Text) → IsTold (run_on (socks5_handshake py) s).0 (run_on (socks5_handshake py) s).1
  unfolding socks5_handshake
  socks5_handshake-IsTold s =
      run_on-Always IsTold (socks5_handshake py) s (read_greeting-IsTold, inl refl)
