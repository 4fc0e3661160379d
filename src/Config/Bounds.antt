-- ===== src/Config/Bounds.antt =====
-- config.py: what the settings that `Settings.from_env` returns are bound to.
use codex_reset_proxy.Prelude.{
  ℕ, ◌≤◌, ◌≡◌, refl, Bool, true, false, not, List, [], ◌∷◌, length, map, Option-cases, inl, inr,
  arith, max,
}
use codex_reset_proxy.Text.{Text, codes, elem, is_empty}
use codex_reset_proxy.Runtime.{Runtime}
use codex_reset_proxy.Config.{Settings, Result, ok, err, proceed}
use codex_reset_proxy.Config.Env.{
  Environ, env_optional, env_csv_tuple, env_csv_tuple_lower, nonempty_or,
}
use codex_reset_proxy.Config.Validate.{
  guard, validate_optional_proxy, validate_listen_protocol, validate_transport_mode,
}
use codex_reset_proxy.Config.FromEnv.{from_env}

abbrev pub protocols : List Text
protocols = codes "http_reverse" ∷ codes "socks5_tunnel" ∷ codes "socks5_mitm" ∷ []

abbrev pub modes : List Text
modes = codes "http" ∷ codes "websocket_per_request" ∷ []

-- What holds of a value, if there is one.
abbrev pub Holds : {A : Type 0} → (A → Type 0) → Result A → Type 0
Holds P (err e) = Unit {0}
Holds P (ok a) = P a

bind-Holds :
    {A B : Type 0} (Q : A → Type 0) (P : B → Type 0) (r : Result A) (next : A → Result B)
    → Holds Q r
    → ((a : A) → Q a → Holds P (next a))
    → Holds P (proceed next r)
unfolding proceed
bind-Holds Q P (err e) next q h = tt
bind-Holds Q P (ok a) next q h = h a q

-- A step of which nothing is needed.
any-Holds :
    {A B : Type 0} (P : B → Type 0) (r : Result A) (next : A → Result B)
    → ((a : A) → Holds P (next a))
    → Holds P (proceed next r)
unfolding proceed
any-Holds P (err e) next h = tt
any-Holds P (ok a) next h = h a

check-Holds :
    {B : Type 0} (Q : Type 0) (P : B → Type 0) (r : Result (Unit {0})) (rest : Result B)
    → Holds (λ u. Q) r
    → (Q → Holds P rest)
    → Holds P (proceed (λ u. rest) r)
unfolding proceed
check-Holds Q P (err e) rest q h = tt
check-Holds Q P (ok u) rest q h = h q

guard-Holds : (b : Bool) (message : Text) → Holds (λ u. b ≡ true) (guard b message)
unfolding guard
guard-Holds true message = refl
guard-Holds false message = tt

protocol-Holds :
    (py : Runtime) (v : Text) → Holds (λ u. elem v protocols ≡ true) (validate_listen_protocol py v)
unfolding validate_listen_protocol
protocol-Holds py v = guard-Holds (elem v protocols) _

mode-Holds :
    (py : Runtime) (v : Text) → Holds (λ u. elem v modes ≡ true) (validate_transport_mode py v)
unfolding validate_transport_mode
mode-Holds py v = guard-Holds (elem v modes) _

passed-Holds : (r : Result (Unit {0})) → Holds (λ u. r ≡ ok tt) r
passed-Holds (err e) = tt
passed-Holds (ok u) = refl

abbrev IsLong : List Text → Type 0
IsLong items = 1 ≤ length items

nonempty-IsLong :
    (py : Runtime) (name : Text) (items : List Text) → Holds IsLong (nonempty_or py name items)
nonempty-IsLong py name [] = tt
nonempty-IsLong py name (x ∷ xs) = omega arith

at_least_one : (n : ℕ) → 1 ≤ max 1 n
at_least_one n = omega arith

nonempty_text : (s : Text) → not (is_empty s) ≡ true → 1 ≤ length s
nonempty_text [] h = absurd (ground (arith, h))
nonempty_text (c ∷ cs) h = omega arith

-- Settings that the rest of the program can rely on.
abbrev pub IsChecked : Runtime → Settings → Type 0
IsChecked py s =
    (elem s.listen_protocol protocols ≡ true)
    × (elem s.transport_mode modes ≡ true)
    × (validate_optional_proxy py s.outbound_proxy ≡ ok tt)
    × (1 ≤ s.listen_port)
    × (1 ≤ s.upstream_max_attempts)
    × (1 ≤ s.max_request_body_bytes)
    × (1 ≤ length s.upstream_api_key_header)
    × (1 ≤ length s.intercept_paths)
    × (1 ≤ length s.websocket_pool_key_headers)

module _ (py : Runtime) (env : Environ) where
  env_csv_tuple-IsLong :
      (name : Text) (default : List Text)
      → IsLong default
      → Holds IsLong (env_csv_tuple py env name default)
  unfolding env_csv_tuple
  env_csv_tuple-IsLong name default long = elim (Option-cases (env_optional env name)) [
    | inl absent ↦ rw (absent, env_csv_tuple) long
    | inr (v, e) ↦ rw (e, env_csv_tuple) (nonempty-IsLong py name _)
  ]

  env_csv_tuple_lower-IsLong :
      (name : Text) (default : List Text)
      → IsLong default
      → Holds IsLong (env_csv_tuple_lower py env name default)
  unfolding env_csv_tuple_lower
  env_csv_tuple_lower-IsLong name default long =
      bind-Holds IsLong IsLong (env_csv_tuple py env name default) _
        (env_csv_tuple-IsLong name default long) (λ items h. mapped items h)
    where
      mapped : (items : List Text) → IsLong items → IsLong (map py.str_lower items)
      mapped [] h = h
      mapped (x ∷ xs) h = omega arith

  -- Settings that come from the environment have one of the protocols and one of the modes, an
  -- outbound proxy that passes its validator if there is one, a port, a number of attempts and a
  -- limit of bodies of at least 1, and a name for the API key, paths and identity headers that are
  -- not empty. Otherwise there is an exception and no settings.
  pub from_env-IsChecked : Holds (IsChecked py) (from_env py env)
  unfolding from_env
  from_env-IsChecked = any-Holds (IsChecked py) _ _ (λ raw_url.
      any-Holds (IsChecked py) _ _ (λ parsed.
        check-Holds _ (IsChecked py) _ _ (guard-Holds _ _) (λ has_header.
          check-Holds _ (IsChecked py) _ _ (protocol-Holds py _) (λ is_protocol.
            check-Holds _ (IsChecked py) _ _ (passed-Holds _) (λ is_proxy.
              check-Holds _ (IsChecked py) _ _ (mode-Holds py _) (λ is_mode.
                any-Holds (IsChecked py) _ _ (λ listen_port.
                  bind-Holds IsLong (IsChecked py) _ _ (env_csv_tuple-IsLong _ _ (omega arith))
                    (λ paths long_paths. any-Holds (IsChecked py) _ _ (λ header_timeout.
                      any-Holds (IsChecked py) _ _ (λ max_attempts.
                        any-Holds (IsChecked py) _ _ (λ connect.
                          any-Holds (IsChecked py) _ _ (λ write.
                            any-Holds (IsChecked py) _ _ (λ pool.
                              any-Holds (IsChecked py) _ _ (λ first.
                                any-Holds (IsChecked py) _ _ (λ idle.
                                  any-Holds (IsChecked py) _ _ (λ processed.
                                    any-Holds (IsChecked py) _ _ (λ send.
                                      any-Holds (IsChecked py) _ _ (λ enabled.
                                        any-Holds (IsChecked py) _ _ (λ max_idle.
                                          any-Holds (IsChecked py) _ _ (λ pool_idle.
                                            bind-Holds IsLong (IsChecked py) _ _
                                              (env_csv_tuple_lower-IsLong _ _ (omega arith))
                                              (λ keys long_keys.
                                                any-Holds (IsChecked py) _ _ (λ body_bytes.
                                                  any-Holds (IsChecked py) _ _ (λ backoff. (
                                                    is_protocol,
                                                    is_mode,
                                                    is_proxy,
                                                    at_least_one _,
                                                    at_least_one _,
                                                    at_least_one _,
                                                    nonempty_text _ has_header,
                                                    long_paths,
                                                    long_keys,
                                                  ))))))))))))))))))))))))
