-- ===== src/Certs/Leaf.antt =====
-- certs.py: `ensure_leaf_certificate`, `_subject_alt_name` and `server_ssl_context_for_host`.
use codex_reset_proxy.Prelude.{
  ℕ, ◌+◌, ◌-◌, Bool, true, false, Option, none, some, List, [], ◌∷◌, ◌++◌, if◌then◌else◌,
}
use codex_reset_proxy.Text.{Text, codes}
use codex_reset_proxy.Certs.{
  FilePath, System, ssl_error, done, raised, Io, ret, ◌>>=◌, ◌>>◌, ask, or_value_error, mkdir,
  both_exist, read_bytes,
}
use codex_reset_proxy.Certs.Names.{safe_filename}
use codex_reset_proxy.Certs.Authority.{
  GeneralName, ip_address, dns_name, basic_constraints, key_usage, server_auth, subject_alt_name,
  Contents, Library, ca_key_path, ca_cert_path, minutes, days, store_pair, ensure_ca_certificate,
}

abbrev pub leaf_cert_path : Text → FilePath
leaf_cert_path name = codes "leaf" ∷ (name ++ codes ".crt") ∷ []

abbrev pub leaf_key_path : Text → FilePath
leaf_key_path name = codes "leaf" ∷ (name ++ codes ".key") ∷ []

-- A context for TLS servers, with HTTP/1.1 alone for ALPN.
pub record SslContext : Type 0 where
  pub minimum_version : Text
  pub alpn_protocols : List Text
  pub certfile : FilePath
  pub keyfile : FilePath

abbrev pub context_of : FilePath → FilePath → SslContext
context_of cert_path key_path = record {
  minimum_version = codes "TLSv1.2";
  alpn_protocols = codes "http/1.1" ∷ [];
  certfile = cert_path;
  keyfile = key_path;
}

abbrev pub or_ssl_error : Bool → Io (Unit {0})
or_ssl_error true m = done tt m
or_ssl_error false m = raised ssl_error m

abbrev pub leaf_contents :
    {Key Name : Type 0} → Name → Name → Key → ℕ → ℕ → GeneralName → Contents Key Name
leaf_contents subject issuer key now serial name = record {
  subject = subject;
  issuer = issuer;
  public_key = key;
  serial_number = serial;
  not_valid_before = now - minutes 5;
  not_valid_after = now + days 825;
  extensions =
      basic_constraints false true
      ∷ key_usage
          (record {
            digital_signature = true;
            key_cert_sign = false;
            crl_sign = false;
            key_encipherment = true;
          })
          true
      ∷ server_auth false
      ∷ subject_alt_name name false
      ∷ [];
}

module _ {Key Name Certificate : Type 0} (lib : Library Key Name Certificate) where
  -- `_subject_alt_name`: an address if the host reads as one, and a DNS name if not.
  unfoldable pub subject_alternative : Text → Option GeneralName
  subject_alternative host = elim (lib.address_of host) [
    | some address ↦ some (ip_address address)
    | none ↦ if lib.is_dns_name host then some (dns_name host) else none
  ]

  module _ (os : System) where
    unfoldable pub create_leaf : Text → Io (FilePath × FilePath)
    create_leaf host = do
      key_bytes ← read_bytes os ca_key_path
      ca_key ← or_value_error (lib.load_private_key key_bytes)
      cert_bytes ← read_bytes os ca_cert_path
      ca_cert ← or_value_error (lib.load_certificate cert_bytes)
      key ← ask lib.generate_private_key
      subject ← or_value_error (lib.common_name host)
      now ← ask lib.now
      serial ← ask lib.random_serial_number
      name ← or_value_error (subject_alternative host)
      let contents = leaf_contents subject (lib.subject_of ca_cert) key now serial name
      store_pair lib os (leaf_key_path (safe_filename host)) (leaf_cert_path (safe_filename host))
          key (lib.sign contents ca_key)
      ret (leaf_cert_path (safe_filename host), leaf_key_path (safe_filename host))

    -- The certificate's path and the key's.
    unfoldable pub ensure_leaf_certificate : Text → Io (FilePath × FilePath)
    ensure_leaf_certificate host = do
      _ ← ensure_ca_certificate lib os
      mkdir os
      present ←
          both_exist os (leaf_cert_path (safe_filename host)) (leaf_key_path (safe_filename host))
      if present
          then ret (leaf_cert_path (safe_filename host), leaf_key_path (safe_filename host))
          else create_leaf host

    -- context.load_cert_chain, which reads the two files
    unfoldable pub load_chain : FilePath → FilePath → Io (Unit {0})
    load_chain cert_path key_path = do
      cert ← read_bytes os cert_path
      key ← read_bytes os key_path
      or_ssl_error (lib.load_cert_chain cert key)

    unfoldable pub server_ssl_context_for_host : Text → Io SslContext
    server_ssl_context_for_host host = do
      (cert_path, key_path) ← ensure_leaf_certificate host
      load_chain cert_path key_path
      ret (context_of cert_path key_path)
