-- ===== src/Certs/Authority.antt =====
-- certs.py: `ensure_ca_certificate`, and what `x509.CertificateBuilder` is told.
use codex_reset_proxy.Prelude.{
  ℕ, ◌+◌, ◌-◌, ◌*◌, Bool, true, false, Option, List, [], ◌∷◌, if◌then◌else◌,
}
use codex_reset_proxy.Text.{Text, codes}
use codex_reset_proxy.Certs.{
  FilePath, System, Io, ret, ◌>>=◌, ◌>>◌, ask, or_value_error, mkdir, both_exist, write_bytes,
}

-- An entry of a SubjectAlternativeName; the address as `ipaddress` writes it.
pub data GeneralName : Type 0 where
  ip_address dns_name : Text → GeneralName

-- The nine flags of a KeyUsage that the code sets, by those that are true.
pub record KeyUsage : Type 0 where
  pub digital_signature : Bool
  pub key_cert_sign : Bool
  pub crl_sign : Bool
  pub key_encipherment : Bool

-- The extensions that the code adds, each with its `critical` flag.
pub data Extension (Key : Type 0) : Type 0 where
  -- ca, with path_length=None
  basic_constraints : Bool → Bool → Extension Key
  key_usage : KeyUsage → Bool → Extension Key
  -- of the public half of the key
  subject_key_identifier : Key → Bool → Extension Key
  server_auth : Bool → Extension Key
  subject_alt_name : GeneralName → Bool → Extension Key

-- What a builder was told before it signs; `public_key` is the public half of the key. Times are in
-- seconds.
pub record Contents (Key Name : Type 0) : Type 0 where
  pub subject : Name
  pub issuer : Name
  pub public_key : Key
  pub serial_number : ℕ
  pub not_valid_before : ℕ
  pub not_valid_after : ℕ
  pub extensions : List (Extension Key)

-- `cryptography`, `ipaddress` and the clock: what is random or read from the clock depends on the
-- number of calls before it.
pub record Library (Key Name Certificate : Type 0) : Type 0 where
  pub generate_private_key : ℕ → Key
  pub random_serial_number : ℕ → ℕ
  pub now : ℕ → ℕ
  -- x509.Name([x509.NameAttribute(NameOID.COMMON_NAME, ...)])
  pub common_name : Text → Option Name
  pub sign : Contents Key Name → Key → Certificate
  -- private_bytes in PEM and TraditionalOpenSSL without encryption, and load_pem_private_key
  pub private_bytes : Key → Text
  pub load_private_key : Text → Option Key
  -- public_bytes in PEM, load_pem_x509_certificate, and a certificate's `subject`
  pub public_bytes : Certificate → Text
  pub load_certificate : Text → Option Certificate
  pub subject_of : Certificate → Name
  -- str(ipaddress.ip_address(host)) and x509.DNSName(host)
  pub address_of : Text → Option Text
  pub is_dns_name : Text → Bool
  -- context.load_cert_chain, by the contents of the two files
  pub load_cert_chain : Text → Text → Bool

abbrev pub ca_key_path : FilePath
ca_key_path = codes "ca.key" ∷ []

abbrev pub ca_cert_path : FilePath
ca_cert_path = codes "ca.crt" ∷ []

abbrev pub ca_common_name : Text
ca_common_name = codes "codex-reset-proxy local MITM CA"

abbrev pub minutes : ℕ → ℕ
minutes n = n * 60

abbrev pub days : ℕ → ℕ
days n = n * 86400

abbrev pub ca_contents : {Key Name : Type 0} → Name → Key → ℕ → ℕ → Contents Key Name
ca_contents subject key now serial = record {
  subject = subject;
  issuer = subject;
  public_key = key;
  serial_number = serial;
  not_valid_before = now - minutes 5;
  not_valid_after = now + days 3650;
  extensions =
      basic_constraints true true
      ∷ key_usage
          (record {
            digital_signature = true;
            key_cert_sign = true;
            crl_sign = true;
            key_encipherment = false;
          })
          true
      ∷ subject_key_identifier key false
      ∷ [];
}

module _ {Key Name Certificate : Type 0} (lib : Library Key Name Certificate) (os : System) where
  -- The two writes at the end, of the key first.
  unfoldable pub store_pair : FilePath → FilePath → Key → Certificate → Io (Unit {0})
  store_pair key_path cert_path key cert =
      write_bytes os key_path (lib.private_bytes key)
      >> write_bytes os cert_path (lib.public_bytes cert)

  unfoldable pub create_ca : Io (FilePath × FilePath)
  create_ca = do
    key ← ask lib.generate_private_key
    subject ← or_value_error (lib.common_name ca_common_name)
    now ← ask lib.now
    serial ← ask lib.random_serial_number
    store_pair ca_key_path ca_cert_path key (lib.sign (ca_contents subject key now serial) key)
    ret (ca_key_path, ca_cert_path)

  -- The key's path and the certificate's.
  unfoldable pub ensure_ca_certificate : Io (FilePath × FilePath)
  ensure_ca_certificate = do
    mkdir os
    present ← both_exist os ca_key_path ca_cert_path
    if present then ret (ca_key_path, ca_cert_path) else create_ca
