-- ===== src/Certs/Store.antt =====
-- certs.py: what the certificate directory holds between runs.
pub mod Writes
pub mod Made
pub mod Served
pub mod Again
use mathlib.Core.Option.{some_inj}
use codex_reset_proxy.Prelude.{
  ℕ, ◌≡◌, refl, sym, ap, ◌∙◌, Bool, true, false, Option, none, some, List, [], ◌∷◌, ◌++◌,
  Bool-cases, Option-cases, inl, inr, arith,
}
use codex_reset_proxy.Text.{Text, codes, eqb}
use codex_reset_proxy.Certs.{Files, path_eqb, put}
use codex_reset_proxy.Certs.Names.{safe_filename}
use codex_reset_proxy.Certs.Authority.{
  GeneralName, Library, ca_common_name, ca_contents, ca_key_path, ca_cert_path,
}
use codex_reset_proxy.Certs.Leaf.{leaf_cert_path, leaf_key_path, leaf_contents, subject_alternative}
use codex_reset_proxy.Certs.Files.{put-same, put-other, key-cert, cert-key, leaf-leaf}

module _ {Key Name Certificate : Type 0} (lib : Library Key Name Certificate) where
  -- The bytes of a certificate that the key beside it made for itself.
  pub record IsCa (files : Files) (cert : Text) : Type 0 where
    pub key : Key
    pub name : Name
    pub now : ℕ
    pub serial : ℕ
    pub key_file : files ca_key_path ≡ some (lib.private_bytes key)
    pub is_name : lib.common_name ca_common_name ≡ some name
    pub is_cert : cert ≡ lib.public_bytes (lib.sign (ca_contents name key now serial) key)

  -- The bytes of a certificate for a host of this file name, for the key beside it, signed with the
  -- CA's key on disk and issued by the subject of the CA's certificate on disk.
  pub record IsLeaf (files : Files) (name cert : Text) : Type 0 where
    pub host : Text
    pub is_host : safe_filename host ≡ name
    pub ca_key : Key
    pub ca_cert : Certificate
    pub key : Key
    pub subject : Name
    pub alternative : GeneralName
    pub now : ℕ
    pub serial : ℕ
    pub ca_key_file : files ca_key_path ≡ some (lib.private_bytes ca_key)
    pub ca_cert_file : files ca_cert_path ≡ some (lib.public_bytes ca_cert)
    pub key_file : files (leaf_key_path name) ≡ some (lib.private_bytes key)
    pub is_subject : lib.common_name host ≡ some subject
    pub is_alternative : subject_alternative lib host ≡ some alternative
    pub is_cert :
        cert
        ≡ lib.public_bytes (
            lib.sign
              (leaf_contents subject (lib.subject_of ca_cert) key now serial alternative)
              ca_key)

  abbrev pub IsStore : Files → Type 0
  IsStore files =
      ((cert : Text) → files ca_cert_path ≡ some cert → IsCa files cert)
      × ((name cert : Text) → files (leaf_cert_path name) ≡ some cert → IsLeaf files name cert)
