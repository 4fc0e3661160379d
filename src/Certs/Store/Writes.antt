-- ===== src/Certs/Store/Writes.antt =====
-- certs.py: the files that are written, and the certificate directory with them.
use mathlib.Core.Option.{some_inj}
use codex_reset_proxy.Prelude.{ℕ, ◌≡◌, refl, sym, ap, ◌∙◌, none, some, inl, inr, arith}
use codex_reset_proxy.Text.{Text, eqb}
use codex_reset_proxy.Certs.{Files, path_eqb, put}
use codex_reset_proxy.Certs.Names.{safe_filename}
use codex_reset_proxy.Certs.Authority.{
  GeneralName, Library, ca_common_name, ca_contents, ca_key_path, ca_cert_path,
}
use codex_reset_proxy.Certs.Leaf.{leaf_cert_path, leaf_key_path, leaf_contents, subject_alternative}
use codex_reset_proxy.Certs.Files.{put-same, put-other, key-cert, cert-key, leaf-leaf}
use codex_reset_proxy.Certs.Store.{IsCa, IsLeaf, IsStore}

module _ {Key Name Certificate : Type 0} (lib : Library Key Name Certificate) where
  -- Without the CA's certificate there is no other.
  no_leaf :
      (files : Files) (name cert : Text)
      → IsStore lib files
      → files ca_cert_path ≡ none
      → ¬ files (leaf_cert_path name) ≡ some cert
  no_leaf files name cert store absent h =
      absurd (ground (arith, absent, ((store.1 name cert h).ca_cert_file)))

  IsCa-along :
      (files files' : Files) (cert : Text)
      → files' ca_key_path ≡ files ca_key_path
      → IsCa lib files cert
      → IsCa lib files' cert
  IsCa-along files files' cert same ca = record {
    key = ca.key;
    name = ca.name;
    now = ca.now;
    serial = ca.serial;
    key_file = same ∙ ca.key_file;
    is_name = ca.is_name;
    is_cert = ca.is_cert;
  }

  IsLeaf-along :
      (files files' : Files) (name cert : Text)
      → files' ca_key_path ≡ files ca_key_path
      → files' ca_cert_path ≡ files ca_cert_path
      → files' (leaf_key_path name) ≡ files (leaf_key_path name)
      → IsLeaf lib files name cert
      → IsLeaf lib files' name cert
  IsLeaf-along files files' name cert same_key same_cert same_leaf leaf = record {
    host = leaf.host;
    is_host = leaf.is_host;
    ca_key = leaf.ca_key;
    ca_cert = leaf.ca_cert;
    key = leaf.key;
    subject = leaf.subject;
    alternative = leaf.alternative;
    now = leaf.now;
    serial = leaf.serial;
    ca_key_file = same_key ∙ leaf.ca_key_file;
    ca_cert_file = same_cert ∙ leaf.ca_cert_file;
    key_file = same_leaf ∙ leaf.key_file;
    is_subject = leaf.is_subject;
    is_alternative = leaf.is_alternative;
    is_cert = leaf.is_cert;
  }

  module _ (files : Files) (store : IsStore lib files) where
    module _ (absent : files ca_cert_path ≡ none) where
      -- Only the CA's key is new.
      pub put_ca_key-IsStore : (bytes : Text) → IsStore lib (put ca_key_path bytes files)
      unfolding path_eqb eqb
      put_ca_key-IsStore bytes =
          let same = put-other ca_cert_path ca_key_path bytes files refl in
          (
            λ cert h. absurd (ground (arith, absent, sym same ∙ h)),
            λ name cert h. absurd (
                no_leaf files name cert store absent
                  (sym (put-other (leaf_cert_path name) ca_key_path bytes files refl) ∙ h)),
          )

      pub put_ca_pair-IsStore :
          (key : Key) (name : Name) (now serial : ℕ)
          → lib.common_name ca_common_name ≡ some name
          → IsStore lib (
              put ca_cert_path
                (lib.public_bytes (lib.sign (ca_contents name key now serial) key))
                (put ca_key_path (lib.private_bytes key) files))
      unfolding path_eqb eqb
      put_ca_pair-IsStore key name now serial named =
          let with_key = put ca_key_path (lib.private_bytes key) files in
          let bytes = lib.public_bytes (lib.sign (ca_contents name key now serial) key) in
          (
            λ cert h. record {
              key = key;
              name = name;
              now = now;
              serial = serial;
              key_file =
                  put-other ca_key_path ca_cert_path bytes with_key refl
                  ∙ put-same ca_key_path (lib.private_bytes key) files;
              is_name = named;
              is_cert = some_inj.0 (sym h ∙ put-same ca_cert_path bytes with_key);
            },
            λ leaf cert h. absurd (
                no_leaf with_key leaf cert (put_ca_key-IsStore (lib.private_bytes key))
                  (put-other ca_cert_path ca_key_path (lib.private_bytes key) files refl ∙ absent)
                  (sym (put-other (leaf_cert_path leaf) ca_cert_path bytes with_key refl) ∙ h)),
          )

    -- Only the key of a new leaf is new.
    pub put_leaf_key-IsStore :
        (name bytes : Text)
        → files (leaf_cert_path name) ≡ none
        → IsStore lib (put (leaf_key_path name) bytes files)
    unfolding path_eqb eqb
    put_leaf_key-IsStore name bytes absent = (authority, leaves)
      where
        new : Files
        new = put (leaf_key_path name) bytes files

        authority : (cert : Text) → new ca_cert_path ≡ some cert → IsCa lib new cert
        authority cert h =
            IsCa-along files new cert (put-other ca_key_path (leaf_key_path name) bytes files refl)
              (store.0 cert
                (sym (put-other ca_cert_path (leaf_key_path name) bytes files refl) ∙ h))

        leaves : (n cert : Text) → new (leaf_cert_path n) ≡ some cert → IsLeaf lib new n cert
        leaves n cert h =
            let before =
              sym (put-other (leaf_cert_path n) (leaf_key_path name) bytes files (cert-key n name))
              ∙ h in
            elim (leaf-leaf n name) [
              | inl e ↦
                  absurd
                    (ground (arith, absent, sym (ap (λ k. files (leaf_cert_path k)) e) ∙ before))
              | inr apart ↦
                  IsLeaf-along files new n cert
                    (put-other ca_key_path (leaf_key_path name) bytes files refl)
                    (put-other ca_cert_path (leaf_key_path name) bytes files refl)
                    (put-other (leaf_key_path n) (leaf_key_path name) bytes files apart.1)
                    (store.1 n cert before)
            ]

    -- A leaf's certificate that goes with the files it is put to.
    pub put_leaf_cert-IsStore :
        (name bytes : Text)
        → IsLeaf lib (put (leaf_cert_path name) bytes files) name bytes
        → IsStore lib (put (leaf_cert_path name) bytes files)
    unfolding path_eqb eqb
    put_leaf_cert-IsStore name bytes leaf = (authority, leaves)
      where
        new : Files
        new = put (leaf_cert_path name) bytes files

        authority : (cert : Text) → new ca_cert_path ≡ some cert → IsCa lib new cert
        authority cert h =
            IsCa-along files new cert (put-other ca_key_path (leaf_cert_path name) bytes files refl)
              (store.0 cert
                (sym (put-other ca_cert_path (leaf_cert_path name) bytes files refl) ∙ h))

        own : (cert : Text) → new (leaf_cert_path name) ≡ some cert → bytes ≡ cert
        own cert h = some_inj.0 (sym (put-same (leaf_cert_path name) bytes files) ∙ h)

        leaves : (n cert : Text) → new (leaf_cert_path n) ≡ some cert → IsLeaf lib new n cert
        leaves n cert h = elim (leaf-leaf n name) [
          | inl e ↦
              let same = own cert (sym (ap (λ k. new (leaf_cert_path k)) e) ∙ h) in
              rw (e, sym same) leaf
          | inr apart ↦
              IsLeaf-along files new n cert
                (put-other ca_key_path (leaf_cert_path name) bytes files refl)
                (put-other ca_cert_path (leaf_cert_path name) bytes files refl)
                (put-other (leaf_key_path n) (leaf_cert_path name) bytes files (key-cert n name))
                (store.1 n cert (
                  sym (put-other (leaf_cert_path n) (leaf_cert_path name) bytes files apart.0) ∙ h))
        ]

  -- The pair that goes with the files it is put to.
  pub put_pair-IsLeaf :
      (files : Files) (host : Text) (ca_key key : Key) (ca_cert : Certificate) (subject : Name)
      (alternative : GeneralName) (now serial : ℕ)
      → files ca_key_path ≡ some (lib.private_bytes ca_key)
      → files ca_cert_path ≡ some (lib.public_bytes ca_cert)
      → lib.common_name host ≡ some subject
      → subject_alternative lib host ≡ some alternative
      → let name = safe_filename host in
        let bytes = lib.public_bytes (
          lib.sign
            (leaf_contents subject (lib.subject_of ca_cert) key now serial alternative)
            ca_key) in
        (leaf : IsLeaf lib
          (put (leaf_cert_path name) bytes (put (leaf_key_path name) (lib.private_bytes key) files))
          name
          bytes)
        × (leaf.host ≡ host)
  unfolding path_eqb eqb
  put_pair-IsLeaf files host ca_key key ca_cert subject alternative now serial has_key has_cert
        is_subject is_alternative =
      let name = safe_filename host in
      let with_key = put (leaf_key_path name) (lib.private_bytes key) files in
      (
        record {
          host = host;
          is_host = refl;
          ca_key = ca_key;
          ca_cert = ca_cert;
          key = key;
          subject = subject;
          alternative = alternative;
          now = now;
          serial = serial;
          ca_key_file =
              put-other ca_key_path (leaf_cert_path name) _ with_key refl
              ∙ put-other ca_key_path (leaf_key_path name) _ files refl
              ∙ has_key;
          ca_cert_file =
              put-other ca_cert_path (leaf_cert_path name) _ with_key refl
              ∙ put-other ca_cert_path (leaf_key_path name) _ files refl
              ∙ has_cert;
          key_file =
              put-other (leaf_key_path name) (leaf_cert_path name) _ with_key (key-cert name name)
              ∙ put-same (leaf_key_path name) _ files;
          is_subject = is_subject;
          is_alternative = is_alternative;
          is_cert = refl;
        },
        refl,
      )
