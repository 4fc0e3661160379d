-- ===== src/Certs/Store/Made.antt =====
-- certs.py: `ensure_ca_certificate` and `ensure_leaf_certificate` at a certificate directory.
use codex_reset_proxy.Prelude.{
  ℕ, ◌≡◌, refl, sym, ap, ◌∙◌, none, some, inl, inr, ◌⊎◌, Option-cases, arith,
}
use codex_reset_proxy.Text.{Text, eqb}
use codex_reset_proxy.Certs.{
  FilePath, path_eqb, put, Files, System, Machine, Exn, os_error, value_error, ssl_error, ret, ◌>>◌,
  called, write_bytes,
}
use codex_reset_proxy.Certs.Names.{safe_filename}
use codex_reset_proxy.Certs.Authority.{
  Library, ca_common_name, ca_key_path, ca_cert_path, ca_contents, store_pair, create_ca,
  ensure_ca_certificate,
}
use codex_reset_proxy.Certs.Leaf.{
  leaf_cert_path, leaf_key_path, subject_alternative, create_leaf, ensure_leaf_certificate,
}
use codex_reset_proxy.Certs.Files.{put-same, put-other}
use codex_reset_proxy.Certs.Runs.{
  Post, continue-Post, Fails, WritesWhole, later, or_value_error-Post, known-Post, ask-Post,
  mkdir-Post, read_bytes-Post, write_bytes-Post, both_exist-Post,
}
use codex_reset_proxy.Certs.Store.{IsCa, IsLeaf, IsStore}
use codex_reset_proxy.Certs.Store.Writes.{
  put_ca_key-IsStore, put_ca_pair-IsStore, put_leaf_key-IsStore, put_leaf_cert-IsStore,
  put_pair-IsLeaf,
}

module _ {Key Name Certificate : Type 0} (lib : Library Key Name Certificate) (os : System)
    (host : Text) where
  -- What an exception tells: a call on the file system raised, or a name is refused.
  abbrev pub Blames : Exn → Type 0
  Blames os_error = Fails os
  Blames value_error =
      (lib.common_name ca_common_name ≡ none)
      ⊎ ((lib.common_name host ≡ none) ⊎ (subject_alternative lib host ≡ none))
  Blames ssl_error = ⊥

  abbrev pub Explained : Exn → Machine → Type 0
  Explained e m = IsStore lib m.files × Blames e

  -- There is a CA, and for the host the certificate that was there before, if any.
  abbrev pub HasCa : Files → FilePath × FilePath → Machine → Type 0
  HasCa before paths m =
      IsStore lib m.files
      × ((cert : Text) × (m.files ca_cert_path ≡ some cert))
      × (m.files (leaf_cert_path (safe_filename host))
          ≡ before (leaf_cert_path (safe_filename host)))

  -- A certificate for the host itself, or one that was there before.
  abbrev pub IsForHost : Files → Files → Text → Type 0
  IsForHost before files cert =
      (leaf : IsLeaf lib files (safe_filename host) cert) × ((before
            (leaf_cert_path (safe_filename host))
          ≡ some cert)
        ⊎ (leaf.host ≡ host))

  -- The paths are those of the host's file name, and lead to a certificate and its key.
  abbrev pub HasLeaf : Files → FilePath × FilePath → Machine → Type 0
  HasLeaf before paths m =
      IsStore lib m.files
      × (paths ≡ (leaf_cert_path (safe_filename host), leaf_key_path (safe_filename host)))
      × ((cert : Text) × (m.files (leaf_cert_path (safe_filename host)) ≡ some cert)
          × IsForHost before m.files cert)

  -- Where the CA's key or certificate is missing, the certificate is.
  no_ca :
      (files : Files)
      → IsStore lib files
      → (files ca_key_path ≡ none) ⊎ (files ca_cert_path ≡ none)
      → files ca_cert_path ≡ none
  no_ca files store (inr absent) = absent
  no_ca files store (inl absent) = elim (Option-cases (files ca_cert_path)) [
    | inl h ↦ h
    | inr (cert, h) ↦ absurd (ground (arith, absent, (store.0 cert h).key_file))
  ]

  module _ (uncut : WritesWhole os) where
    -- The pair is written, or only its key, or nothing.
    store_pair-Post :
        (P : Unit {0} → Machine → Type 0) (key_path cert_path : FilePath) (key : Key)
        (cert : Certificate) (m : Machine)
        → ((n : ℕ)
            → P tt (record {
              files =
                  put cert_path
                    (lib.public_bytes cert)
                    (put key_path (lib.private_bytes key) m.files);
              calls = n;
            }))
        → IsStore lib m.files
        → IsStore lib (put key_path (lib.private_bytes key) m.files)
        → Post P Explained (store_pair lib os key_path cert_path key cert m)
    unfolding store_pair
    store_pair-Post P key_path cert_path key cert m k store with_key =
        continue-Post
          (λ u m'. Post P Explained (write_bytes os cert_path (lib.public_bytes cert) m')) P
          Explained _ (write_bytes os key_path (lib.private_bytes key) m)
          (write_bytes-Post os Explained _ key_path _ m uncut
            (write_bytes-Post os Explained P cert_path _ _ uncut (k _) (λ fails. (with_key, fails)))
            (λ fails. (store, fails)))
          (λ u m' h. h)

    create_ca-HasCa :
        (m : Machine)
        → IsStore lib m.files
        → m.files ca_cert_path ≡ none
        → Post (HasCa m.files) Explained (create_ca lib os m)
    unfolding create_ca path_eqb eqb
    create_ca-HasCa m store absent =
        ask-Post os (HasCa m.files) Explained lib.generate_private_key _ m (
          or_value_error-Post os (HasCa m.files) Explained (lib.common_name ca_common_name) _ _
            (λ name named. ask-Post os (HasCa m.files) Explained lib.now _ _ (
              ask-Post os (HasCa m.files) Explained lib.random_serial_number _ _ (
                continue-Post (λ u m'. HasCa m.files (ca_key_path, ca_cert_path) m') (HasCa m.files)
                  Explained _ _
                  (store_pair-Post _ ca_key_path ca_cert_path _ _ _
                    (λ n. (
                      put_ca_pair-IsStore lib m.files store absent _ name _ _ named,
                      (_, put-same ca_cert_path _ _),
                      put-other (leaf_cert_path (safe_filename host)) ca_cert_path _ _ refl
                          ∙ put-other (leaf_cert_path (safe_filename host)) ca_key_path _ m.files
                              refl,
                    ))
                    store (put_ca_key-IsStore lib m.files store absent _))
                  (λ u m' h. h))))
            (λ refused. (store, inl refused)))

    pub ensure_ca_certificate-HasCa :
        (m : Machine)
        → IsStore lib m.files
        → Post (HasCa m.files) Explained (ensure_ca_certificate lib os m)
    unfolding ensure_ca_certificate
    ensure_ca_certificate-HasCa m store =
        mkdir-Post os (HasCa m.files) Explained _ m
          (both_exist-Post os Explained (HasCa m.files) ca_key_path ca_cert_path _ (called m)
            (λ key cert n has_key has_cert. (store, (cert, has_cert), refl))
            (λ n missing. create_ca-HasCa (later m n) store (no_ca m.files store missing))
            (λ n fails. (store, fails)))
          (λ fails. (store, fails))

    store_leaf-HasLeaf :
        (before : Files) (key : Key) (cert : Certificate) (m : Machine)
        → let name = safe_filename host in
          let bytes = lib.public_bytes cert in
          IsStore lib m.files
          → m.files (leaf_cert_path name) ≡ none
          → (leaf : IsLeaf lib
              (put
                (leaf_cert_path name)
                bytes
                (put (leaf_key_path name) (lib.private_bytes key) m.files))
              name
              bytes)
            × (leaf.host ≡ host)
          → Post (HasLeaf before) Explained (
              (store_pair lib os (leaf_key_path name) (leaf_cert_path name) key cert
                  >> ret (leaf_cert_path name, leaf_key_path name))
                m)
    store_leaf-HasLeaf before key cert m store absent (leaf, own) =
        let name = safe_filename host in
        let with_key = put_leaf_key-IsStore lib m.files store name (lib.private_bytes key) absent in
        continue-Post (λ u m'. HasLeaf before (leaf_cert_path name, leaf_key_path name) m')
          (HasLeaf before) Explained _ _
          (store_pair-Post _ (leaf_key_path name) (leaf_cert_path name) key cert m
            (λ n. (
              put_leaf_cert-IsStore lib _ with_key name (lib.public_bytes cert) leaf,
              refl,
              (_, put-same (leaf_cert_path name) _ _, (leaf, inr own)),
            ))
            store with_key)
          (λ u m' h. h)

    module _ (key_read : (key : Key) → lib.load_private_key (lib.private_bytes key) ≡ some key)
        (cert_read : (cert : Certificate)
          → lib.load_certificate (lib.public_bytes cert) ≡ some cert) where
      create_leaf-HasLeaf :
          (before : Files) (m : Machine) (cert : Text)
          → IsStore lib m.files
          → m.files ca_cert_path ≡ some cert
          → m.files (leaf_cert_path (safe_filename host)) ≡ none
          → Post (HasLeaf before) Explained (create_leaf lib os host m)
      unfolding create_leaf
      create_leaf-HasLeaf before m cert store there absent =
          read_bytes-Post os (HasLeaf before) Explained ca_key_path _ _ m ca.key_file
            (known-Post os (HasLeaf before) Explained _ ca.key _ _ (key_read ca.key) (
              read_bytes-Post os (HasLeaf before) Explained ca_cert_path cert _ (called m) there
                (known-Post os (HasLeaf before) Explained _ authority _ _
                  (ap lib.load_certificate ca.is_cert ∙ cert_read authority)
                  (ask-Post os (HasLeaf before) Explained lib.generate_private_key _ _ (
                    or_value_error-Post os (HasLeaf before) Explained (lib.common_name host) _ _
                      (λ subject is_subject. ask-Post os (HasLeaf before) Explained lib.now _ _ (
                        ask-Post os (HasLeaf before) Explained lib.random_serial_number _ _ (
                          or_value_error-Post os (HasLeaf before) Explained
                            (subject_alternative lib host) _ _
                            (λ alternative is_alternative.
                              store_leaf-HasLeaf before _ _ _ store absent (
                                put_pair-IsLeaf lib m.files host ca.key _ authority subject
                                  alternative _ _ ca.key_file (there ∙ ap some ca.is_cert)
                                  is_subject is_alternative))
                            (λ refused. (store, inr (inr refused))))))
                      (λ refused. (store, inr (inl refused))))))
                (λ fails. (store, fails))))
            (λ fails. (store, fails))
        where
          ca : IsCa lib m.files cert
          ca = store.0 cert there

          authority : Certificate
          authority = lib.sign (ca_contents ca.name ca.key ca.now ca.serial) ca.key

      pub ensure_leaf_certificate-HasLeaf :
          (m : Machine)
          → IsStore lib m.files
          → Post (HasLeaf m.files) Explained (ensure_leaf_certificate lib os host m)
      unfolding ensure_leaf_certificate
      ensure_leaf_certificate-HasLeaf m store =
          continue-Post (HasCa m.files) (HasLeaf m.files) Explained _ _
            (ensure_ca_certificate-HasCa m store)
            (λ paths m' has_ca.
              mkdir-Post os (HasLeaf m.files) Explained _ m'
                (both_exist-Post os Explained (HasLeaf m.files) (leaf_cert_path name)
                  (leaf_key_path name) _ (called m')
                  (λ cert key n has_cert has_key. (
                    has_ca.0,
                    refl,
                    (
                      cert,
                      has_cert,
                      (has_ca.0.1 name cert has_cert, inl (sym has_ca.2 ∙ has_cert)),
                    ),
                  ))
                  (λ n missing.
                    create_leaf-HasLeaf m.files (later m' n) has_ca.1.0 has_ca.0 has_ca.1.1
                      (no_cert m'.files has_ca.0 missing))
                  (λ n fails. (has_ca.0, fails)))
                (λ fails. (has_ca.0, fails)))
        where
          name : Text
          name = safe_filename host

          no_cert :
              (files : Files)
              → IsStore lib files
              → (files (leaf_cert_path name) ≡ none) ⊎ (files (leaf_key_path name) ≡ none)
              → files (leaf_cert_path name) ≡ none
          no_cert files held (inl absent) = absent
          no_cert files held (inr absent) = elim (Option-cases (files (leaf_cert_path name))) [
            | inl h ↦ h
            | inr (cert, h) ↦ absurd (ground (arith, absent, (held.1 name cert h).key_file))
          ]
