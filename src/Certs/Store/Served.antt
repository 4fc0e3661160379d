-- ===== src/Certs/Store/Served.antt =====
-- certs.py: `server_ssl_context_for_host` at a certificate directory.
use codex_reset_proxy.Prelude.{◌≡◌, refl, true, some}
use codex_reset_proxy.Text.{Text}
use codex_reset_proxy.Certs.{FilePath, Files, System, Machine, called}
use codex_reset_proxy.Certs.Names.{safe_filename}
use codex_reset_proxy.Certs.Authority.{Library, Contents}
use codex_reset_proxy.Certs.Leaf.{
  SslContext, context_of, leaf_cert_path, leaf_key_path, load_chain, server_ssl_context_for_host,
}
use codex_reset_proxy.Certs.Runs.{Post, continue-Post, WritesWhole, read_bytes-Post}
use codex_reset_proxy.Certs.Store.{IsStore}
use codex_reset_proxy.Certs.Store.Made.{
  Explained, IsForHost, HasLeaf, ensure_leaf_certificate-HasLeaf,
}

module _ {Key Name Certificate : Type 0} (lib : Library Key Name Certificate) (os : System)
    (host : Text) where
  -- The context is for the files of the host's name, which hold a certificate and its key.
  abbrev pub Serves : Files → SslContext → Machine → Type 0
  Serves before context m =
      IsStore lib m.files
      × (context.certfile ≡ leaf_cert_path (safe_filename host))
      × (context.keyfile ≡ leaf_key_path (safe_filename host))
      × ((cert : Text) × (m.files context.certfile ≡ some cert)
          × IsForHost lib os host before m.files cert)

  module _
      (chain_read : (contents : Contents Key Name) (ca_key : Key)
        → lib.load_cert_chain
            (lib.public_bytes (lib.sign contents ca_key))
            (lib.private_bytes contents.public_key)
          ≡ true) where
    load_chain-Serves :
        (before : Files) (paths : FilePath × FilePath) (m : Machine)
        → HasLeaf lib os host before paths m
        → Post
            (λ u. Serves before (context_of paths.0 paths.1))
            (Explained lib os host)
            (load_chain lib os paths.0 paths.1 m)
    unfolding load_chain
    load_chain-Serves before paths m (held, e, (cert, there, (leaf, own))) = rw e (
        read_bytes-Post os _ (Explained lib os host) _ cert _ m there
          (read_bytes-Post os _ (Explained lib os host) _ _ _ (called m) leaf.key_file
            (let loads : lib.load_cert_chain cert (lib.private_bytes leaf.key) ≡ true =
                rw leaf.is_cert (chain_read _ leaf.ca_key) in
              rw loads (held, refl, refl, (cert, there, (leaf, own))))
            (λ fails. (held, fails)))
          (λ fails. (held, fails)))

    module _ (uncut : WritesWhole os)
        (key_read : (key : Key) → lib.load_private_key (lib.private_bytes key) ≡ some key)
        (cert_read : (cert : Certificate)
          → lib.load_certificate (lib.public_bytes cert) ≡ some cert) where
      -- From a directory in good order, whatever call on the file system raises, the directory stays
      -- in good order, and the run ends in one of two ways. Either its context is for files that
      -- hold a certificate, signed with the CA's key on disk, and its key: a certificate for the host
      -- itself, or the one that was there before, which is for a host of the same file name. Or its
      -- exception is explained: an OSError by a call on the file system that raises, a ValueError by
      -- a name that is refused; there is no SSLError. What is written can be read back, a chain of a
      -- certificate and its key loads, and no write stops in the middle.
      pub server_ssl_context_for_host-Serves :
          (m : Machine)
          → IsStore lib m.files
          → Post
              (Serves m.files)
              (Explained lib os host)
              (server_ssl_context_for_host lib os host m)
      unfolding server_ssl_context_for_host
      server_ssl_context_for_host-Serves m store =
          continue-Post (HasLeaf lib os host m.files) (Serves m.files) (Explained lib os host) _ _
            (ensure_leaf_certificate-HasLeaf lib os host uncut key_read cert_read m store)
            (λ paths m' h.
              continue-Post (λ u. Serves m.files (context_of paths.0 paths.1)) (Serves m.files)
                (Explained lib os host) _ _ (load_chain-Serves m.files paths m' h) (λ u m'' s. s))
