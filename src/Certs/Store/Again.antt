-- ===== src/Certs/Store/Again.antt =====
-- certs.py: a second run of `ensure_leaf_certificate`.
use codex_reset_proxy.Prelude.{◌≡◌}
use codex_reset_proxy.Text.{Text}
use codex_reset_proxy.Certs.{FilePath, Exn, System, Machine}
use codex_reset_proxy.Certs.Names.{safe_filename}
use codex_reset_proxy.Certs.Authority.{Library}
use codex_reset_proxy.Certs.Leaf.{leaf_cert_path, leaf_key_path}
use codex_reset_proxy.Certs.Runs.{Fails}

module _ {Key Name Certificate : Type 0} (lib : Library Key Name Certificate) (os : System) where
  -- The same files as in `m`.
  abbrev pub Same : Machine → Exn → Machine → Type 0
  Same m e m' = (m'.files ≡ m.files) × Fails os

  abbrev pub Finds : FilePath × FilePath → Machine → FilePath × FilePath → Machine → Type 0
  Finds paths m paths' m' = (paths' ≡ paths) × (m'.files ≡ m.files)

  module _ (host : Text) where
    abbrev leaf_paths : FilePath × FilePath
    leaf_paths = (leaf_cert_path (safe_filename host), leaf_key_path (safe_filename host))
