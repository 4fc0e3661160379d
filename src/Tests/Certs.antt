-- ===== src/Tests/Certs.antt =====
-- Certificates at concrete inputs, with a library whose keys are numbers.
use codex_reset_proxy.Prelude.{
  ℕ, ◌≡◌, refl, Bool, false, true, Option, none, some, [], ◌∷◌, ◌==◌, arith,
}
use codex_reset_proxy.Text.{Text, codes}
use codex_reset_proxy.Certs.{FilePath, System, whole, Machine, Res, done, raised}
use codex_reset_proxy.Certs.Names.{safe_filename, IsFileName, safe_filename_lem}
use codex_reset_proxy.Certs.Authority.{Contents, Library}
use codex_reset_proxy.Certs.Leaf.{
  leaf_cert_path, leaf_key_path, ensure_leaf_certificate, server_ssl_context_for_host,
}
use codex_reset_proxy.Certs.Runs.{Post, WritesWhole}
use codex_reset_proxy.Certs.Store.{IsStore}
use codex_reset_proxy.Certs.Store.Made.{Explained}
use codex_reset_proxy.Certs.Store.Served.{Serves, server_ssl_context_for_host-Serves}

abbrev pub key_of : Text → Option ℕ
key_of (k ∷ []) = some k
key_of _ = none

abbrev pub is_chain : Text → Text → Bool
is_chain (c ∷ _) (k ∷ []) = c == k
is_chain _ _ = false

abbrev pub name_of : Text → Text
name_of (_ ∷ _ ∷ name) = name
name_of _ = []

-- A certificate is the key that it is for, the one that signs it, and its subject.
abbrev pub library : Library ℕ Text Text
library = record {
  generate_private_key = λ n. n;
  random_serial_number = λ n. n;
  now = λ n. 1000;
  common_name = some;
  sign = λ contents key. contents.public_key ∷ key ∷ contents.subject;
  private_bytes = λ key. key ∷ [];
  load_private_key = key_of;
  public_bytes = λ cert. cert;
  load_certificate = some;
  subject_of = name_of;
  address_of = λ host. none;
  is_dns_name = λ host. true;
  load_cert_chain = is_chain;
}

abbrev pub calm : System
calm = record { raises = λ n. false; write = λ n. whole }

pub calm-WritesWhole : WritesWhole calm
calm-WritesWhole n k e = absurd (ground (arith, e))

abbrev pub empty : Machine
empty = record { files = λ p. none; calls = 0 }

pub empty-IsStore : IsStore library empty.files
empty-IsStore = (λ cert h. absurd (ground (arith, h)), λ name cert h. absurd (ground (arith, h)))

pub keys_read : (key : ℕ) → library.load_private_key (library.private_bytes key) ≡ some key
keys_read key = refl

pub chains_read :
    (contents : Contents ℕ Text) (ca_key : ℕ)
    → library.load_cert_chain
        (library.public_bytes (library.sign contents ca_key))
        (library.private_bytes contents.public_key)
      ≡ true
chains_read contents ca_key = ground arith

abbrev host : Text
host = codes "chatgpt.com"

server_ssl_context_for_host-Serves_example :
    Post
      (Serves library calm host empty.files)
      (Explained library calm host)
      (server_ssl_context_for_host library calm host empty)
server_ssl_context_for_host-Serves_example =
    server_ssl_context_for_host-Serves library calm host chains_read calm-WritesWhole keys_read
      (λ cert. refl) empty empty-IsStore

abbrev behind : {A : Type 0} → Res A → Machine
behind (done a m) = m
behind (raised e m) = m

abbrev second : Machine
second = behind (ensure_leaf_certificate library calm host empty)

abbrev paths : FilePath × FilePath
paths = (leaf_cert_path (safe_filename host), leaf_key_path (safe_filename host))

safe_filename_lem_example :
    IsFileName (safe_filename (codes "a/../b c"))
    × (safe_filename (safe_filename (codes "a/../b c")) ≡ safe_filename (codes "a/../b c"))
safe_filename_lem_example = safe_filename_lem (codes "a/../b c")
