-- ===== src/Certs.antt =====
-- certs.py: the files that it reads and writes, and the `cryptography` and `ssl` libraries that it
-- calls.
pub mod Names
pub mod Authority
pub mod Leaf
pub mod Files
pub mod Runs
pub mod Store
use codex_reset_proxy.Prelude.{
  ℕ, ◌+◌, Bool, true, false, ◌&&◌, Option, none, some, List, [], ◌∷◌, take, if◌then◌else◌,
}
use codex_reset_proxy.Text.{Text, eqb}

-- The parts of a path below `FilePath(settings.mitm_cert_dir)`.
abbrev pub FilePath : Type 0
FilePath = List Text

unfoldable pub path_eqb : FilePath → FilePath → Bool
path_eqb [] [] = true
path_eqb (a ∷ p) (b ∷ q) = eqb a b && path_eqb p q
path_eqb _ _ = false

abbrev pub Files : Type 0
Files = FilePath → Option Text

unfoldable pub put : FilePath → Text → Files → Files
put p bytes files q = if path_eqb q p then some bytes else files q

-- An OSError, a ValueError of `cryptography` or an SSLError of `ssl`.
pub data Exn : Type 0 where
  os_error value_error ssl_error : Exn

-- How a write of n bytes ends: it is done, raises before the file is touched, or raises when the
-- first k bytes are in the file.
pub data Write : Type 0 where
  whole refused : Write
  cut : ℕ → Write

-- The operating system: whether a call on the file system raises, and how a write ends, each at the
-- number of calls before it.
pub record System : Type 0 where
  pub raises : ℕ → Bool
  pub write : ℕ → Write

-- The files, and how many calls of the outside were made.
pub record Machine : Type 0 where
  pub files : Files
  pub calls : ℕ

pub data Res (A : Type 0) : Type 0 where
  done : A → Machine → Res A
  raised : Exn → Machine → Res A

abbrev pub Io : Type 0 → Type 0
Io A = Machine → Res A

abbrev pub ret : {A : Type 0} → A → Io A
ret a m = done a m

unfoldable pub continue : {A B : Type 0} → (A → Io B) → Res A → Res B
continue next (done a m) = next a m
continue next (raised e m) = raised e m

infixl 5 ◌>>=◌ ◌>>◌
abbrev pub ◌>>=◌ : {A B : Type 0} → Io A → (A → Io B) → Io B
(act >>= next) m = continue next (act m)

abbrev pub ◌>>◌ : {B : Type 0} → Io (Unit {0}) → Io B → Io B
act >> next = act >>= λ u. next

abbrev pub called : Machine → Machine
called m = record m { calls = m.calls + 1 }

-- A call whose answer depends on when it is made.
unfoldable pub ask : {A : Type 0} → (ℕ → A) → Io A
ask answer m = done (answer m.calls) (called m)

-- A value that a library makes, or its ValueError.
unfoldable pub or_value_error : {A : Type 0} → Option A → Io A
or_value_error none m = raised value_error m
or_value_error (some a) m = done a m

abbrev pub is_some : Option Text → Bool
is_some none = false
is_some (some bytes) = true

module _ (os : System) where
  -- directory.mkdir(parents=True, exist_ok=True)
  unfoldable pub mkdir : Io (Unit {0})
  mkdir m = if os.raises m.calls then raised os_error (called m) else done tt (called m)

  unfoldable pub exists : FilePath → Io Bool
  exists p m =
      if os.raises m.calls
      then raised os_error (called m)
      else done (is_some (m.files p)) (called m)

  unfoldable pub read_bytes : FilePath → Io Text
  read_bytes p m = if os.raises m.calls then raised os_error (called m) else elim (m.files p) [
    | none ↦ raised os_error (called m)
    | some bytes ↦ done bytes (called m)
  ]

  unfoldable pub write_bytes : FilePath → Text → Io (Unit {0})
  write_bytes p bytes m = elim (os.write m.calls) [
    | whole ↦ done tt (record (called m) { files = put p bytes m.files })
    | refused ↦ raised os_error (called m)
    | cut k ↦ raised os_error (record (called m) { files = put p (take k bytes) m.files })
  ]

  -- p.exists() and q.exists()
  unfoldable pub both_exist : FilePath → FilePath → Io Bool
  both_exist p q = exists p >>= λ first. if first then exists q else ret false
