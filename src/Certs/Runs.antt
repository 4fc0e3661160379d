-- ===== src/Certs/Runs.antt =====
-- certs.py: the ends of a run, and the calls that it is made of.
use codex_reset_proxy.Prelude.{
  ℕ, ◌≡◌, refl, Bool, true, false, Option, none, some, ◌⊎◌, inl, inr, Bool-cases, Option-cases,
  if◌then◌else◌,
}
use codex_reset_proxy.Text.{Text}
use codex_reset_proxy.Certs.{
  FilePath, put, Exn, os_error, value_error, Write, whole, refused, cut, System, Machine, Res, done,
  raised, Io, ret, continue, called, ask, or_value_error, is_some, mkdir, exists, read_bytes,
  write_bytes, both_exist,
}

-- What holds of the end of a run: of a value and the machine behind it, or of an exception.
abbrev pub Post : {A : Type 0} → (A → Machine → Type 0) → (Exn → Machine → Type 0) → Res A → Type 0
Post P E (done a m) = P a m
Post P E (raised e m) = E e m

pub continue-Post :
    {A B : Type 0} (P : A → Machine → Type 0) (Q : B → Machine → Type 0)
    (E : Exn → Machine → Type 0) (next : A → Io B) (r : Res A)
    → Post P E r
    → ((a : A) (m : Machine) → P a m → Post Q E (next a m))
    → Post Q E (continue next r)
unfolding continue
continue-Post P Q E next (done a m) h k = k a m h
continue-Post P Q E next (raised e m) h k = h

-- Some call on the file system raises.
abbrev pub Fails : System → Type 0
Fails os = (n : ℕ) × ((os.raises n ≡ true) ⊎ (os.write n ≡ refused))

-- No write stops in the middle.
abbrev pub WritesWhole : System → Type 0
WritesWhole os = (n k : ℕ) → ¬ (os.write n ≡ cut k)

-- The same files, later.
abbrev pub later : Machine → ℕ → Machine
later m n = record m { calls = n }

-- Each call, with the rest of the run behind it.
module _ {B : Type 0} (os : System) (Q : B → Machine → Type 0) (E : Exn → Machine → Type 0) where
  pub or_value_error-Post :
      {A : Type 0} (o : Option A) (next : A → Io B) (m : Machine)
      → ((a : A) → o ≡ some a → Post Q E (next a m))
      → (o ≡ none → E value_error m)
      → Post Q E (continue next (or_value_error o m))
  unfolding continue or_value_error
  or_value_error-Post none next m k fail = fail refl
  or_value_error-Post (some a) next m k fail = k a refl

  pub known-Post :
      {A : Type 0} (o : Option A) (a : A) (next : A → Io B) (m : Machine)
      → o ≡ some a
      → Post Q E (next a m)
      → Post Q E (continue next (or_value_error o m))
  unfolding continue or_value_error
  known-Post o a next m e k = rw e k

  pub ask-Post :
      {A : Type 0} (answer : ℕ → A) (next : A → Io B) (m : Machine)
      → Post Q E (next (answer m.calls) (called m))
      → Post Q E (continue next (ask answer m))
  unfolding continue ask
  ask-Post answer next m k = k

  pub mkdir-Post :
      (next : Unit {0} → Io B) (m : Machine)
      → Post Q E (next tt (called m))
      → (Fails os → E os_error (called m))
      → Post Q E (continue next (mkdir os m))
  unfolding continue mkdir
  mkdir-Post next m k fail = elim (Bool-cases (os.raises m.calls)) [
    | inl h ↦ rw (h, mkdir) (fail (m.calls, inl h))
    | inr h ↦ rw (h, mkdir) k
  ]

  pub read_bytes-Post :
      (p : FilePath) (bytes : Text) (next : Text → Io B) (m : Machine)
      → m.files p ≡ some bytes
      → Post Q E (next bytes (called m))
      → (Fails os → E os_error (called m))
      → Post Q E (continue next (read_bytes os p m))
  unfolding continue read_bytes
  read_bytes-Post p bytes next m there k fail = elim (Bool-cases (os.raises m.calls)) [
    | inl h ↦ rw (h, read_bytes) (fail (m.calls, inl h))
    | inr h ↦ rw (h, read_bytes) (rw (there, read_bytes) k)
  ]

module _ (os : System) (E : Exn → Machine → Type 0) where
  exists-Post :
      (P : Bool → Machine → Type 0) (p : FilePath) (m : Machine)
      → P (is_some (m.files p)) (called m)
      → (Fails os → E os_error (called m))
      → Post P E (exists os p m)
  unfolding exists
  exists-Post P p m k fail = elim (Bool-cases (os.raises m.calls)) [
    | inl h ↦ rw (h, exists) (fail (m.calls, inl h))
    | inr h ↦ rw (h, exists) k
  ]

  pub write_bytes-Post :
      (P : Unit {0} → Machine → Type 0) (p : FilePath) (bytes : Text) (m : Machine)
      → WritesWhole os
      → P tt (record (called m) { files = put p bytes m.files })
      → (Fails os → E os_error (called m))
      → Post P E (write_bytes os p bytes m)
  unfolding write_bytes
  write_bytes-Post P p bytes m uncut k fail = cases (os.write m.calls) refl
    where
      cases : (w : Write) → os.write m.calls ≡ w → Post P E (write_bytes os p bytes m)
      cases whole e = rw (e, write_bytes) k
      cases refused e = rw (e, write_bytes) (fail (m.calls, inr e))
      cases (cut n) e = absurd (uncut m.calls n e)

  both_exist-ends :
      (P : Bool → Machine → Type 0) (p q : FilePath) (m : Machine)
      → ((x y : Text) (n : ℕ) → m.files p ≡ some x → m.files q ≡ some y → P true (later m n))
      → ((n : ℕ) → (m.files p ≡ none) ⊎ (m.files q ≡ none) → P false (later m n))
      → ((n : ℕ) → Fails os → E os_error (later m n))
      → Post P E (both_exist os p q m)
  unfolding both_exist
  both_exist-ends P p q m both missing fail =
      continue-Post (λ b m'. Post P E ((if b then exists os q else ret false) m')) P E _
        (exists os p m) (exists-Post _ p m (first (Option-cases (m.files p))) (fail _))
        (λ b m' h. h)
    where
      second : (x : Text) → m.files p ≡ some x → P (is_some (m.files q)) (called (called m))
      second x e = elim (Option-cases (m.files q)) [
        | inl absent ↦ rw absent (missing _ (inr absent))
        | inr (y, there) ↦ rw there (both x y _ e there)
      ]

      first :
          ((m.files p ≡ none) ⊎ ((x : Text) × (m.files p ≡ some x)))
          → Post P E ((if is_some (m.files p) then exists os q else ret false) (called m))
      first (inl absent) = rw absent (missing _ (inl absent))
      first (inr (x, e)) = rw e (exists-Post P q (called m) (second x e) (fail _))

  pub both_exist-Post :
      {B : Type 0} (Q : B → Machine → Type 0) (p q : FilePath) (next : Bool → Io B) (m : Machine)
      → ((x y : Text) (n : ℕ)
          → m.files p ≡ some x
          → m.files q ≡ some y
          → Post Q E (next true (later m n)))
      → ((n : ℕ) → (m.files p ≡ none) ⊎ (m.files q ≡ none) → Post Q E (next false (later m n)))
      → ((n : ℕ) → Fails os → E os_error (later m n))
      → Post Q E (continue next (both_exist os p q m))
  both_exist-Post Q p q next m both missing fail =
      continue-Post (λ b m'. Post Q E (next b m')) Q E next _
        (both_exist-ends (λ b m'. Post Q E (next b m')) p q m both missing fail) (λ b m' h. h)
