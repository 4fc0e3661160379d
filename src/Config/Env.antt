-- ===== src/Config/Env.antt =====
-- config.py: `_env_required` to `_env_csv_tuple_lower`.
use codex_reset_proxy.Prelude.{
  Bool, true, false, not, Option, none, some, List, [], ◌∷◌, ◌++◌, map, keep, if◌then◌else◌,
}
use codex_reset_proxy.Text.{Text, codes, elem, is_empty, split}
use codex_reset_proxy.Runtime.{Runtime}
use codex_reset_proxy.Config.{Result, ok, err, value_error, conversion_error, ◌>>=◌}

-- The environment: os.getenv
abbrev pub Environ : Type 0
Environ = Text → Option Text

-- Empty values count as absent, in every reader below.
unfoldable pub env_optional : Environ → Text → Option Text
env_optional env name = elim (env name) [
  | none ↦ none
  | some v ↦ if is_empty v then none else some v
]

unfoldable pub env_required : Environ → Text → Result Text
unfolding env_optional
env_required env name = elim (env_optional env name) [
  | none ↦ err (value_error (name ++ codes " is required"))
  | some v ↦ ok v
]

unfoldable pub env_str : Environ → Text → Text → Text
unfolding env_optional
env_str env name default = elim (env_optional env name) [ none ↦ default | some v ↦ v ]

-- `_env_int` and `_env_float`, by the conversion that they call
unfoldable pub env_number : {A : Type 0} → (Text → Option A) → Environ → Text → A → Result A
unfolding env_optional
env_number convert env name default = elim (env_optional env name) [
  | none ↦ ok default
  | some v ↦ elim (convert v) [ none ↦ err conversion_error | some n ↦ ok n ]
]

module _ (py : Runtime) where
  unfoldable pub env_bool : Environ → Text → Bool → Result Bool
  unfolding env_optional
  env_bool env name default = elim (env_optional env name) [
    | none ↦ ok default
    | some v ↦
        let normalized = py.str_lower (py.str_strip v) in
        if elem normalized (codes "1" ∷ codes "true" ∷ codes "yes" ∷ codes "on" ∷ [])
        then ok true
        else if elem normalized (codes "0" ∷ codes "false" ∷ codes "no" ∷ codes "off" ∷ [])
        then ok false
        else err (value_error (name ++ codes " must be a boolean"))
  ]

  abbrev pub nonempty_or : Text → List Text → Result (List Text)
  nonempty_or name [] = err (value_error (name ++ codes " cannot be empty"))
  nonempty_or name (x ∷ xs) = ok (x ∷ xs)

  unfoldable pub env_csv_tuple : Environ → Text → List Text → Result (List Text)
  unfolding env_optional
  env_csv_tuple env name default = elim (env_optional env name) [
    | none ↦ ok default
    | some v ↦ nonempty_or name (keep (λ s. not (is_empty s)) (map py.str_strip (split b',' v)))
  ]

  unfoldable pub env_csv_tuple_lower : Environ → Text → List Text → Result (List Text)
  unfolding env_csv_tuple
  env_csv_tuple_lower env name default = do
    items ← env_csv_tuple env name default
    ok (map py.str_lower items)
