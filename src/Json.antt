-- ===== src/Json.antt =====
-- The values that `json.loads` returns, with the dict and list operations that the program uses.
use codex_reset_proxy.Prelude.{Bool, Option, none, some, List, [], ◌∷◌, if◌then◌else◌}
use codex_reset_proxy.Text.{Text, eqb}

-- A dict keeps its keys in order of insertion, each once. A number is kept as its numeral.
mutual
  pub data Json : Type 0 where
    null : Json
    boolean : Bool → Json
    number : Text → Json
    str : Text → Json
    arr : Items → Json
    obj : Fields → Json

  pub data Items : Type 0 where
    nil : Items
    cons : Json → Items → Items

  pub data Fields : Type 0 where
    end : Fields
    field : Text → Json → Fields → Fields

-- payload.get(key)
unfoldable pub get : Text → Fields → Option Json
get k end = none
get k (field j v fs) = if eqb j k then some v else get k fs

-- payload.pop(key, None), for the dict that remains
unfoldable pub pop : Text → Fields → Fields
pop k end = end
pop k (field j v fs) = if eqb j k then pop k fs else field j v (pop k fs)

-- isinstance(value, str)
abbrev pub as_str : Option Json → Option Text
as_str (some (str s)) = some s
as_str _ = none

-- isinstance(value, dict)
abbrev pub as_dict : Option Json → Option Fields
as_dict (some (obj fs)) = some fs
as_dict _ = none

-- A list of pairs of strings, as `json.dumps` sees it.
abbrev pub of_pairs : List (Text × Text) → Items
of_pairs [] = nil
of_pairs ((a, b) ∷ ps) = cons (arr (cons (str a) (cons (str b) nil))) (of_pairs ps)
