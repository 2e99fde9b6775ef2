-- ===== src/Base/Json.antt =====
-- Parsed JSON, as `flask.request.get_json()` gives it. Numbers are integers (by sign and size) or
-- floats, of which only the kind is read.
use cachito.Base.{
  ℕ, Bool, true, false, Option, none, some, List, [], ◌∷◌, ◌==◌, nat_eq, list_eq, if◌then◌else◌,
}
use cachito.Base.Text.{Text}

mutual
  pub data Json : Type 0 where
    null : Json
    bool : Bool → Json
    int : Bool → ℕ → Json
    float : Json
    str : Text → Json
    arr : Items → Json
    obj : Fields → Json

  pub data Items : Type 0 where
    nil : Items
    cons : Json → Items → Items

  pub data Fields : Type 0 where
    end : Fields
    field : Text → Json → Fields → Fields

-- `isinstance(v, str)`, `isinstance(v, int)` (a `bool` is an `int`), `isinstance(v, dict)`,
-- `isinstance(v, list)`
abbrev pub is_str : Json → Bool
is_str (str s) = true
is_str v = false

abbrev pub is_int : Json → Bool
is_int (int sign n) = true
is_int (bool b) = true
is_int v = false

-- `d.get(k)`; a parsed object has each key once.
unfoldable pub get : Text → Fields → Option Json
get k end = none
get k (field j v fs) = if k == j then some v else get k fs

unfoldable pub keys : Fields → List Text
keys end = []
keys (field k v fs) = k ∷ keys fs

-- `k in d`
abbrev pub has : Text → Fields → Bool
has k fs = elim (get k fs) [ none ↦ false | some v ↦ true ]
