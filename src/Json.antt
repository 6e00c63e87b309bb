-- ===== src/Json.antt =====
-- JSON values as `json.loads` returns them. A number keeps its text: no code here computes with it.
use python_oauth2_server.Prelude.{
  String, Bool, Option, none, some, List, [], if◌then◌else◌, ◌==◌, ◌∷◌,
}

mutual
  pub data Fields : Type 0 where
    end : Fields
    field : String → Value → Fields → Fields

  pub data Items : Type 0 where
    nil : Items
    cons : Value → Items → Items

  pub data Value : Type 0 where
    null : Value
    bool : Bool → Value
    num : String → Value
    str : String → Value
    obj : Fields → Value
    arr : Items → Value

-- What `json.loads` does: a value, `JSONDecodeError`, or `RecursionError`.
pub data Loaded : Type 0 where
  loaded : Value → Loaded
  malformed : Loaded
  too_nested : Loaded

-- `d.get(k)`
unfoldable pub get_field : String → Fields → Option Value
get_field k end = none
get_field k (field j v fs) = let rest = get_field k fs in if j == k then some v else rest

-- `isinstance(v, str)`
abbrev pub as_str : Option Value → Option String
as_str (some (str s)) = some s
as_str _ = none

-- `isinstance(v, dict)`
abbrev pub as_obj : Option Value → Option Fields
as_obj (some (obj fs)) = some fs
as_obj _ = none

-- The texts of an array that holds nothing else.
unfoldable pub texts : Items → Option (List String)
texts nil = some []
texts (cons (str s) xs) = elim (texts xs) [ none ↦ none | some ts ↦ some (s ∷ ts) ]
texts (cons _ xs) = none
