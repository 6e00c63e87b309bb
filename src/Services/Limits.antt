-- ===== src/Services/Limits.antt =====
-- services/limits.py: length and depth guards of JSON-valued parameters.
pub mod Depth
use Prim.Native.String.{count}
use python_oauth2_server.Prelude.{
  ltb, ℕ, zero, suc, String, Bool, true, false, Option, none, some, List, [], Result, ok, err,
  map_err, if◌then◌else◌, ◌+◌, ◌∷◌, ◌>>=◌, ◌>>◌,
}
use python_oauth2_server.Json.{
  Value, Items, Fields, null, bool, num, str, arr, obj, nil, cons, end, field, Loaded, loaded,
  malformed, too_nested,
}

-- The error, with the parameter's name and the limit of its message.
pub data LimitError : Type 0 where
  too_long : String → ℕ → LimitError
  too_deep : String → ℕ → LimitError

-- `len(raw)` counts code points, as `count` does.
unfoldable pub check_len : String → String → ℕ → Result LimitError String
check_len raw name max_len = if ltb max_len (count raw) then err (too_long name max_len) else ok raw

-- The explicit stack, its top at the head.
abbrev pub Stack : Type 0
Stack = List (Value × ℕ)

-- `stack.extend((child, depth + 1) for child in children)`
unfoldable pub extend_items : Items → ℕ → Stack → Stack
extend_items nil d st = st
extend_items (cons v xs) d st = extend_items xs d ((v, d) ∷ st)

unfoldable pub extend_values : Fields → ℕ → Stack → Stack
extend_values end d st = st
extend_values (field k v fs) d st = extend_values fs d ((v, d) ∷ st)

-- The loop, on fuel; `none` means that the fuel ran out, `some false` that the error is raised.
unfoldable pub walk : ℕ → ℕ → Stack → Option Bool
walk zero max_depth st = none
walk (suc f) max_depth [] = some true
walk (suc f) max_depth ((arr xs, d) ∷ st) =
    let rest = walk f max_depth (extend_items xs (d + 1) st) in
    if ltb max_depth d then some false else rest
walk (suc f) max_depth ((obj fs, d) ∷ st) =
    let rest = walk f max_depth (extend_values fs (d + 1) st) in
    if ltb max_depth d then some false else rest
walk (suc f) max_depth ((null, d) ∷ st) = walk f max_depth st
walk (suc f) max_depth ((bool b, d) ∷ st) = walk f max_depth st
walk (suc f) max_depth ((num n, d) ∷ st) = walk f max_depth st
walk (suc f) max_depth ((str s, d) ∷ st) = walk f max_depth st

unfoldable mutual
  -- The nodes of a value, each of which the loop visits once.
  pub nodes : Value → ℕ
  nodes null = 1
  nodes (bool b) = 1
  nodes (num n) = 1
  nodes (str s) = 1
  nodes (arr xs) = suc (nodes_items xs)
  nodes (obj fs) = suc (nodes_fields fs)

  pub nodes_items : Items → ℕ
  nodes_items nil = 0
  nodes_items (cons v xs) = nodes v + nodes_items xs

  pub nodes_fields : Fields → ℕ
  nodes_fields end = 0
  nodes_fields (field k v fs) = nodes v + nodes_fields fs

abbrev pub passed : Option Bool → Bool
passed none = false
passed (some b) = b

unfoldable pub check_depth : Value → String → ℕ → Result LimitError (Unit {0})
unfolding walk
check_depth v name max_depth =
    if passed (walk (suc (nodes v)) max_depth ((v, 1) ∷ []))
    then ok tt
    else err (too_deep name max_depth)

-- The parsed value, within the limit on its depth.
unfoldable pub after_load : String → ℕ → Loaded → Result (Option LimitError) Value
unfolding check_depth
after_load name max_depth (loaded v) = do map_err some (check_depth v name max_depth); ok v
after_load name max_depth malformed = err none
after_load name max_depth too_nested = err (some (too_deep name max_depth))

-- The outer error is `JSONDecodeError`, which the callers word themselves.
unfoldable pub check_json_param :
    (String → Loaded) → String → String → ℕ → ℕ → Result (Option LimitError) Value
unfolding check_len after_load
check_json_param loads raw name max_len max_depth = do
  text ← map_err some (check_len raw name max_len)
  after_load name max_depth (loads text)
