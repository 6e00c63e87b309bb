-- ===== src/Services/Rar.antt =====
-- services/rar.py: the `authorization_details` parameter of RFC 9396. `json.loads` is a parameter.
pub mod Laws
use python_oauth2_server.Prelude.{
  truthy, elem, ℕ, String, Bool, true, false, not, Option, none, some, List, Result, ok, err, guard,
  map_err, require, ◌>>◌, ◌>>=◌,
}
use python_oauth2_server.Json.{
  Value, Items, Fields, null, bool, num, str, arr, obj, nil, cons, Loaded, get_field, as_str,
}
use python_oauth2_server.Errors.{OAuthError, Description, text, about, limit, bad_request}
use python_oauth2_server.Services.Limits.{LimitError, check_json_param}

abbrev pub max_len : ℕ
max_len = 16384

abbrev pub max_depth : ℕ
max_depth = 10

unfoldable pub rar_error : Description → OAuthError
rar_error description = record {
  error = "invalid_authorization_details";
  description = description;
  status = 400;
}

abbrev pub outer : Option LimitError → OAuthError
outer none = rar_error (text "authorization_details is not valid JSON")
outer (some e) = rar_error (limit e)

-- `all(isinstance(entry, dict) for entry in parsed)`
unfoldable pub all_objects : Items → Bool
all_objects nil = true
all_objects (cons (obj fs) xs) = all_objects xs
all_objects (cons _ xs) = false

-- One round of the loop over the entries.
unfoldable pub check_entry : List String → Fields → Result OAuthError (Unit {0})
check_entry allowed fs = do
  t ←
      require (truthy (as_str (get_field "type" fs)))
        (rar_error (text "authorization_details entry is missing a type"))
  guard (elem t allowed) (rar_error (about "authorization_details type is not supported" t))

-- The loop; `all_objects` held, so that an entry is an object.
unfoldable pub check_entries : List String → Items → Result OAuthError (Unit {0})
check_entries allowed nil = ok tt
check_entries allowed (cons (obj fs) xs) =
    let rest = check_entries allowed xs in check_entry allowed fs >> rest
check_entries allowed (cons _ xs) = check_entries allowed xs

abbrev pub not_objects : OAuthError
not_objects = rar_error (text "authorization_details must be a JSON array of objects")

-- `isinstance(parsed, list)`, `not parsed` and the entries.
unfoldable pub check_list : List String → Value → Result OAuthError Items
check_list allowed (arr nil) = err not_objects
check_list allowed (arr (cons x xs)) = do
  guard (all_objects (cons x xs)) not_objects
  check_entries allowed (cons x xs)
  ok (cons x xs)
check_list allowed _ = err not_objects

unfoldable pub validate_authorization_details :
    (String → Loaded) → String → List String → Result OAuthError Items
unfolding check_list
validate_authorization_details loads raw allowed = do
  parsed ← map_err outer (check_json_param loads raw "authorization_details" max_len max_depth)
  check_list allowed parsed
