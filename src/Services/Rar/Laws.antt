-- ===== src/Services/Rar/Laws.antt =====
-- services/rar.py: what validated authorization details look like.
use Prim.Native.String.{count}
use python_oauth2_server.Prelude.{
  truthy, elem, String, refl, sym, ap, true, some, List, arith, ok, map_err, guard_ok, require_ok,
  bind_ok, map_err_ok, truthy-some, guard_holds, ◌≤◌, ◌≡◌, ◌∙◌, ◌≢◌,
}
use python_oauth2_server.Json.{
  Value, Items, Fields, null, bool, num, str, arr, obj, nil, cons, Loaded, loaded, malformed,
  too_nested, get_field, as_str,
}
use python_oauth2_server.Services.Limits.{after_load, check_json_param, check_len, check_depth}
use python_oauth2_server.Services.Limits.Depth.{depth, check_depth_ok}
use python_oauth2_server.Services.Rar.{
  max_len, max_depth, outer, all_objects, check_entry, check_entries, check_list,
  validate_authorization_details,
}

-- Each entry is an object with a type that the server supports.
abbrev pub AllTyped : List String → Items → Type 0
AllTyped allowed nil = Unit
AllTyped allowed (cons v xs) =
    ((fs : Fields) × (t : String) × (v ≡ obj fs)
      × (as_str (get_field "type" fs) ≡ some t)
      × (elem t allowed ≡ true))
    × AllTyped allowed xs

entry_typed :
    (allowed : List String) (fs : Fields)
    → check_entry allowed fs ≡ ok tt
    → (t : String) × (as_str (get_field "type" fs) ≡ some t) × (elem t allowed ≡ true)
unfolding check_entry
entry_typed allowed fs h =
    let (t, found, rest) = require_ok (truthy (as_str (get_field "type" fs))) _ _ _ h in
    (t, truthy-some _ t found, guard_holds _ _ rest)

entries_typed :
    (allowed : List String) (xs : Items)
    → all_objects xs ≡ true
    → check_entries allowed xs ≡ ok tt
    → AllTyped allowed xs
unfolding all_objects check_entries
entries_typed allowed nil h k = tt
entries_typed allowed (cons (obj fs) xs) h k =
    let (u, entry, rest) = bind_ok (check_entry allowed fs) _ _ k in
    let (t, found, known) = entry_typed allowed fs entry in
    ((fs, t, refl, found, known), entries_typed allowed xs h rest)
entries_typed allowed (cons null xs) h k = cc
entries_typed allowed (cons (bool b) xs) h k = cc
entries_typed allowed (cons (num n) xs) h k = cc
entries_typed allowed (cons (str s) xs) h k = cc
entries_typed allowed (cons (arr ys) xs) h k = cc

list_typed :
    (allowed : List String) (v : Value) (items : Items)
    → check_list allowed v ≡ ok items
    → (v ≡ arr items) × (items ≢ nil) × AllTyped allowed items
unfolding check_list
list_typed allowed (arr nil) items h = cc
list_typed allowed (arr (cons x xs)) items h =
    let (objects, checked) = guard_ok (all_objects (cons x xs)) _ _ _ h in
    let (u, entries, same) = bind_ok (check_entries allowed (cons x xs)) _ _ checked in
    let accepted : cons x xs ≡ items = cc in
    (
      ap arr accepted,
      (λ e. let impossible : cons x xs ≡ nil = accepted ∙ e in cc),
      rw (sym accepted) (entries_typed allowed (cons x xs) objects entries),
    )
list_typed allowed null items h = cc
list_typed allowed (bool b) items h = cc
list_typed allowed (num n) items h = cc
list_typed allowed (str s) items h = cc
list_typed allowed (obj fs) items h = cc

loaded_checked :
    (r : Loaded) (v : Value) (name : String)
    → after_load name max_depth r ≡ ok v
    → (r ≡ loaded v) × (depth v ≤ max_depth)
unfolding after_load
loaded_checked (loaded w) v name h =
    let (u, passed, rest) = bind_ok (map_err some (check_depth w name max_depth)) _ _ h in
    let same : w ≡ v = cc in
    let checked = map_err_ok (check_depth w name max_depth) _ _ passed in
    let fits = check_depth_ok w name max_depth checked in (ap loaded same, rw (sym same) fits)
loaded_checked malformed v name h = cc
loaded_checked too_nested v name h = cc

len_checked :
    (raw t name : String) → check_len raw name max_len ≡ ok t → (t ≡ raw) × (count raw ≤ max_len)
unfolding check_len
len_checked raw t name h = ground arith

-- What `json.loads` and the guard on depth leave of a parameter.
param_checked :
    (loads : String → Loaded) (raw name : String) (v : Value)
    → check_json_param loads raw name max_len max_depth ≡ ok v
    → (count raw ≤ max_len) × (loads raw ≡ loaded v) × (depth v ≤ max_depth)
unfolding check_json_param
param_checked loads raw name v h =
    let (t, short, rest) = bind_ok (map_err some (check_len raw name max_len)) _ _ h in
    let (same, size) = len_checked raw t name (map_err_ok _ _ _ short) in
    let (parsed, deep) = loaded_checked (loads raw) v name (rw (sym same) rest) in
    (size, parsed, deep)

-- Authorization details that validate are the parsed parameter itself: a JSON array of at least one
-- object, at most 16384 characters long and nested at most ten levels, where each object has a `type` that the server supports.
pub validated_details :
    (loads : String → Loaded) (raw : String) (allowed : List String) (items : Items)
    → validate_authorization_details loads raw allowed ≡ ok items
    → (loads raw ≡ loaded (arr items))
      × (items ≢ nil)
      × AllTyped allowed items
      × (count raw ≤ 16384)
      × (depth (arr items) ≤ 10)
unfolding validate_authorization_details
validated_details loads raw allowed items h =
    let (v, parsed, rest) =
      bind_ok (map_err outer (check_json_param loads raw "authorization_details" max_len max_depth))
        _ _ h in
    let (same, more, typed) = list_typed allowed v items rest in
    let (size, found, deep) = param_checked loads raw _ v (map_err_ok _ _ _ parsed) in
    (rw (sym same) found, more, typed, size, rw (sym same) deep)
