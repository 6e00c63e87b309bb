-- ===== src/Tests/Clients.antt =====
-- services/limits.py, rar.py, auth.py: small parameters.
use Prim.Native.String.{count}
use python_oauth2_server.Prelude.{
  leb, String, refl, [], ok, err, if◌then◌else◌, ◌==◌, ◌≤◌, ◌≡◌, ◌≢◌, ◌∷◌,
}
use python_oauth2_server.Json.{
  Value, Items, arr, nil, cons, obj, field, end, str, Loaded, loaded, malformed, get_field,
}
use python_oauth2_server.Services.Limits
use python_oauth2_server.Services.Limits.{check_depth, too_deep}
use python_oauth2_server.Services.Limits.Depth.{depth, check_depth_exact}
use python_oauth2_server.Services.Rar
use python_oauth2_server.Services.Rar.{validate_authorization_details}
use python_oauth2_server.Services.Rar.Laws.{AllTyped, validated_details}

abbrev nested : Value
nested = arr (cons (arr nil) nil)

check_depth_exact_example :
    check_depth nested "act" 1 ≡ (if leb (depth nested) 1 then ok tt else err (too_deep "act" 1))
check_depth_exact_example = check_depth_exact nested "act" 1

abbrev payment : Items
payment = cons (obj (field "type" (str "payment") end)) nil

abbrev loads : String → Loaded
loads raw = if raw == "p" then loaded (arr payment) else malformed

validated_details_example :
    (loads "p" ≡ loaded (arr payment))
    × (payment ≢ nil)
    × AllTyped ("payment" ∷ []) payment
    × (count "p" ≤ 16384)
    × (depth (arr payment) ≤ 10)
unfolding validate_authorization_details Limits.check_json_param Limits.check_len Limits.after_load
    check_depth Limits.walk Limits.nodes Rar.check_list Rar.check_entries Rar.check_entry
    Rar.all_objects get_field Limits.extend_items Limits.extend_values
validated_details_example = validated_details loads "p" ("payment" ∷ []) payment refl
