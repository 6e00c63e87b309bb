-- ===== src/Routes/Authorize/Request.antt =====
-- routes/authorize.py: the parameters of a request, its client and its target.
use python_oauth2_server.Prelude.{
  is_some, truthy, elem, same_text, ℕ, String, Bool, false, not, Option, none, some, List, [],
  Result, ok, guard, map_err, require, if◌then◌else◌, ◌==◌, ◌||◌, ◌∷◌, ◌>>=◌, ◌>>◌,
}
use python_oauth2_server.Dict
use python_oauth2_server.Models.{Client, redirect_uri_list}
use python_oauth2_server.Storage.{Storage}
use python_oauth2_server.Storage.Clients.{get_client}
use python_oauth2_server.Storage.Denylist.{check_subject_denylisted}
use python_oauth2_server.Services.Par.{ParEntry}
use python_oauth2_server.Services.Clients.RedirectUri.{any_matches}
use python_oauth2_server.Services.AuthorizeResponse.{resolve_response_mode}
use python_oauth2_server.Routes.Authorize.{Library, Params, Target, Refusal, page, error_of, paged}

-- The value of a key in a list of pairs; the last one wins, as in `dict(pairs)`.
unfoldable pub value_of : String → List (String × String) → Option String
value_of key [] = none
value_of key ((k, v) ∷ pairs) =
    let rest = value_of key pairs in
    if is_some rest then rest else if k == key then some v else none

abbrev pub names_key : String → List (String × String) → Bool
names_key key pairs = is_some (value_of key pairs)

-- A key that is repeated.
unfoldable pub has_duplicate : List (String × String) → Bool
unfolding value_of
has_duplicate [] = false
has_duplicate ((k, v) ∷ pairs) = names_key k pairs || has_duplicate pairs

abbrev pub par_merge_keys : List String
par_merge_keys =
    "redirect_uri" ∷ "scope" ∷ "code_challenge" ∷ "code_challenge_method" ∷ "nonce" ∷ "resource"
    ∷ "state" ∷ "authorization_details" ∷ "claims" ∷ "acr_values" ∷ "dpop_jkt" ∷ []

-- `a`, or else `b`.
abbrev pub first_of : Option String → Option String → Option String
first_of (some a) b = some a
first_of none b = b

-- What was pushed outranks the query, for the keys that may be pushed.
unfoldable pub merge : Params → Option ParEntry → Params
merge params none key = params key
merge params (some entry) key =
    if elem key par_merge_keys
    then first_of (Dict.get entry.params key) (params key)
    else params key

-- The entry that the request refers to was pushed by its client.
unfoldable pub check_entry : Params → Option ParEntry → Result Refusal ParEntry
check_entry params found = do
  entry ← require found (error_of "invalid_request" "Unknown or expired request_uri" 400)
  guard (same_text (params "client_id") (some entry.client_id))
      (error_of "invalid_client" "request_uri client_id mismatch" 401)
  ok entry

abbrev pub unknown_client : Refusal
unknown_client = error_of "invalid_client" "unknown or disabled client_id" 401

unfoldable pub check_client : ℕ → Params → Storage → Result Refusal Client
unfolding get_client check_subject_denylisted
check_client now params storage = do
  client_id ← require (params "client_id") (error_of "invalid_request" "client_id is required" 400)
  guard (not (client_id == "")) unknown_client
  client ← require (get_client storage client_id) unknown_client
  guard client.enabled unknown_client
  guard (not (is_some (check_subject_denylisted storage now "client_id" client_id))) unknown_client
  guard (not client.require_state || is_some (params "state"))
      (error_of "invalid_request" "state parameter is required for this client (RFC 9700 §4.7)" 400)
  ok client

abbrev pub is_supported : Option String → Bool
is_supported none = false
is_supported (some s) = elem s ("code" ∷ "code id_token" ∷ [])

-- The claims of a request object outrank what was pushed and the query.
abbrev pub overlay : List (String × String) → Params → Params
overlay claims params key = first_of (value_of key claims) (params key)

-- The merged parameters, and the `response_mode` of the request object.
unfoldable pub check_object :
    Library → Client → Option String → Params → Result Refusal (Params × Option String)
unfolding value_of
check_object lib client none merged = ok (merged, none)
check_object lib client (some request_jwt) merged = do
  claims ← map_err paged (lib.process_jar client request_jwt)
  guard (is_supported (overlay claims merged "response_type")) (
      error_of "invalid_request"
        "Unsupported response_type in JAR; supported values: code, code id_token" 400)
  ok (overlay claims merged, value_of "response_mode" claims)

abbrev pub response_type_of : Params → Params → Option String
response_type_of params merged =
    if is_some (params "request") then merged "response_type" else params "response_type"

abbrev pub is_hybrid : Option String → Bool
is_hybrid response_type = same_text response_type (some "code id_token")

abbrev pub unregistered : Refusal
unregistered = error_of "invalid_request" "redirect_uri is not registered for this client" 400

-- The target is registered, and the mode is one that can be used.
unfoldable pub check_target :
    Library → Client → Params → Params → Option String → Result Refusal Target
unfolding any_matches redirect_uri_list resolve_response_mode
check_target lib client params merged jar_mode = do
  redirect_uri ← require (truthy (merged "redirect_uri")) unregistered
  registered ←
      map_err paged
        (any_matches lib.urlparse (redirect_uri_list lib.loads_texts client) redirect_uri)
  guard registered unregistered
  mode ← map_err page (
      resolve_response_mode (first_of (truthy jar_mode) (params "response_mode"))
        (is_hybrid (response_type_of params merged)))
  ok (record { mode = mode; redirect_uri = redirect_uri; state = merged "state" })
