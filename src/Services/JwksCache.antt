-- ===== src/Services/JwksCache.antt =====
-- services/jwks_cache.py: the documents of `jwks_uri`, and the JWKS of a client. The answer of the
-- HTTP client and `json.loads` are parameters.
pub mod Laws
use Prim.Native.Char.{Char, code}
use Prim.Native.String
use Prim.Native.String.{count}
use python_oauth2_server.Prelude.{
  ltb, leb, eqb, truthy, elem, ℕ, min, max, String, Bool, not, Option, none, some, List, [], Result,
  ok, err, guard, require, if◌then◌else◌, ◌==◌, ◌+◌, ◌-◌, ◌*◌, ◌&&◌, ◌||◌, ◌∷◌, ◌>>=◌, ◌>>◌,
}
use python_oauth2_server.Clock.{second}
use python_oauth2_server.Dict
use python_oauth2_server.Dict.{Dict}
use python_oauth2_server.Json.{
  Fields, Value, arr, obj, get_field, Loaded, loaded, malformed, too_nested,
}
use python_oauth2_server.Errors.{about, Raised, oauth, uncaught, invalid_client}
use python_oauth2_server.Models.{Client}
use python_oauth2_server.Strings.{strip, split_on, starts_with, drop_chars, all_chars}

abbrev pub default_ttl_secs : ℕ
default_ttl_secs = 300

abbrev pub min_ttl_secs : ℕ
min_ttl_secs = 30

abbrev pub max_ttl_secs : ℕ
max_ttl_secs = 86400

-- What `client.get(url)` does: it raises `HTTPError`, or answers with `is_success`, the header
-- `Cache-Control` and the text.
pub data Answer : Type 0 where
  http_error : Answer
  answer : Bool → Option String → String → Answer

abbrev pub is_decimal : Char → Bool
is_decimal c = leb b'0' (code c) && leb (code c) b'9'

-- The characters of Latin-1 that `isdigit` holds of: the decimal digits and three superscripts.
abbrev pub is_digit : Char → Bool
is_digit c = is_decimal c || eqb (code c) 0xb2 || eqb (code c) 0xb3 || eqb (code c) 0xb9

unfoldable pub digits_from : ℕ → String → ℕ
digits_from n String.[] = n
digits_from n (String.◌∷◌ c s) = digits_from (10 * n + (code c - b'0')) s

-- `int(value)` for a text of digits; `none` is `ValueError`.
unfoldable pub int_of : String → Option ℕ
unfolding all_chars digits_from
int_of value =
    if all_chars is_decimal value && leb (count value) 4300
    then some (digits_from 0 value)
    else none

-- `next((d for d in … if d.startswith("max-age=")), None)`
unfoldable pub first_max_age : List String → Option String
first_max_age [] = none
first_max_age (d ∷ ds) =
    let rest = first_max_age ds in if starts_with (strip d) "max-age=" then some (strip d) else rest

abbrev pub clamp : ℕ → ℕ
clamp secs = min (max secs min_ttl_secs) max_ttl_secs

abbrev pub find_directive : Option String → Option String
find_directive none = none
find_directive (some raw) = first_max_age (split_on b',' raw)

-- `none` is the `ValueError` of `int`.
abbrev pub clamped : Option ℕ → Option ℕ
clamped none = none
clamped (some n) = some (clamp n)

abbrev pub secs_of : Option String → Option ℕ
secs_of none = some (clamp default_ttl_secs)
secs_of (some directive) =
    let value = drop_chars 8 directive in
    if not (value == "") && all_chars is_digit value
    then clamped (int_of value)
    else some (clamp default_ttl_secs)

-- The header is a text of Latin-1; `none` is the `ValueError` of `int`.
unfoldable pub parse_cache_control_max_age : Option String → Option ℕ
unfolding first_max_age int_of
parse_cache_control_max_age header = secs_of (find_directive (truthy header))

pub record JwksCache : Type 0 where
  pub entries : Dict (Fields × ℕ)

-- `isinstance(document, dict)` with a list of keys.
abbrev pub document_of : Value → Option Fields
document_of (obj fs) = elim (get_field "keys" fs) [ some (arr xs) ↦ some fs | _ ↦ none ]
document_of _ = none

abbrev pub fetch_failed : Raised
fetch_failed = invalid_client "Failed to fetch jwks_uri"

abbrev pub invalid_document : Raised
invalid_document = invalid_client "jwks_uri returned an invalid JWKS document"

-- `json.loads` where `ValueError` is caught, and `RecursionError` is not.
abbrev pub after_loads : Loaded → Raised → Result Raised Value
after_loads (loaded v) e = ok v
after_loads malformed e = err e
after_loads too_nested e = err uncaught

unfoldable pub fetch_from_url : (String → Loaded) → Answer → Result Raised (Fields × ℕ)
fetch_from_url loads http_error = err fetch_failed
fetch_from_url loads (answer is_success cache_control body) = do
  guard is_success fetch_failed
  ttl ← require (parse_cache_control_max_age cache_control) uncaught
  value ← after_loads (loads body) invalid_document
  document ← require (document_of value) invalid_document
  ok (document, ttl)

-- The document of an entry that lives.
unfoldable pub live : ℕ → Option (Fields × ℕ) → Option Fields
live now none = none
live now (some (document, expiry)) = if ltb now expiry then some document else none

-- What is fetched goes into the cache, with the lifetime that begins now; an error does not.
unfoldable pub keep :
    JwksCache → String → ℕ → Result Raised (Fields × ℕ) → JwksCache × Result Raised Fields
keep cache url now (err e) = (cache, err e)
keep cache url now (ok (document, ttl)) =
    (record { entries = Dict.put cache.entries url (document, now + ttl * second) }, ok document)

abbrev pub or_else :
    Option Fields → JwksCache → JwksCache × Result Raised Fields → JwksCache × Result Raised Fields
or_else (some document) cache fetched = (cache, ok document)
or_else none cache fetched = fetched

-- The cached document while its entry lives, or else the one that is fetched; the clock is read
-- again when the answer is there.
unfoldable pub fetch :
    (String → Loaded) → JwksCache → ℕ → Answer → ℕ → String → JwksCache × Result Raised Fields
unfolding live keep fetch_from_url
fetch loads cache now reply later url =
    or_else (live now (Dict.get cache.entries url)) cache
      (keep cache url later (fetch_from_url loads reply))

-- `resolve_client_jwks`; no cache is the one of a service that was built without.
unfoldable pub resolve_client_jwks :
    (String → Loaded)
    → Client
    → Option JwksCache
    → List String
    → ℕ
    → Answer
    → ℕ
    → Option JwksCache × Result Raised (Option Value)
unfolding strip fetch
resolve_client_jwks loads client cache methods now reply later =
    let inline = strip client.jwks in
    let uri = strip client.jwks_uri in
    if not (elem client.token_endpoint_auth_method methods)
    then (cache, ok none)
    else if not (inline == "")
    then (
      cache,
      after_loads (loads inline) (invalid_client "Client inline JWKS is not valid JSON") >>= λ v.
          ok (some v),
    )
    else if not (uri == "")
    then elim cache [
      | none ↦ (
        none,
        err (invalid_client "jwks_uri is not supported in this context (no JWKS cache available)"),
      )
      | some c ↦
          let (after, document) = fetch loads c now reply later uri in
          (some after, document >>= λ fs. ok (some (obj fs)))
    ]
    else (
      cache,
      err (
          oauth (record {
            error = "invalid_client";
            description =
                about "Client must register jwks or jwks_uri for "
                  client.token_endpoint_auth_method;
            status = 400;
          })),
    )
