-- ===== src/Services/JwksCache/Laws.antt =====
-- services/jwks_cache.py: how long a document is kept.
use python_oauth2_server.Prelude.{
  ltb, Bool-cases, truthy, eq_refl, ℕ, String, refl, sym, ap, inl, inr, Bool, true, false, Option,
  none, some, arith, Result, ok, err, guard_ok, require_ok, bind_ok, if◌then◌else◌, ◌+◌, ◌*◌, ◌≤◌,
  ◌≡◌, ◌∙◌, ◌>>=◌,
}
use python_oauth2_server.Clock.{second}
use python_oauth2_server.Dict
use python_oauth2_server.Dict.{get-put}
use python_oauth2_server.Json.{Fields, Loaded}
use python_oauth2_server.Errors.{Raised}
use python_oauth2_server.Services.JwksCache.{
  JwksCache, Answer, http_error, answer, clamp, min_ttl_secs, max_ttl_secs, default_ttl_secs,
  parse_cache_control_max_age, find_directive, secs_of, clamped, int_of, after_loads, document_of,
  fetch_from_url, live, keep, fetch, invalid_document,
}
use python_oauth2_server.Strings.{drop_chars}

abbrev InBounds : ℕ → Type 0
InBounds ttl = (min_ttl_secs ≤ ttl) × (ttl ≤ max_ttl_secs)

clamp-InBounds : (n : ℕ) → InBounds (clamp n)
clamp-InBounds n = (omega arith, omega arith)

clamped-InBounds : (o : Option ℕ) (ttl : ℕ) → clamped o ≡ some ttl → InBounds ttl
clamped-InBounds none ttl h = cc
clamped-InBounds (some n) ttl h = let same : clamp n ≡ ttl = cc in rw (sym same) (clamp-InBounds n)

if-InBounds :
    (b : Bool) (o : Option ℕ) (ttl : ℕ)
    → (if b then clamped o else some (clamp default_ttl_secs)) ≡ some ttl
    → InBounds ttl
if-InBounds true o ttl h = clamped-InBounds o ttl h
if-InBounds false o ttl h = clamped-InBounds (some default_ttl_secs) ttl h

secs_of-InBounds : (d : Option String) (ttl : ℕ) → secs_of d ≡ some ttl → InBounds ttl
secs_of-InBounds none ttl h = clamped-InBounds (some default_ttl_secs) ttl h
secs_of-InBounds (some d) ttl h = if-InBounds _ (int_of (drop_chars 8 d)) ttl h

parse-InBounds :
    (header : Option String) (ttl : ℕ)
    → parse_cache_control_max_age header ≡ some ttl
    → InBounds ttl
unfolding parse_cache_control_max_age
parse-InBounds header ttl h = secs_of-InBounds (find_directive (truthy header)) ttl h

fetched-InBounds :
    (loads : String → Loaded) (reply : Answer) (document : Fields) (ttl : ℕ)
    → fetch_from_url loads reply ≡ ok (document, ttl)
    → InBounds ttl
unfolding fetch_from_url
fetched-InBounds loads http_error document ttl h = cc
fetched-InBounds loads (answer is_success header body) document ttl h =
    let (success, h1) = guard_ok is_success _ _ _ h in
    let (n, parsed, h2) = require_ok (parse_cache_control_max_age header) _ _ _ h1 in
    let (v, read, h3) = bind_ok (after_loads (loads body) invalid_document) _ _ h2 in
    let (d, found, h4) = require_ok (document_of v) _ _ _ h3 in
    let same : n ≡ ttl = cc in parse-InBounds header ttl (parsed ∙ ap some same)

-- The document of an answer.
abbrev pub document : (String → Loaded) → Answer → Result Raised Fields
document loads reply = fetch_from_url loads reply >>= λ d. ok d.0

kept :
    (cache : JwksCache) (url : String) (now : ℕ) (r : Result Raised (Fields × ℕ))
    → (keep cache url now r).1 ≡ (r >>= λ d. ok d.0)
unfolding keep
kept cache url now (err e) = refl
kept cache url now (ok d) = refl

fetch_missed :
    (loads : String → Loaded) (cache : JwksCache) (now : ℕ) (reply : Answer) (later : ℕ)
    (url : String)
    → live now (Dict.get cache.entries url) ≡ none
    → (fetch loads cache now reply later url).1 ≡ document loads reply
unfolding fetch
fetch_missed loads cache now reply later url missed =
    rw missed (kept cache url later (fetch_from_url loads reply))

-- The text at a URL with no live entry is asked for. If that gives a document, it is answered from
-- the cache until the lifetime that its header sets, which is between 30 seconds and a day, and
-- from then on the URL is asked again.
pub fetch_cached :
    (loads : String → Loaded) (cache : JwksCache) (now : ℕ) (reply : Answer) (later : ℕ)
    (url : String) (d : Fields) (ttl now' : ℕ) (reply' : Answer) (later' : ℕ)
    → live now (Dict.get cache.entries url) ≡ none
    → fetch_from_url loads reply ≡ ok (d, ttl)
    → ((fetch loads cache now reply later url).1 ≡ ok d)
      × (min_ttl_secs ≤ ttl)
      × (ttl ≤ max_ttl_secs)
      × ((fetch loads (fetch loads cache now reply later url).0 now' reply' later' url).1
          ≡ (if ltb now' (later + ttl * second) then ok d else document loads reply'))
fetch_cached loads cache now reply later url d ttl now' reply' later' missed got =
    let (least, most) = fetched-InBounds loads reply d ttl got in
    let stored : Dict.get (fetch loads cache now reply later url).0.entries url
        ≡ some (d, later + ttl * second) =
      unfold fetch live keep in rw (missed, got) (get-put _ _ _ _ ∙ rw (eq_refl url) refl) in
    (
      fetch_missed loads cache now reply later url missed ∙ rw got refl,
      least,
      most,
      elim (Bool-cases (ltb now' (later + ttl * second))) [
        | inl e ↦ unfold fetch live in rw stored (rw e refl)
        | inr e ↦
            rw e
              (fetch_missed loads _ now' reply' later' url (unfold live in rw stored (rw e refl)))
      ],
    )
