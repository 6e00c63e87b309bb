-- ===== src/Services/JwtBearer/Once.antt =====
-- services/jwt_bearer_grant.py: an assertion that is presented twice.
use python_oauth2_server.Prelude.{
  leb, eqb, leb→le, length, All, truthy, ℕ, min, String, refl, sym, ap, inl, inr, not, Option, none,
  some, List, [], arith, Result, ok, err, map_err, guard_ok, require_ok, bind_ok, map_err_ok,
  Result-cases, ok_unique, ◌+◌, ◌-◌, ◌*◌, ◌≤◌, ◌<◌, ◌≡◌, ◌∙◌, ◌≢◌, ◌∷◌, ◌>>=◌,
}
use Prim.Native.String.{◌++◌ as append}
use python_oauth2_server.Clock.{second}
use python_oauth2_server.Json.{Fields, Value, obj, get_field, as_str}
use python_oauth2_server.Errors.{Raised}
use python_oauth2_server.Models.{Client, TrustedIssuer}
use python_oauth2_server.Storage.{Storage}
use python_oauth2_server.Storage.Issuers.{get_trusted_issuer}
use python_oauth2_server.Strings.{split_on, strip}
use python_oauth2_server.Services.Jwt.{Jwt, Key}
use python_oauth2_server.Services.ClientAssertion.{
  JtiReplayGuard, Observed, fresh, seen, full, observe, max_jti_ttl_secs,
}
use python_oauth2_server.Services.ClientAssertion.Replay.{Observation, run, replay_seen}
use python_oauth2_server.Services.JwksCache.{fetch}
use python_oauth2_server.Services.JwtBearer.{
  Library, Stores, trusted_issuer, unverified_header_and_iss, allows_client, is_id_jag_typ,
  select_key, allowed_audiences_list,
}
use python_oauth2_server.Services.JwtBearer.Redeem.{
  Call, iat_skew_secs, allowed_alg, required, fetch_error, numeric_date, verify_with, jti_and_ttl,
  answer, check_claims, after_guard, after_claims, after_issuer, redeem_jwt_bearer_assertion,
}

-- What is known of an assertion that was redeemed, the guard that observed it and what it became.
pub record Redeemed (lib : Library) (call : Call) (assertion : String) (g after : JtiReplayGuard)
    : Type 0 where
  pub claims : Fields
  pub iss : String
  pub jti : String
  pub exp : ℕ
  pub payload : lib.jwt.unverified_claims assertion ≡ some claims
  pub issued : truthy (as_str (get_field "iss" claims)) ≡ some iss
  pub named : truthy (as_str (get_field "jti" claims)) ≡ some jti
  pub dated : numeric_date lib.jwt "exp" (get_field "exp" claims) ≡ ok exp
  pub live : call.wall < exp
  pub short : exp - call.wall ≤ max_jti_ttl_secs * second
  pub unseen : (observe g call.later (append "jwt-bearer:" iss) jti (exp - call.wall)).1 ≡ fresh
  pub kept : after ≡ (observe g call.later (append "jwt-bearer:" iss) jti (exp - call.wall)).0

trusted_issuer_ok :
    (lib : Library) (storage : Storage) (client : Client) (assertion : String)
    (r : Fields × String × TrustedIssuer)
    → trusted_issuer lib storage client assertion ≡ ok r
    → (claims : Fields) × (lib.jwt.unverified_claims assertion ≡ some claims)
      × (truthy (as_str (get_field "iss" claims)) ≡ some r.1)
unfolding trusted_issuer unverified_header_and_iss
trusted_issuer_ok lib storage client assertion r h =
    let ((header, iss), read, h1) = bind_ok (unverified_header_and_iss lib.jwt assertion) _ _ h in
    let (trusted, found, h2) = require_ok (get_trusted_issuer storage iss) _ _ _ h1 in
    let (enabled, h3) = guard_ok trusted.enabled _ _ _ h2 in
    let (allowed, listed, h4) = bind_ok (allows_client lib trusted client.client_id) _ _ h3 in
    let (openness, h5) = guard_ok allowed _ _ _ h4 in
    let (typ, h6) = guard_ok (not (is_id_jag_typ (get_field "typ" header))) _ _ _ h5 in
    let (shaped, h7) = guard_ok (eqb (length (split_on b'.' assertion)) 3) _ _ _ read in
    let (top, headed, h8) = require_ok (lib.jwt.get_unverified_header assertion) _ _ _ h7 in
    let (claims, payload, h9) = require_ok (lib.jwt.unverified_claims assertion) _ _ _ h8 in
    let (name, named, h10) = require_ok (truthy (as_str (get_field "iss" claims))) _ _ _ h9 in
    let same : name ≡ r.1 =
      ap (λ p. p.1) (ok_unique _ _ (header, iss) refl h10)
      ∙ ap (λ p. p.1) (ok_unique _ (header, iss, trusted) r refl h6) in
    (claims, payload, named ∙ ap some same)

-- The claims that were checked are those of the verified assertion.
check_claims_ok :
    (jwt : Jwt) (now : ℕ) (verified : Result Raised Fields) (r : Fields × String × ℕ)
    → check_claims jwt now verified ≡ ok r
    → (exp : ℕ) × (verified ≡ ok r.0)
      × (truthy (as_str (get_field "jti" r.0)) ≡ some r.1)
      × (numeric_date jwt "exp" (get_field "exp" r.0) ≡ ok exp)
      × (exp - now ≤ max_jti_ttl_secs * second)
      × (exp - now ≡ r.2)
unfolding check_claims jti_and_ttl
check_claims_ok jwt now verified r h =
    let (claims, passed, h1) = bind_ok verified _ _ h in
    let (iat, issued, h2) = bind_ok (numeric_date jwt "iat" (get_field "iat" claims)) _ _ h1 in
    let (past, h3) = guard_ok (leb iat (now + iat_skew_secs * second)) _ _ _ h2 in
    let ((jti, ttl), read, h4) = bind_ok (jti_and_ttl jwt now claims) _ _ h3 in
    let all = ok_unique _ (claims, jti, ttl) r refl h4 in
    let (j, named, h5) = require_ok (truthy (as_str (get_field "jti" claims))) _ _ _ read in
    let (exp, dated, h6) = bind_ok (numeric_date jwt "exp" (get_field "exp" claims)) _ _ h5 in
    let (short, h7) = guard_ok (leb (exp - now) (max_jti_ttl_secs * second)) _ _ _ h6 in
    let pair = ok_unique _ (j, exp - now) (jti, ttl) refl h7 in
    rw (sym all)
      (exp, passed, named ∙ ap (λ p. some p.0) pair, dated, leb→le _ _ short, ap (λ p. p.1) pair)

-- Only an assertion that the guard has not seen goes on to its subject, which leaves the guard.
after_claims_ok :
    (lib : Library) (call : Call) (iss : String) (trusted : TrustedIssuer) (st : Stores)
    (r : Result Raised (Fields × String × ℕ)) (user : String)
    → (after_claims lib call iss trusted st r).1 ≡ ok user
    → (p : Fields × String × ℕ) × (r ≡ ok p)
      × ((observe st.jti_guard call.later (append "jwt-bearer:" iss) p.1 p.2).1 ≡ fresh)
      × ((after_claims lib call iss trusted st r).0.jti_guard
          ≡ (observe st.jti_guard call.later (append "jwt-bearer:" iss) p.1 p.2).0)
after_claims_ok lib call iss trusted st (err e) user h = cc
after_claims_ok lib call iss trusted st (ok (claims, jti, ttl)) user h =
    let (unseen, kept) =
      guarded claims (observe st.jti_guard call.later (append "jwt-bearer:" iss) jti ttl) h in
    ((claims, jti, ttl), refl, unseen, kept)
  where
    guarded :
        (claims : Fields) (o : JtiReplayGuard × Observed)
        → (after_guard lib call trusted claims (record st { jti_guard = o.0 }) (answer o.1)).1
          ≡ ok user
        → (o.1 ≡ fresh)
          × ((after_guard lib call trusted claims
                (record st { jti_guard = o.0 })
                (answer o.1)).0.jti_guard
              ≡ o.0)
    guarded claims (g, fresh) h = (refl, refl)
    guarded claims (g, seen) h = cc
    guarded claims (g, full) h = cc

verify_with_ok :
    (lib : Library) (now : ℕ) (assertion : String) (trusted : TrustedIssuer) (header : Fields)
    (our_issuer url : String) (jwks : Value) (claims : Fields)
    → verify_with lib now assertion trusted header our_issuer url jwks ≡ ok claims
    → (key : Key) × (alg : String) × (audiences : List String) × (lib.jwt.decode now assertion key
          alg audiences
          (some trusted.issuer)
          required
        ≡ ok claims)
unfolding verify_with
verify_with_ok lib now assertion trusted header our_issuer url jwks claims h =
    let (alg, allowed, h1) = bind_ok (allowed_alg (as_str (get_field "alg" header))) _ _ h in
    let (key, selected, h2) = bind_ok (select_key lib jwks header alg) _ _ h1 in
    let (audiences, listed, h3) = bind_ok (allowed_audiences_list lib trusted) _ _ h2 in
    (key, alg, our_issuer ∷ url ∷ audiences, map_err_ok _ _ _ h3)

some_unique {ℓ} : {A : Type ℓ} (o : Option A) (a b : A) → o ≡ some a → o ≡ some b → a ≡ b
some_unique none a b h k = cc
some_unique (some x) a b h k = cc

seen_not_fresh : (o : Observed) → o ≡ seen → o ≡ fresh → ⊥
seen_not_fresh fresh h k = absurd (cc h)
seen_not_fresh seen h k = absurd (cc k)
seen_not_fresh full h k = absurd (cc h)

-- The next redemption would have to be before `exp`, until when the guard keeps the entry.
in_time :
    (exp now now' later later' cap : ℕ)
    → now < exp
    → now' < exp
    → exp - now ≤ cap
    → later' + now ≤ later + now'
    → later' < later + min (exp - now) cap
in_time exp now now' later later' cap live live' short pace = omega arith

before :
    (others : List Observation) (m expiry : ℕ)
    → m < expiry
    → All (λ o. o.0 ≤ m) others
    → All (λ o. o.0 < expiry) others
before [] m expiry live h = tt
before (o ∷ os) m expiry live h = (omega (arith, h.0), before os m expiry live h.1)

-- The parts of PyJWT that are relied on: `decode` gives the payload of the assertion, and refuses
-- one whose `exp` is over.
module _ (lib : Library)
    (payload : (now : ℕ) (assertion : String) (key : Key) (alg : String) (audiences : List String)
        (issuer : Option String) (claims : Fields)
      → lib.jwt.decode now assertion key alg audiences issuer required ≡ ok claims
      → lib.jwt.unverified_claims assertion ≡ some claims)
    (unexpired : (now : ℕ) (assertion : String) (key : Key) (alg : String) (audiences : List String)
        (issuer : Option String) (claims : Fields) (exp : ℕ)
      → lib.jwt.decode now assertion key alg audiences issuer required ≡ ok claims
      → numeric_date lib.jwt "exp" (get_field "exp" claims) ≡ ok exp
      → now < exp) where
  after_issuer_ok :
      (call : Call) (assertion our_issuer url user : String) (st : Stores)
      (r : Result Raised (Fields × String × TrustedIssuer))
      (named : (x : Fields × String × TrustedIssuer)
        → r ≡ ok x
        → (claims : Fields) × (lib.jwt.unverified_claims assertion ≡ some claims)
          × (truthy (as_str (get_field "iss" claims)) ≡ some x.1))
      → (after_issuer lib call assertion our_issuer url st r).1 ≡ ok user
      → Redeemed lib call assertion st.jti_guard
          (after_issuer lib call assertion our_issuer url st r).0.jti_guard
  after_issuer_ok call assertion our_issuer url user st (err e) named h = cc
  after_issuer_ok call assertion our_issuer url user st (ok (header, iss, trusted)) named h =
      elim (Result-cases (allowed_alg (as_str (get_field "alg" header)))) [
        | inl (e, r) ↦ absurd (cc (rw (after_issuer, r) at h))
        | inr (alg, r) ↦
            let (cache, document) =
              fetch lib.json_loads st.jwks_cache call.monotonic call.reply call.later
                (strip trusted.jwks_uri) in
            let verified = map_err fetch_error document >>= λ d.
            verify_with lib call.wall assertion trusted header our_issuer url (obj d) in
            let (p, checked, unseen, kept) =
              after_claims_ok lib call iss trusted (record st { jwks_cache = cache })
                (check_claims lib.jwt call.wall verified) user (rw (after_issuer, r) at h) in
            let (exp, signed, jti, dated, short, ttl) =
              check_claims_ok lib.jwt call.wall verified p checked in
            let (d, fetched, decoded) = bind_ok (map_err fetch_error document) _ _ signed in
            let (key, a, audiences, good) =
              verify_with_ok lib call.wall assertion trusted header our_issuer url (obj d) p.0
                decoded in
            let own = payload call.wall assertion key a audiences (some trusted.issuer) p.0 good in
            let (claims, read, issuer) = named (header, iss, trusted) refl in
            let same : claims ≡ p.0 = cc in
            rw (after_issuer, r)
              (record {
                claims = p.0;
                iss = iss;
                jti = p.1;
                exp = exp;
                payload = own;
                issued = rw (sym same) issuer;
                named = jti;
                dated = dated;
                live =
                    unexpired call.wall assertion key a audiences (some trusted.issuer) p.0 exp good
                      dated;
                short = short;
                unseen = rw ttl unseen;
                kept = rw ttl kept;
              })
      ]

  redeem-Redeemed :
      (call : Call) (assertion : String) (client : Client) (our_issuer url user : String)
      (st : Stores)
      → (redeem_jwt_bearer_assertion lib call assertion client our_issuer url st).1 ≡ ok user
      → Redeemed lib call assertion st.jti_guard
          (redeem_jwt_bearer_assertion lib call assertion client our_issuer url st).0.jti_guard
  unfolding redeem_jwt_bearer_assertion
  redeem-Redeemed call assertion client our_issuer url user st h =
      after_issuer_ok call assertion our_issuer url user st
        (trusted_issuer lib st.storage client assertion)
        (trusted_issuer_ok lib st.storage client assertion) h

  -- An assertion that was redeemed is never redeemed again, whichever client presents it, whatever
  -- became of the tables and the cached key sets, and whatever the guard observed in between, as
  -- long as the clock of the wall advances at least as much as the monotonic one between the two.
  pub redeemed_once :
      (call call' : Call) (assertion : String) (client client' : Client)
      (our_issuer our_issuer' url url' user user' : String) (st st' : Stores)
      (others : List Observation)
      → (redeem_jwt_bearer_assertion lib call assertion client our_issuer url st).1 ≡ ok user
      → st'.jti_guard
        ≡ run
            (redeem_jwt_bearer_assertion lib call assertion client our_issuer url st).0.jti_guard
            others
      → All (λ o. o.0 ≤ call'.later) others
      → call'.later + call.wall ≤ call.later + call'.wall
      → (redeem_jwt_bearer_assertion lib call' assertion client' our_issuer' url' st').1 ≢ ok user'
  redeemed_once call call' assertion client client' our_issuer our_issuer' url url' user user' st
        st' others first between times pace again =
      let a = redeem-Redeemed call assertion client our_issuer url user st first in
      let b = redeem-Redeemed call' assertion client' our_issuer' url' user' st' again in
      let claims : a.claims ≡ b.claims = some_unique _ _ _ a.payload b.payload in
      let iss : a.iss ≡ b.iss =
        some_unique _ _ _ a.issued
          (ap (λ c. truthy (as_str (get_field "iss" c))) claims ∙ b.issued) in
      let jti : a.jti ≡ b.jti =
        some_unique _ _ _ a.named
          (ap (λ c. truthy (as_str (get_field "jti" c))) claims ∙ b.named) in
      let exp : a.exp ≡ b.exp =
        ok_unique _ _ _ a.dated
          (ap (λ c. numeric_date lib.jwt "exp" (get_field "exp" c)) claims ∙ b.dated) in
      let live =
        in_time a.exp call.wall call'.wall call.later call'.later _ a.live (rw exp b.live) a.short
          pace in
      let refused =
        replay_seen st.jti_guard call.later call'.later (append "jwt-bearer:" a.iss) a.jti
          (a.exp - call.wall) (b.exp - call'.wall) others a.unseen
          (before others call'.later _ live times) live in
      let g = ap (λ x. run x others) (sym a.kept) ∙ sym between in
      seen_not_fresh _
        (ap (λ x. (observe x call'.later (append "jwt-bearer:" a.iss) a.jti (b.exp - call'.wall)).1)
            (sym g)
          ∙ refused)
        (ap
            (λ i.
              (observe st'.jti_guard call'.later (append "jwt-bearer:" i) a.jti
                (b.exp - call'.wall)).1)
            iss
          ∙ ap
              (λ j.
                (observe st'.jti_guard call'.later (append "jwt-bearer:" b.iss) j
                  (b.exp - call'.wall)).1)
              jti
          ∙ b.unseen)
