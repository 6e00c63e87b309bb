-- ===== src/Services/Dpop/Once.antt =====
-- services/dpop.py: what is known of a proof that was accepted, and that it is accepted once.
use python_oauth2_server.Prelude.{
  leb, leb→le, All, eq_iff, ℕ, String, refl, sym, ap, true, Option, none, some, List, [], arith,
  Result, ok, err, guard_ok, require_ok, bind_ok, both, ok_unique, ◌==◌, ◌+◌, ◌*◌, ◌≤◌, ◌<◌, ◌≡◌,
  ◌∙◌, ◌≢◌, ◌&&◌, ◌∷◌,
}
use python_oauth2_server.Clock.{second}
use python_oauth2_server.Json.{Fields, get_field, as_str}
use python_oauth2_server.Services.Dpop.{
  DpopError, DpopValidated, DpopReplayStore, check_and_insert, replay_ttl_secs,
}
use python_oauth2_server.Strings.{same_lower}
use python_oauth2_server.Services.Dpop.Replay.{run, replay_refused}
use python_oauth2_server.Services.Dpop.Proof.{
  Library, Failure, text_of, str_claim, strip_query, binds, iat_of, iat_skew_secs, nonce_of,
  verify_signature, check_proof, inserted, after_check, validate_dpop_proof,
}

-- What the claims say, and when.
pub record Fresh (lib : Library) (now : ℕ) (proof method url : String)
    (access_token : Option String) (v : DpopValidated) (jti : String) : Type 0 where
  pub claims : Fields
  pub iat : ℕ
  pub htu : String
  pub signed : verify_signature lib proof ≡ ok (v.jkt, claims)
  pub own_method : same_lower (text_of lib (get_field "htm" claims)) method ≡ true
  pub own_target : strip_query lib (text_of lib (get_field "htu" claims)) ≡ some htu
  pub target : strip_query lib url ≡ some htu
  pub own_token : binds lib access_token v.ath ≡ true
  pub dated : iat_of lib.jwt (get_field "iat" claims) ≡ ok iat
  pub not_old : now ≤ iat + iat_skew_secs * second
  pub not_ahead : iat ≤ now + iat_skew_secs * second
  pub named : jti ≡ str_claim lib (get_field "jti" claims)

pub check_proof-Fresh :
    (lib : Library) (now : ℕ) (proof method url : String) (access_token : Option String)
    (v : DpopValidated) (jti : String)
    → check_proof lib now proof method url access_token ≡ ok (v, jti)
    → Fresh lib now proof method url access_token v jti
unfolding check_proof
check_proof-Fresh lib now proof method url access_token v jti h =
    let ((jkt, claims), signed, h1) = bind_ok (verify_signature lib proof) _ _ h in
    let (own_method, h2) =
      guard_ok (same_lower (text_of lib (get_field "htm" claims)) method) _ _ _ h1 in
    let (htu, own_target, h3) =
      require_ok (strip_query lib (text_of lib (get_field "htu" claims))) _ _ _ h2 in
    let (target, found, h4) = require_ok (strip_query lib url) _ _ _ h3 in
    let (hit, h5) = guard_ok (htu == target) _ _ _ h4 in
    let (own_token, h6) =
      guard_ok (binds lib access_token (as_str (get_field "ath" claims))) _ _ _ h5 in
    let (iat, dated, h7) = bind_ok (iat_of lib.jwt (get_field "iat" claims)) _ _ h6 in
    let (window, h8) =
      guard_ok (leb now (iat + iat_skew_secs * second) && leb iat (now + iat_skew_secs * second)) _
        _ _ h7 in
    let (nonce, read, h9) = bind_ok (nonce_of (get_field "nonce" claims)) _ _ h8 in
    let v0 : DpopValidated = record {
      jkt = jkt;
      nonce = nonce;
      ath = as_str (get_field "ath" claims);
    } in
    let pair = ok_unique _ (v0, str_claim lib (get_field "jti" claims)) (v, jti) refl h9 in
    let same : v0 ≡ v = ap (λ p. p.0) pair in
    let same_jti : str_claim lib (get_field "jti" claims) ≡ jti = ap (λ p. p.1) pair in
    let (not_old, not_ahead) = both _ _ window in
    rw (sym same) (record {
      claims = claims;
      iat = iat;
      htu = htu;
      signed = signed;
      own_method = own_method;
      own_target = own_target;
      target = found ∙ ap some (sym ((eq_iff _ _).0 hit));
      own_token = own_token;
      dated = dated;
      not_old = leb→le _ _ not_old;
      not_ahead = leb→le _ _ not_ahead;
      named = sym same_jti;
    })

-- What an accepted proof leaves in the store.
pub checked :
    (replay : DpopReplayStore) (monotonic : ℕ) (r : Result Failure (DpopValidated × String))
    (v : DpopValidated)
    → (after_check replay monotonic r).1 ≡ ok v
    → (jti : String) × (r ≡ ok (v, jti))
      × ((check_and_insert replay monotonic jti).1 ≡ none)
      × ((after_check replay monotonic r).0 ≡ (check_and_insert replay monotonic jti).0)
checked replay monotonic (err e) v h = cc
checked replay monotonic (ok (w, jti)) v h =
    let (same, new, kept) = stored w v (check_and_insert replay monotonic jti) h in
    (jti, ap (λ x. ok (x, jti)) same, new, kept)
  where
    stored :
        (w v : DpopValidated) (p : DpopReplayStore × Option DpopError)
        → (inserted w p).1 ≡ ok v
        → (w ≡ v) × (p.1 ≡ none) × ((inserted w p).0 ≡ p.0)
    stored w v (r, none) h = (cc, refl, refl)
    stored w v (r, some e) h = cc

-- The next run of a proof would have to be within its window, which the store outlasts.
too_late :
    (iat now now' monotonic monotonic' : ℕ)
    → iat ≤ now + iat_skew_secs * second
    → now' ≤ iat + iat_skew_secs * second
    → monotonic' + now ≤ monotonic + now'
    → monotonic' < monotonic + replay_ttl_secs * second
too_late iat now now' monotonic monotonic' ahead old pace = omega arith

some_or_none : (o : Option DpopError) (e : DpopError) → o ≡ some e → o ≡ none → ⊥
some_or_none none e h k = absurd (cc h)
some_or_none (some x) e h k = absurd (cc k)

-- A DPoP proof that was accepted is never accepted again, whatever the method, the target and the
-- token it is then presented for, and whatever identifiers are checked in between, as long as the
-- clock of the wall advances at least as much as the monotonic one between the two.
pub proof_once :
    (lib : Library) (now now' monotonic monotonic' : ℕ) (proof method method' url url' : String)
    (access_token access_token' : Option String) (replay : DpopReplayStore) (v v' : DpopValidated)
    (others : List (ℕ × String))
    → (validate_dpop_proof lib now monotonic proof method url access_token replay).1 ≡ ok v
    → All (λ e. e.0 ≤ monotonic') others
    → monotonic' + now ≤ monotonic + now'
    → (validate_dpop_proof lib now' monotonic' proof method' url' access_token' (
        run
          (validate_dpop_proof lib now monotonic proof method url access_token replay).0
          others)).1
      ≢ ok v'
unfolding validate_dpop_proof
proof_once lib now now' monotonic monotonic' proof method method' url url' access_token
      access_token' replay v v' others first between pace again =
    let (jti, passed, new, kept) =
      checked replay monotonic (check_proof lib now proof method url access_token) v first in
    let store =
      run (validate_dpop_proof lib now monotonic proof method url access_token replay).0 others in
    let (jti', passed', new', kept') =
      checked store monotonic' (check_proof lib now' proof method' url' access_token') v' again in
    let f = check_proof-Fresh lib now proof method url access_token v jti passed in
    let f' = check_proof-Fresh lib now' proof method' url' access_token' v' jti' passed' in
    let claims = ap (λ p. p.1) (ok_unique (verify_signature lib proof) _ _ f.signed f'.signed) in
    let same_jti : jti ≡ jti' =
      f.named ∙ ap (λ c. str_claim lib (get_field "jti" c)) claims ∙ sym f'.named in
    let same_iat : f.iat ≡ f'.iat =
      ok_unique _ _ _ f.dated (ap (λ c. iat_of lib.jwt (get_field "iat" c)) claims ∙ f'.dated) in
    let live =
      too_late f.iat now now' monotonic monotonic' f.not_ahead (rw same_iat f'.not_old) pace in
    let refused =
      replay_refused replay monotonic monotonic' jti others new
        (before others monotonic' _ live between) live in
    let accepted =
      ap (λ r. (check_and_insert (run r others) monotonic' jti).1) (sym kept)
      ∙ ap (λ j. (check_and_insert store monotonic' j).1) same_jti
      ∙ new' in
    some_or_none _ _ refused accepted
  where
    before :
        (others : List (ℕ × String)) (m expiry : ℕ)
        → m < expiry
        → All (λ e. e.0 ≤ m) others
        → All (λ e. e.0 < expiry) others
    before [] m expiry live h = tt
    before (e ∷ es) m expiry live h = (omega (arith, h.0), before es m expiry live h.1)
