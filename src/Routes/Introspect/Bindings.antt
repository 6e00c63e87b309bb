-- ===== src/Routes/Introspect/Bindings.antt =====
-- routes/introspect.py: what a request proves of a token that is bound.
use python_oauth2_server.Prelude.{
  Bool-cases, Option-cases, truthy, same_text, eq_iff, String, refl, ap, inl, inr, Bool, true,
  Option, none, some, Result, ok, err, Option-cases, same_text-some, ◌≡◌, ◌∙◌,
}
use Prim.Native.String.{◌++◌ as append}
use python_oauth2_server.Json.{Fields, Value, null, bool, num, str, obj, arr, get_field, as_str}
use python_oauth2_server.Strings.{rstrip_slash}
use python_oauth2_server.Services.Dpop.{DpopValidated, DpopReplayStore, check_and_insert}
use python_oauth2_server.Services.Dpop.Proof
use python_oauth2_server.Services.Dpop.Proof.{
  Failure, invalid, escapes, check_proof, validate_dpop_proof, is_false,
}
use python_oauth2_server.Services.Dpop.Once.{Fresh, checked, check_proof-Fresh}
use python_oauth2_server.Routes.Token.Endpoint.{Env, DpopHeader, missing, undecodable, proof}
use python_oauth2_server.Routes.Introspect.{
  passed, bound_key, bound_thumbprint, same_key, check_key, check_thumbprint,
}

-- What a `cnf` claim asks for its key: nothing where it names none, and else a proof of that key for
-- this endpoint that is valid and was not seen before.
pub data KeyProved (lib : Proof.Library) (is_zero : String → Bool) (env : Env) (dpop : DpopHeader)
    (replay : DpopReplayStore) : Option Fields → Type 0 where
  no_cnf : KeyProved lib is_zero env dpop replay none
  no_key :
      (cnf : Fields) → get_field "jkt" cnf ≡ none → KeyProved lib is_zero env dpop replay (some cnf)
  empty_key :
      (cnf : Fields) (jkt : Value)
      → get_field "jkt" cnf ≡ some jkt
      → is_false is_zero jkt ≡ true
      → KeyProved lib is_zero env dpop replay (some cnf)
  with_proof :
      (cnf : Fields) (header jti : String) (v : DpopValidated)
      → get_field "jkt" cnf ≡ some (str v.jkt)
      → dpop ≡ proof header
      → Fresh lib env.call.wall header "post"
          (append (rstrip_slash env.config.issuer) "/oauth/introspect")
          none
          v
          jti
      → (check_and_insert replay env.call.later jti).1 ≡ none
      → KeyProved lib is_zero env dpop replay (some cnf)

-- The certificate of the connection is the one that is named, if one is.
abbrev pub SameCertificate : Option String → Option String → Type 0
SameCertificate none presented = Unit {0}
SameCertificate (some thumbprint) presented = presented ≡ some thumbprint

-- The same of the `cnf` claim.
abbrev pub CertificateProved : Option Fields → Option String → Type 0
CertificateProved none presented = Unit {0}
CertificateProved (some cnf) presented =
    SameCertificate (truthy (as_str (get_field "x5t#S256" cnf))) presented

is_text : (v : Value) (s : String) → same_text (as_str (some v)) (some s) ≡ true → v ≡ str s
is_text (str t) s h = ap str ((eq_iff t s).0 h)
is_text null s h = cc
is_text (bool b) s h = cc
is_text (num n) s h = cc
is_text (obj fs) s h = cc
is_text (arr xs) s h = cc

same_key_passed :
    (jkt : Value) (r : Result Failure DpopValidated)
    → same_key jkt r ≡ passed
    → (v : DpopValidated) × (r ≡ ok v) × (jkt ≡ str v.jkt)
same_key_passed jkt (err (invalid e)) h = cc
same_key_passed jkt (err escapes) h = cc
same_key_passed jkt (ok v) h = elim (Bool-cases (same_text (as_str (some jkt)) (some v.jkt))) [
  | inl e ↦ (v, refl, is_text jkt v.jkt e)
  | inr e ↦ absurd (cc (rw e at h))
]

module _ (lib : Proof.Library) (is_zero : String → Bool) (env : Env)
    (replay : DpopReplayStore) where
  proof_found :
      (cnf : Fields) (jkt : Value) (dpop : DpopHeader)
      → get_field "jkt" cnf ≡ some jkt
      → (check_key lib env dpop (some jkt) replay).1 ≡ passed
      → KeyProved lib is_zero env dpop replay (some cnf)
  unfolding check_key validate_dpop_proof
  proof_found cnf jkt missing named h = cc
  proof_found cnf jkt undecodable named h = cc
  proof_found cnf jkt (proof header) named h =
      let url = append (rstrip_slash env.config.issuer) "/oauth/introspect" in
      let (v, valid, same) = same_key_passed jkt _ h in
      let (jti, checks, new, kept) =
        checked replay env.call.later (check_proof lib env.call.wall header "post" url none) v
          valid in
      with_proof cnf header jti v (named ∙ ap some same) refl
        (check_proof-Fresh lib env.call.wall header "post" url none v jti checks) new

  pub key_found :
      (cnf : Option Fields) (dpop : DpopHeader)
      → (check_key lib env dpop (bound_key is_zero cnf) replay).1 ≡ passed
      → KeyProved lib is_zero env dpop replay cnf
  unfolding bound_key
  key_found none dpop h = no_cnf
  key_found (some cnf) dpop h = elim (Option-cases (get_field "jkt" cnf)) [
    | inl e ↦ no_key cnf e
    | inr (jkt, e) ↦ elim (Bool-cases (is_false is_zero jkt)) [
      | inl f ↦ empty_key cnf jkt e f
      | inr f ↦ proof_found cnf jkt dpop e (rw (e, f) at h)
    ]
  ]

same_certificate :
    (o presented : Option String)
    → check_thumbprint o presented ≡ true
    → SameCertificate o presented
unfolding check_thumbprint
same_certificate none presented h = tt
same_certificate (some thumbprint) presented h = same_text-some _ _ h

pub certificate_found :
    (cnf : Option Fields) (presented : Option String)
    → check_thumbprint (bound_thumbprint cnf) presented ≡ true
    → CertificateProved cnf presented
unfolding bound_thumbprint check_thumbprint
certificate_found none presented h = tt
certificate_found (some cnf) presented h =
    same_certificate (truthy (as_str (get_field "x5t#S256" cnf))) presented h
