-- ===== src/Services/DpopNonce/Laws.antt =====
-- services/dpop_nonce.py: how long a nonce is accepted.
use native.Mathlib.Nat.{le-div_iff_mul-le, div-lt_iff_lt-mul, mul-div-le, lt-mul-div-succ}
use python_oauth2_server.Prelude.{
  eqb, Bool-cases, eq_refl, ℕ, suc, inl, inr, arith, ok, err, ◌+◌, ◌*◌, ◌/◌, ◌≤◌, ◌<◌, ◌≡◌, ◌⊎◌,
}
use python_oauth2_server.Clock.{second}
use python_oauth2_server.Services.DpopNonce.{
  DpopNonceIssuer, parts, stale, current_bucket, issue, verify,
}

-- A time that is less than a span later is in the same span or the next.
div-next : (a b l : ℕ) → 0 < l → a ≤ b → b ≤ a + l → (b / l ≡ a / l) ⊎ (b / l ≡ suc (a / l))
div-next a b l pos after soon =
    let least = mul-div-le a l in
    let below = lt-mul-div-succ a pos in
    let least' = mul-div-le b l in
    let below' = lt-mul-div-succ b pos in
    let lower : a / l ≤ b / l = (le-div_iff_mul-le pos).1 (omega arith) in
    let upper : b / l < a / l + 2 = (div-lt_iff_lt-mul pos).1 (omega arith) in
    elim (Bool-cases (eqb (b / l) (a / l))) [
      | inl e ↦ inl (ground arith)
      | inr e ↦ inr (ground arith)
    ]

div-later : (a b l : ℕ) → 0 < l → a + 2 * l ≤ b → a / l + 2 ≤ b / l
div-later a b l pos late = let least = mul-div-le a l in (le-div_iff_mul-le pos).1 (omega arith)

-- What the codec promises of the bucket of an instant.
abbrev Decodes : DpopNonceIssuer → ℕ → Type 0
Decodes issuer now =
    issuer.codec.decode (issue issuer now)
    ≡ parts (current_bucket issuer now) (issuer.codec.tag_for_bucket (current_bucket issuer now))

-- A nonce is accepted for the lifetime of the issuer after it was issued, if it is decoded to the
-- bucket and the tag it was made of.
pub nonce_accepted :
    (issuer : DpopNonceIssuer) (now now' : ℕ)
    → 0 < issuer.lifetime_secs
    → Decodes issuer now
    → now ≤ now'
    → now' ≤ now + issuer.lifetime_secs * second
    → verify issuer now' (issue issuer now) ≡ ok tt
unfolding verify current_bucket
nonce_accepted issuer now now' pos decodes after soon =
    let next =
      div-next (now / second) (now' / second) issuer.lifetime_secs pos (omega arith)
        (omega arith) in
    elim next [
      | inl e ↦ rw (decodes, e) (rw (eq_refl _) (ground arith))
      | inr e ↦ rw (decodes, e) (rw (eq_refl _) (ground arith))
    ]

-- From twice the lifetime of the issuer on a nonce is stale, if it is decoded to the bucket and the
-- tag it was made of.
pub nonce_stale :
    (issuer : DpopNonceIssuer) (now now' : ℕ)
    → 0 < issuer.lifetime_secs
    → Decodes issuer now
    → now + 2 * issuer.lifetime_secs * second ≤ now'
    → verify issuer now' (issue issuer now) ≡ err (stale "DPoP nonce is expired or not yet valid")
unfolding verify current_bucket
nonce_stale issuer now now' pos decodes late =
    let later = div-later (now / second) (now' / second) issuer.lifetime_secs pos (omega arith) in
    rw decodes (rw (eq_refl _) (ground arith))
