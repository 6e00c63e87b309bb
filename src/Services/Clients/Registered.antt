-- ===== src/Services/Clients/Registered.antt =====
-- services/clients.py: the registered methods, and the thumbprints of a JWKS.
use python_oauth2_server.Prelude.{
  Bool-cases, elem, eq_iff, String, refl, sym, ap, inl, inr, Bool, true, false, Option, none, some,
  [], arith, Result, ok, same_text-some, ok_unique, ◌==◌, ◌≡◌, ◌⊎◌, ◌∷◌,
}
use python_oauth2_server.Json.{
  Fields, Items, Value, null, bool, num, str, arr, obj, nil, cons, get_field, as_str,
}
use python_oauth2_server.Services.Jwt.{claim_is}
use python_oauth2_server.Errors.{Raised}
use python_oauth2_server.Models.{Client, is_public}
use python_oauth2_server.Services.Clients.{
  Method, by_none, by_jwt, by_tls, by_self_signed, by_secret, method_of,
}
use python_oauth2_server.Services.Clients.Certificate.{registers, iterated, listed}

-- The texts of `token_endpoint_auth_method` that stand for a method.
abbrev pub Registered : Method → String → Type 0
Registered by_none m = m ≡ "none"
Registered by_jwt m = (m ≡ "client_secret_jwt") ⊎ (m ≡ "private_key_jwt")
Registered by_tls m = m ≡ "tls_client_auth"
Registered by_self_signed m = m ≡ "self_signed_tls_client_auth"
Registered by_secret m =
    elem m (
      "none" ∷ "client_secret_jwt" ∷ "private_key_jwt" ∷ "tls_client_auth"
      ∷ "self_signed_tls_client_auth" ∷ [])
    ≡ false

-- One of the keys is an object with this thumbprint.
pub data HasThumbprint (t : String) : Items → Type 0 where
  here :
      (k : Fields) (ks : Items)
      → as_str (get_field "x5t#S256" k) ≡ some t
      → HasThumbprint t (cons (obj k) ks)
  there : (v : Value) (ks : Items) → HasThumbprint t ks → HasThumbprint t (cons v ks)

jwt_method :
    (m : String)
    → elem m ("client_secret_jwt" ∷ "private_key_jwt" ∷ []) ≡ true
    → Registered by_jwt m
jwt_method m h = elim (Bool-cases (m == "client_secret_jwt")) [
  | inl e ↦ inl ((eq_iff _ _).0 e)
  | inr e ↦ elim (Bool-cases (m == "private_key_jwt")) [
    | inl e2 ↦ inr ((eq_iff _ _).0 e2)
    | inr e2 ↦ absurd (cc (rw (e, e2) at h))
  ]
]

no_jwt_method :
    (m : String)
    → elem m ("client_secret_jwt" ∷ "private_key_jwt" ∷ []) ≡ false
    → ((m == "client_secret_jwt") ≡ false) × ((m == "private_key_jwt") ≡ false)
no_jwt_method m h = ground arith

method_of-Registered :
    (client : Client) → Registered (method_of client) client.token_endpoint_auth_method
unfolding method_of is_public
method_of-Registered client =
    let m = client.token_endpoint_auth_method in
    elim (Bool-cases (m == "none")) [
      | inl e ↦ rw e ((eq_iff _ _).0 e)
      | inr e ↦ elim (Bool-cases (elem m ("client_secret_jwt" ∷ "private_key_jwt" ∷ []))) [
        | inl e2 ↦ rw (e, e2) (jwt_method m e2)
        | inr e2 ↦ elim (Bool-cases (m == "tls_client_auth")) [
          | inl e3 ↦ rw (e, e2, e3) ((eq_iff _ _).0 e3)
          | inr e3 ↦ elim (Bool-cases (m == "self_signed_tls_client_auth")) [
            | inl e4 ↦ rw (e, e2, e3, e4) ((eq_iff _ _).0 e4)
            | inr e4 ↦
                let (no_secret_jwt, no_key_jwt) = no_jwt_method m e2 in
                rw (e, e2, e3, e4) (rw (e, no_secret_jwt, no_key_jwt, e3, e4) refl)
          ]
        ]
      ]
    ]

pub method_text :
    (client : Client) (m : Method)
    → method_of client ≡ m
    → Registered m client.token_endpoint_auth_method
method_text client m e = rw e at (method_of-Registered client)

registers-HasThumbprint : (t : String) (ks : Items) → registers t ks ≡ true → HasThumbprint t ks
unfolding registers
registers-HasThumbprint t nil h = cc
registers-HasThumbprint t (cons (obj k) ks) h = elim (Bool-cases (claim_is "x5t#S256" k t)) [
  | inl e ↦ here k ks (same_text-some _ _ e)
  | inr e ↦ there (obj k) ks (registers-HasThumbprint t ks (rw e at h))
]
registers-HasThumbprint t (cons null ks) h = there null ks (registers-HasThumbprint t ks h)
registers-HasThumbprint t (cons (bool b) ks) h = there (bool b) ks (registers-HasThumbprint t ks h)
registers-HasThumbprint t (cons (num n) ks) h = there (num n) ks (registers-HasThumbprint t ks h)
registers-HasThumbprint t (cons (str s) ks) h = there (str s) ks (registers-HasThumbprint t ks h)
registers-HasThumbprint t (cons (arr xs) ks) h = there (arr xs) ks (registers-HasThumbprint t ks h)

-- The keys that one of them is registered in are those of a list, of a document that is an object.
abbrev Holds : String → Items → Option Value → Type 0
Holds t ks jwks =
    (fs : Fields) × (jwks ≡ some (obj fs))
    × (get_field "keys" fs ≡ some (arr ks))
    × HasThumbprint t ks

nothing {ℓ} :
    {A : Type ℓ} (t : String) (ks : Items)
    → Path (Result Raised Items) (ok nil) (ok ks)
    → registers t ks ≡ true
    → A
unfolding registers
nothing t ks h r = let same : nil ≡ ks = ok_unique _ _ _ refl h in absurd (cc (rw (sym same) at r))

iterated_keys :
    (is_zero : String → Bool) (t : String) (v : Option Value) (ks : Items)
    → iterated is_zero v ≡ ok ks
    → registers t ks ≡ true
    → v ≡ some (arr ks)
unfolding registers
iterated_keys is_zero t none ks h r = nothing t ks h r
iterated_keys is_zero t (some (arr xs)) ks h r = ap (λ x. some (arr x)) (ok_unique _ _ _ refl h)
iterated_keys is_zero t (some (bool true)) ks h r = cc
iterated_keys is_zero t (some (bool false)) ks h r = nothing t ks h r
iterated_keys is_zero t (some (num n)) ks h r = elim (Bool-cases (is_zero n)) [
  | inl e ↦ nothing t ks (rw e at h) r
  | inr e ↦ absurd (cc (rw e at h))
]
iterated_keys is_zero t (some null) ks h r = nothing t ks h r
iterated_keys is_zero t (some (str s)) ks h r = nothing t ks h r
iterated_keys is_zero t (some (obj fs)) ks h r = nothing t ks h r

pub listed_keys :
    (is_zero : String → Bool) (t : String) (v : Option Value) (ks : Items)
    → listed is_zero v ≡ ok ks
    → registers t ks ≡ true
    → Holds t ks v
listed_keys is_zero t none ks h r = nothing t ks h r
listed_keys is_zero t (some null) ks h r = nothing t ks h r
listed_keys is_zero t (some (obj fs)) ks h r =
    (fs, refl, iterated_keys is_zero t (get_field "keys" fs) ks h r, registers-HasThumbprint t ks r)
listed_keys is_zero t (some (arr nil)) ks h r = nothing t ks h r
listed_keys is_zero t (some (arr (cons x xs))) ks h r = cc
listed_keys is_zero t (some (bool true)) ks h r = cc
listed_keys is_zero t (some (bool false)) ks h r = nothing t ks h r
listed_keys is_zero t (some (str s)) ks h r = elim (Bool-cases (s == "")) [
  | inl e ↦ nothing t ks (rw e at h) r
  | inr e ↦ absurd (cc (rw e at h))
]
listed_keys is_zero t (some (num n)) ks h r = elim (Bool-cases (is_zero n)) [
  | inl e ↦ nothing t ks (rw e at h) r
  | inr e ↦ absurd (cc (rw e at h))
]
