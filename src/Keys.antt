-- ===== src/Keys.antt =====
-- keys.py: the signing keys of the server. The making of key material is not modelled.
pub mod Laws
use python_oauth2_server.Prelude.{
  ltb, ℕ, String, Bool, true, false, not, Option, none, some, List, [], map, if◌then◌else◌, ◌==◌,
  ◌+◌, ◌*◌, ◌&&◌, ◌∷◌, ◌++◌,
}
use python_oauth2_server.Clock.{second}

pub record SigningKey : Type 0 where
  pub kid : String
  pub algorithm : String
  pub key_material : String
  pub is_current : Bool
  pub created_at : ℕ
  pub expires_at : Option ℕ

unfoldable pub is_active : SigningKey → ℕ → Bool
is_active k now = elim k.expires_at [ none ↦ true | some t ↦ ltb now t ]

-- The keys in the order of their insertion.
abbrev pub KeySet : Type 0
KeySet = List SigningKey

-- `next(key for key in keys if p(key))`, or None.
unfoldable pub first : (SigningKey → Bool) → KeySet → Option SigningKey
first p [] = none
first p (k ∷ ks) = if p k then some k else first p ks

unfoldable pub keep : (SigningKey → Bool) → KeySet → KeySet
keep p [] = []
keep p (k ∷ ks) = let rest = keep p ks in if p k then k ∷ rest else rest

unfoldable pub add : KeySet → SigningKey → KeySet
add ks k = ks ++ k ∷ []

abbrev pub serves : ℕ → String → SigningKey → Bool
serves now alg k = k.algorithm == alg && (k.is_current && is_active k now)

unfoldable pub current_for_alg : KeySet → ℕ → String → Option SigningKey
unfolding first is_active
current_for_alg ks now alg = first (serves now alg) ks

unfoldable pub find : KeySet → ℕ → String → Option SigningKey
unfolding first is_active
find ks now kid = first (λ k. k.kid == kid && is_active k now) ks

unfoldable pub active_keys : KeySet → ℕ → KeySet
unfolding keep is_active
active_keys ks now = keep (λ k. is_active k now) ks

unfoldable pub active_keys_for_alg : KeySet → ℕ → String → KeySet
unfolding keep is_active
active_keys_for_alg ks now alg = keep (λ k. k.algorithm == alg && is_active k now) ks

-- What a rotation makes of a key: a current one of the algorithm retires after the grace time.
unfoldable pub retire : String → ℕ → SigningKey → SigningKey
retire alg expires_at k =
    if k.algorithm == alg && k.is_current
    then record k { is_current = false; expires_at = some expires_at }
    else k

unfoldable pub rotate : KeySet → ℕ → SigningKey → ℕ → KeySet
unfolding retire add
rotate ks now new_key grace_secs =
    add (map (retire new_key.algorithm (now + grace_secs * second)) ks) new_key

-- The keys that are left, and the `kid`s of those that are not.
unfoldable pub prune_expired : KeySet → ℕ → KeySet × List String
unfolding keep is_active
prune_expired ks now =
    (keep (λ k. is_active k now) ks, map (λ k. k.kid) (keep (λ k. not (is_active k now)) ks))
