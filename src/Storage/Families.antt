-- ===== src/Storage/Families.antt =====
-- storage/sql.py: the tokens after a revocation.
use python_oauth2_server.Prelude.{
  Bool-cases, all, String, refl, inl, inr, Bool, true, not, List, [], ◌≡◌, ◌||◌, ◌∷◌,
}
use python_oauth2_server.Models.{Token}
use python_oauth2_server.Storage.{
  Storage, update, revoke, in_family, names, revoke_token, revoke_token_family,
}

-- Each token that the condition selects is revoked.
abbrev pub Revoked : (Token → Bool) → List Token → Type 0
Revoked p ts = all (λ t. not (p t) || t.revoked) ts ≡ true

-- The condition does not look at what a revocation changes.
abbrev Ignores : (Token → Bool) → Type 0
Ignores p = (t : Token) → p (revoke t) ≡ p t

update-Revoked : (p : Token → Bool) → Ignores p → (ts : List Token) → Revoked p (update p revoke ts)
unfolding update
update-Revoked p same [] = refl
update-Revoked p same (t ∷ ts) =
    let ih = update-Revoked p same ts in
    elim (Bool-cases (p t)) [ inl e ↦ rw e (rw (same t) (rw e ih)) | inr e ↦ rw e (rw e ih) ]

-- After the family of a token is revoked, each token of that family is revoked.
pub family-Revoked :
    (s : Storage) (family : String)
    → Revoked (in_family family) (revoke_token_family s family).0.tokens
unfolding revoke_token_family
family-Revoked s family = update-Revoked (in_family family) (λ t. refl) s.tokens

-- After a token is revoked by one of its names, each token of that name is revoked.
pub token-Revoked :
    (s : Storage) (token : String) → Revoked (names token) (revoke_token s token).tokens
unfolding revoke_token
token-Revoked s token = update-Revoked (names token) (λ t. refl) s.tokens
