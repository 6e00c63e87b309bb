-- ===== src/Routes/Revoke/Laws.antt =====
-- routes/introspect.py: which tokens a revocation revokes.
use python_oauth2_server.Prelude.{
  Bool-cases, truthy, String, refl, ap, inl, inr, Bool, false, Option, none, some, List, [],
  if◌then◌else◌, ◌==◌, ◌≡◌, ◌∷◌,
}
use python_oauth2_server.Models.{Client, Token}
use python_oauth2_server.Storage
use python_oauth2_server.Storage.{
  Storage, update, in_family, names, revoke_token, revoke_token_family,
}
use python_oauth2_server.Routes.Introspect.{lookup_token}
use python_oauth2_server.Routes.Revoke.{Revoked, revoke_row, revoke_found, revoke_for}

abbrev pub by_row : String → Option String → Token → Bool
by_row value (some family) = in_family family
by_row value none = names value

-- The tokens that a client revokes by a value: those of the family of the row that it finds, or
-- those of this name if it has none; and none of a row of another client.
abbrev pub selected : Client → String → Option (Token × Bool) → Token → Bool
selected client value none = λ t. false
selected client value (some (row, via_refresh)) =
    if row.client_id == client.client_id then by_row value (truthy row.token_family) else λ t. false

update_none : (xs : List Token) → xs ≡ update (λ t. false) Storage.revoke xs
unfolding update
update_none [] = refl
update_none (x ∷ xs) = ap (λ r. x ∷ r) (update_none xs)

row_revoked :
    (storage : Storage) (value : String) (family : Option String)
    → (revoke_row storage value family).tokens
      ≡ update (by_row value family) Storage.revoke storage.tokens
unfolding revoke_token revoke_token_family
row_revoked storage value none = refl
row_revoked storage value (some f) = refl

found_revoked :
    (client : Client) (value : String) (o : Option (Token × Bool)) (r : Revoked)
    → (revoke_found client value o r).state.storage.tokens
      ≡ update (selected client value o) Storage.revoke r.state.storage.tokens
found_revoked client value none r = update_none r.state.storage.tokens
found_revoked client value (some (row, via)) r =
    elim (Bool-cases (row.client_id == client.client_id)) [
      | inl e ↦ rw e (row_revoked r.state.storage value (truthy row.token_family))
      | inr e ↦ rw e (update_none r.state.storage.tokens)
    ]

-- An authenticated client that revokes a value changes the tokens exactly so: if the value is an
-- access or a refresh token of a row of this client, the tokens of the family of that row are
-- revoked, or those of that value if it has no family; every other token stays as it is.
pub revoke_exactly :
    (client : Client) (value : String) (r : Revoked)
    → (revoke_for client (some value) r).state.storage.tokens
      ≡ update
          (selected client value (lookup_token r.state.storage value))
          Storage.revoke
          r.state.storage.tokens
unfolding revoke_for
revoke_exactly client value r = found_revoked client value (lookup_token r.state.storage value) r
