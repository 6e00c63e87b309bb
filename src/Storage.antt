-- ===== src/Storage.antt =====
-- storage/sql.py: the tables of the token endpoint, as lists of rows, and their statements.
-- An UPDATE changes each row that its WHERE selects; `first()` is the first row.
pub mod Rows
pub mod Clients
pub mod Users
pub mod Issuers
pub mod Denylist
pub mod Codes
pub mod Families
use python_oauth2_server.Prelude.{
  same_text, ℕ, suc, String, Bool, true, false, not, Option, none, some, List, [], if◌then◌else◌,
  ◌==◌, ◌-◌, ◌&&◌, ◌||◌, ◌∷◌, ◌++◌,
}
use python_oauth2_server.Clock.{second}
use python_oauth2_server.Models.{
  Client, User, TrustedIssuer, DenylistEntry, Token, AuthorizationCode, DeviceAuthorization,
}

pub record Storage : Type 0 where
  pub tokens : List Token
  pub authorization_codes : List AuthorizationCode
  pub device_authorizations : List DeviceAuthorization
  pub clients : List Client
  pub users : List User
  pub trusted_issuers : List TrustedIssuer
  pub denylist : List DenylistEntry

module _ {ℓ} {A : Type ℓ} where
  -- SELECT … WHERE: the first row.
  unfoldable pub select : (A → Bool) → List A → Option A
  select p [] = none
  select p (x ∷ xs) = if p x then some x else select p xs

  -- UPDATE … SET … WHERE.
  unfoldable pub update : (A → Bool) → (A → A) → List A → List A
  update p f [] = []
  update p f (x ∷ xs) = (if p x then f x else x) ∷ update p f xs

  -- SELECT … WHERE: all rows.
  unfoldable pub select_all : (A → Bool) → List A → List A
  select_all p [] = []
  select_all p (x ∷ xs) = let rest = select_all p xs in if p x then x ∷ rest else rest

  -- DELETE … WHERE.
  unfoldable pub delete : (A → Bool) → List A → List A
  delete p [] = []
  delete p (x ∷ xs) = let rest = delete p xs in if p x then rest else x ∷ rest

  -- `result.rowcount`
  unfoldable pub rowcount : (A → Bool) → List A → ℕ
  rowcount p [] = 0
  rowcount p (x ∷ xs) = let n = rowcount p xs in if p x then suc n else n

abbrev pub revoke : Token → Token
revoke t = record t { revoked = true }

unfoldable pub save_token : Storage → Token → Storage
save_token s t = record s { tokens = s.tokens ++ t ∷ [] }

unfoldable pub get_token_by_access_token : Storage → String → Option Token
get_token_by_access_token s access_token = select (λ t. t.access_token == access_token) s.tokens

unfoldable pub get_token_by_refresh_token : Storage → String → Option Token
get_token_by_refresh_token s refresh_token =
    select (λ t. same_text t.refresh_token (some refresh_token)) s.tokens

unfoldable pub get_token_by_id : Storage → String → Option Token
get_token_by_id s token_id = select (λ t. t.id == token_id) s.tokens

-- WHERE access_token = :t OR refresh_token = :t
abbrev pub names : String → Token → Bool
names token t = t.access_token == token || same_text t.refresh_token (some token)

unfoldable pub revoke_token : Storage → String → Storage
revoke_token s token = record s { tokens = update (names token) revoke s.tokens }

abbrev pub in_family : String → Token → Bool
in_family family t = same_text t.token_family (some family)

unfoldable pub revoke_token_family : Storage → String → Storage × ℕ
revoke_token_family s family = (
  record s { tokens = update (in_family family) revoke s.tokens },
  rowcount (in_family family) s.tokens,
)

abbrev of_user : String → Token → Bool
of_user user_id t = same_text t.user_id (some user_id) && not t.revoked

unfoldable pub revoke_tokens_by_user_id : Storage → String → Storage × ℕ
revoke_tokens_by_user_id s user_id = (
  record s { tokens = update (of_user user_id) revoke s.tokens },
  rowcount (of_user user_id) s.tokens,
)

abbrev of_client : String → Token → Bool
of_client client_id t = t.client_id == client_id && not t.revoked

unfoldable pub revoke_tokens_by_client_id : Storage → String → Storage × ℕ
revoke_tokens_by_client_id s client_id = (
  record s { tokens = update (of_client client_id) revoke s.tokens },
  rowcount (of_client client_id) s.tokens,
)

unfoldable pub save_authorization_code : Storage → AuthorizationCode → Storage
save_authorization_code s c = record s { authorization_codes = s.authorization_codes ++ c ∷ [] }

unfoldable pub get_authorization_code : Storage → String → Option AuthorizationCode
get_authorization_code s code = select (λ c. c.code == code) s.authorization_codes

unfoldable pub get_authorization_code_by_token_family : Storage → String → Option AuthorizationCode
get_authorization_code_by_token_family s family =
    select (λ c. same_text c.token_family (some family)) s.authorization_codes

-- WHERE code = :c AND used = false
abbrev pub unused_code : String → AuthorizationCode → Bool
unused_code code c = c.code == code && not c.used

unfoldable pub mark_authorization_code_used : Storage → String → Storage × ℕ
mark_authorization_code_used s code = (
  record s {
    authorization_codes =
        update (unused_code code) (λ c. record c { used = true }) s.authorization_codes;
  },
  rowcount (unused_code code) s.authorization_codes,
)

unfoldable pub save_device_authorization : Storage → DeviceAuthorization → Storage
save_device_authorization s d = record s {
  device_authorizations = s.device_authorizations ++ d ∷ [];
}

unfoldable pub get_device_authorization_by_device_code :
    Storage → String → Option DeviceAuthorization
get_device_authorization_by_device_code s device_code =
    select (λ d. d.device_code == device_code) s.device_authorizations

unfoldable pub get_device_authorization_by_user_code : Storage → String → Option DeviceAuthorization
get_device_authorization_by_user_code s user_code =
    select (λ d. d.user_code == user_code) s.device_authorizations

unfoldable pub approve_device_authorization : Storage → String → String → Storage
approve_device_authorization s user_code user_id = record s {
  device_authorizations =
      update (λ d. d.user_code == user_code)
        (λ d. record d { approved = true; denied = false; user_id = some user_id })
        s.device_authorizations;
}

unfoldable pub deny_device_authorization : Storage → String → Storage
deny_device_authorization s user_code = record s {
  device_authorizations =
      update (λ d. d.user_code == user_code) (λ d. record d { denied = true; approved = false })
        s.device_authorizations;
}

-- WHERE device_code = :dc AND used = false
abbrev pub unused_device : String → DeviceAuthorization → Bool
unused_device device_code d = d.device_code == device_code && not d.used

unfoldable pub mark_device_authorization_used : Storage → String → Storage × ℕ
mark_device_authorization_used s device_code = (
  record s {
    device_authorizations =
        update (unused_device device_code) (λ d. record d { used = true }) s.device_authorizations;
  },
  rowcount (unused_device device_code) s.device_authorizations,
)

unfoldable pub expire_device_authorization : Storage → ℕ → String → Storage
expire_device_authorization s now device_code = record s {
  device_authorizations =
      update (λ d. d.device_code == device_code) (λ d. record d { expires_at = now - second })
        s.device_authorizations;
}
