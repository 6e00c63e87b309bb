-- ===== src/Services/JwtBearer/Subject.antt =====
-- services/jwt_bearer_grant.py: the local user of the subject of an assertion.
use python_oauth2_server.Prelude.{
  is_some, truthy, ℕ, String, Bool, true, false, not, Option, none, some, List, [], Result, ok, err,
  guard, require, if◌then◌else◌, ◌==◌, ◌||◌, ◌∷◌, ◌>>◌,
}
use python_oauth2_server.Json.{Fields, Value, bool, get_field, as_str}
use python_oauth2_server.Errors.{Raised}
use python_oauth2_server.Models.{User, TrustedIssuer}
use python_oauth2_server.Storage.{Storage}
use python_oauth2_server.Storage.Users.{
  save_user, get_user_by_username, get_user_by_id, get_users_by_email,
}
use python_oauth2_server.Storage.Denylist.{check_subject_denylisted}
use python_oauth2_server.Strings.{strip}
use python_oauth2_server.Services.JwtBearer.{Library, grant_error}

-- `value is True`
abbrev pub is_true : Option Value → Bool
is_true (some (bool b)) = b
is_true _ = false

-- `_reject_if_denylisted`
unfoldable pub reject_if_denylisted : Storage → ℕ → String → String → Result Raised (Unit {0})
unfolding check_subject_denylisted
reject_if_denylisted storage now username email = do
  guard (not (is_some (check_subject_denylisted storage now "username" username)))
      (grant_error "subject is blocked")
  guard (not (is_some (check_subject_denylisted storage now "email" email)))
      (grant_error "subject is blocked")

-- The one user of a verified address; more than one is refused.
abbrev pub single : List User → Result Raised (Option User)
single [] = ok none
single (u ∷ []) = ok (some u)
single (u ∷ v ∷ us) = err (grant_error "assertion email matches more than one local account")

abbrev pub folds_to : Library → String → User → Bool
folds_to lib folded u = lib.casefold (strip u.email) == folded

unfoldable pub keep_if : (User → Bool) → List User → List User
keep_if p [] = []
keep_if p (u ∷ us) = let rest = keep_if p us in if p u then u ∷ rest else rest

-- The existing user, by the mapping of the issuer.
unfoldable pub find_subject :
    Library → Storage → TrustedIssuer → String → String → Bool → Result Raised (Option User)
unfolding get_users_by_email get_user_by_id keep_if strip
find_subject lib storage trusted sub email verified =
    if trusted.subject_mapping == "email"
    then (do
      guard (not (email == ""))
          (grant_error "trusted issuer maps subjects by email but the assertion has no email claim")
      guard verified (grant_error "assertion email is not verified (email_verified must be true)")
      single (
          keep_if (folds_to lib (lib.casefold email))
            (get_users_by_email lib.lower_trim storage (lib.lower (strip email)))))
    else ok (get_user_by_id storage sub)

abbrev pub new_user : String → String → ℕ → String → User
new_user password_hash email now sub = record {
  id = sub;
  username = sub;
  password_hash = password_hash;
  email = email;
  enabled = true;
  role = "user";
  created_at = now;
  updated_at = now;
}

-- The INSERT fails on a row with the same primary key or the same unique name.
abbrev pub insert_user : Storage → User → Option Storage
insert_user storage user =
    if is_some (get_user_by_id storage user.id)
      || is_some (get_user_by_username storage user.username)
    then none
    else some (save_user storage user)

abbrev pub raced : Storage → ℕ → Option User → Result Raised String
raced storage now none =
    err (grant_error "could not provision a local user for the assertion subject")
raced storage now (some user) = do
  guard user.enabled (grant_error "subject user is disabled")
  reject_if_denylisted storage now user.username user.email
  ok user.id

abbrev pub provisioned : Storage → ℕ → User → Option Storage → Storage × Result Raised String
provisioned storage now user (some after) = (after, ok user.id)
provisioned storage now user none = (storage, raced storage now (get_user_by_id storage user.id))

-- The checks before a user is provisioned.
unfoldable pub check_provision :
    Storage → ℕ → TrustedIssuer → String → String → Result Raised (Unit {0})
unfolding reject_if_denylisted
check_provision storage now trusted sub email = do
  guard (not (trusted.subject_mapping == "email")) (grant_error "unknown subject")
  guard trusted.jit_provision
      (grant_error "assertion subject has no local user and the issuer does not allow provisioning")
  reject_if_denylisted storage now sub email

abbrev pub provision :
    Storage → ℕ → User → Result Raised (Unit {0}) → Storage × Result Raised String
provision storage now user (err e) = (storage, err e)
provision storage now user (ok u) = provisioned storage now user (insert_user storage user)

abbrev pub resolved :
    String
    → Storage
    → ℕ
    → TrustedIssuer
    → String
    → String
    → Result Raised (Option User)
    → Storage × Result Raised String
resolved hash storage now trusted sub email (err e) = (storage, err e)
resolved hash storage now trusted sub email (ok (some user)) = (
  storage,
  do
    guard user.enabled (grant_error "subject user is disabled")
    reject_if_denylisted storage now user.username user.email
    ok user.id,
)
resolved hash storage now trusted sub email (ok none) =
    provision storage now (new_user hash email now sub)
      (check_provision storage now trusted sub email)

abbrev pub subject_of : Fields → Result Raised String
subject_of claims =
    require (truthy (as_str (get_field "sub" claims)))
      (grant_error "assertion sub claim is not a string")

abbrev pub stripped : Option String → String
stripped none = ""
stripped (some s) = strip s

abbrev pub resolve_sub :
    Library
    → String
    → ℕ
    → Storage
    → TrustedIssuer
    → Fields
    → Result Raised String
    → Storage × Result Raised String
resolve_sub lib hash now storage trusted claims (err e) = (storage, err e)
resolve_sub lib hash now storage trusted claims (ok sub) =
    let email = stripped (as_str (get_field "email" claims)) in
    let verified = is_true (get_field "email_verified" claims) in
    resolved hash storage now trusted sub (if verified then email else "")
      (find_subject lib storage trusted sub email verified)

-- `_resolve_subject`; `hash` is the hash of the password that is drawn and discarded.
unfoldable pub resolve_subject :
    Library → String → ℕ → Storage → TrustedIssuer → Fields → Storage × Result Raised String
unfolding strip find_subject check_provision reject_if_denylisted save_user get_user_by_id
    get_user_by_username
resolve_subject lib hash now storage trusted claims =
    resolve_sub lib hash now storage trusted claims (subject_of claims)
