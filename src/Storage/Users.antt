-- ===== src/Storage/Users.antt =====
-- storage/sql.py: the statements on users. The text functions of the database are a parameter.
use python_oauth2_server.Prelude.{
  same_text, String, Bool, true, Option, none, some, List, [], ◌==◌, ◌∷◌, ◌++◌,
}
use python_oauth2_server.Models.{User}
use python_oauth2_server.Storage.{Storage, select, select_all, update, delete}

unfoldable pub save_user : Storage → User → Storage
save_user s u = record s { users = s.users ++ u ∷ [] }

unfoldable pub get_user_by_username : Storage → String → Option User
get_user_by_username s username = select (λ u. u.username == username) s.users

unfoldable pub get_user_by_id : Storage → String → Option User
get_user_by_id s user_id = select (λ u. u.id == user_id) s.users

-- `folded` is `email.strip().lower()`, and `lower_trim` the `lower(trim(…))` of the database.
unfoldable pub get_users_by_email : (String → String) → Storage → String → List User
get_users_by_email lower_trim s folded = select_all (λ u. lower_trim u.email == folded) s.users

-- The columns of `_USER_UPDATE_COLS`.
unfoldable pub update_columns : User → User → User
update_columns new old = record new { id = old.id; created_at = old.created_at }

unfoldable pub update_user : Storage → User → Storage
unfolding update_columns
update_user s user = record s {
  users = update (λ u. u.id == user.id) (update_columns user) s.users;
}

-- The tokens of the user are revoked and lose their user, and the row goes.
unfoldable pub delete_user : Storage → String → Storage
delete_user s user_id = record s {
  tokens =
      update (λ t. same_text t.user_id (some user_id))
        (λ t. record t { revoked = true; user_id = none }) s.tokens;
  users = delete (λ u. u.id == user_id) s.users;
}

unfoldable pub set_user_enabled : Storage → String → Bool → Storage
set_user_enabled s user_id enabled = record s {
  users = update (λ u. u.id == user_id) (λ u. record u { enabled = enabled }) s.users;
}

unfoldable pub set_user_role : Storage → String → String → Storage
set_user_role s user_id role = record s {
  users = update (λ u. u.id == user_id) (λ u. record u { role = role }) s.users;
}

unfoldable pub set_user_password_hash : Storage → String → String → Storage
set_user_password_hash s user_id password_hash = record s {
  users = update (λ u. u.id == user_id) (λ u. record u { password_hash = password_hash }) s.users;
}
