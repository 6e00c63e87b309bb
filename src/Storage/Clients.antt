-- ===== src/Storage/Clients.antt =====
-- storage/sql.py: the statements on clients.
use python_oauth2_server.Prelude.{String, Bool, Option, [], ◌==◌, ◌∷◌, ◌++◌}
use python_oauth2_server.Models.{Client}
use python_oauth2_server.Storage.{Storage, select, update, delete}

unfoldable pub save_client : Storage → Client → Storage
save_client s c = record s { clients = s.clients ++ c ∷ [] }

unfoldable pub get_client : Storage → String → Option Client
get_client s client_id = select (λ c. c.client_id == client_id) s.clients

-- The columns of `_CLIENT_UPDATE_COLS`: all but these four.
unfoldable pub update_columns : Client → Client → Client
update_columns new old = record new {
  id = old.id;
  client_id = old.client_id;
  created_at = old.created_at;
  require_state = old.require_state;
}

unfoldable pub update_client : Storage → Client → Storage
unfolding update_columns
update_client s client = record s {
  clients = update (λ c. c.client_id == client.client_id) (update_columns client) s.clients;
}

unfoldable pub delete_client : Storage → String → Storage
delete_client s client_id = record s { clients = delete (λ c. c.client_id == client_id) s.clients }

unfoldable pub set_client_enabled : Storage → String → Bool → Storage
set_client_enabled s client_id enabled = record s {
  clients = update (λ c. c.client_id == client_id) (λ c. record c { enabled = enabled }) s.clients;
}

unfoldable pub set_client_secret : Storage → String → String → Storage
set_client_secret s client_id client_secret = record s {
  clients =
      update (λ c. c.client_id == client_id) (λ c. record c { client_secret = client_secret })
        s.clients;
}
