-- ===== src/Services/EventsBus.antt =====
-- services/events_bus.py: what `emit_event` is given. Its delivery is not followed.
use python_oauth2_server.Prelude.{String, Option, List}

pub record Event : Type 0 where
  pub event_type : String
  pub user_id : Option String
  pub client_id : String
  pub metadata : List (String × String)
