-- ===== src/Services/Par.antt =====
-- services/par.py: pushed authorization requests.
pub mod Laws
use Prim.Native.String.{◌++◌ as append}
use python_oauth2_server.Prelude.{leb, ℕ, String, Bool, Option, ◌+◌, ◌*◌}
use python_oauth2_server.Clock.{second}
use python_oauth2_server.Dict
use python_oauth2_server.Dict.{Dict}

abbrev pub par_ttl_secs : ℕ
par_ttl_secs = 60

pub record ParEntry : Type 0 where
  pub client_id : String
  pub params : Dict String
  pub created_at : ℕ

pub record ParStore : Type 0 where
  pub entries : Dict ParEntry

-- `now - entry.created_at >= PAR_TTL_SECS`
unfoldable pub expired : ℕ → ParEntry → Bool
expired now e = leb (e.created_at + par_ttl_secs * second) now

unfoldable pub sweep_expired : ParStore → ℕ → ParStore
unfolding expired
sweep_expired s now = record { entries = Dict.sweep (expired now) s.entries }

-- `uuid` is the text of the `uuid.uuid4()` that is drawn.
unfoldable pub request_uri_of : String → String
request_uri_of uuid = append "urn:ietf:params:oauth:request-uri:" uuid

unfoldable pub store : ParStore → ℕ → String → String → Dict String → ParStore × String
store s now uuid client_id params =
    let swept = sweep_expired s now in
    (
      record {
        entries =
            Dict.put swept.entries (request_uri_of uuid)
              (record { client_id = client_id; params = params; created_at = now });
      },
      request_uri_of uuid,
    )

unfoldable pub take : ParStore → ℕ → String → ParStore × Option ParEntry
take s now request_uri =
    let swept = sweep_expired s now in
    (record { entries = Dict.remove swept.entries request_uri }, Dict.get swept.entries request_uri)
