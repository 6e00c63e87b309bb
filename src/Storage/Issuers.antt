-- ===== src/Storage/Issuers.antt =====
-- storage/sql.py: the statements on trusted issuers.
use python_oauth2_server.Prelude.{is_some, String, Bool, Option, [], if◌then◌else◌, ◌==◌, ◌∷◌, ◌++◌}
use python_oauth2_server.Models.{TrustedIssuer}
use python_oauth2_server.Storage.{Storage, select, update}

-- ON CONFLICT(issuer) DO UPDATE SET: all columns but these three.
unfoldable pub upsert : TrustedIssuer → TrustedIssuer → TrustedIssuer
upsert new old = record new { id = old.id; issuer = old.issuer; created_at = old.created_at }

abbrev pub of_issuer : String → TrustedIssuer → Bool
of_issuer issuer row = row.issuer == issuer

unfoldable pub save_trusted_issuer : Storage → TrustedIssuer → Storage
unfolding upsert
save_trusted_issuer s new = record s {
  trusted_issuers =
      if is_some (select (of_issuer new.issuer) s.trusted_issuers)
      then update (of_issuer new.issuer) (upsert new) s.trusted_issuers
      else s.trusted_issuers ++ new ∷ [];
}

unfoldable pub get_trusted_issuer : Storage → String → Option TrustedIssuer
get_trusted_issuer s issuer = select (of_issuer issuer) s.trusted_issuers
