-- ===== src/Storage/Denylist.antt =====
-- storage/sql.py: the statements on the denylist; middleware.py: the check of a subject.
pub mod Laws
use python_oauth2_server.Prelude.{
  is_some, filter_option, ℕ, String, Bool, Option, none, some, [], if◌then◌else◌, ◌==◌, ◌&&◌, ◌∷◌,
  ◌++◌,
}
use python_oauth2_server.Models
use python_oauth2_server.Models.{DenylistEntry}
use python_oauth2_server.Storage.{Storage, select, update, delete}

abbrev pub of_subject : String → String → DenylistEntry → Bool
of_subject kind value e = e.kind == kind && e.value == value

-- ON CONFLICT(kind, value) DO UPDATE SET: the reason, the author and the expiry.
abbrev pub upsert : DenylistEntry → DenylistEntry → DenylistEntry
upsert new old = record old {
  reason = new.reason;
  created_by = new.created_by;
  expires_at = new.expires_at;
}

unfoldable pub add_denylist_entry : Storage → DenylistEntry → Storage
add_denylist_entry s new = record s {
  denylist =
      if is_some (select (of_subject new.kind new.value) s.denylist)
      then update (of_subject new.kind new.value) (upsert new) s.denylist
      else s.denylist ++ new ∷ [];
}

unfoldable pub remove_denylist_entry : Storage → String → Storage
remove_denylist_entry s entry_id = record s { denylist = delete (λ e. e.id == entry_id) s.denylist }

-- Expired rows stay in the table and are not found.
unfoldable pub find_denylist_entry : Storage → ℕ → String → String → Option DenylistEntry
find_denylist_entry s now kind value =
    filter_option (λ e. Models.is_active e now) (select (of_subject kind value) s.denylist)

-- The reason, if the subject is denylisted. A storage error counts as no entry.
unfoldable pub check_subject_denylisted : Storage → ℕ → String → String → Option String
check_subject_denylisted s now kind value =
    if value == ""
    then none
    else elim (find_denylist_entry s now kind value) [ none ↦ none | some e ↦ some e.reason ]
