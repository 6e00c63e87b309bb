-- ===== src/Storage/Denylist/Laws.antt =====
-- storage/sql.py, middleware.py: what is denylisted after an entry is added.
use python_oauth2_server.Prelude.{
  Bool-cases, Option-cases, eq_iff, eq_refl, ℕ, String, refl, sym, inl, inr, true, false, none,
  some, arith, Option-cases, both, if◌then◌else◌, ◌==◌, ◌≡◌,
}
use python_oauth2_server.Models
use python_oauth2_server.Models.{DenylistEntry}
use python_oauth2_server.Storage.{Storage, select}
use python_oauth2_server.Storage.Rows.{
  select-update, select-append, select-update_other, select-append_other,
}
use python_oauth2_server.Storage.Denylist.{
  of_subject, upsert, add_denylist_entry, find_denylist_entry, check_subject_denylisted,
}

same_subject :
    (kind value : String) (e : DenylistEntry)
    → of_subject kind value e ≡ true
    → (e.kind ≡ kind) × (e.value ≡ value)
same_subject kind value e h =
    let (k, v) = both (e.kind == kind) (e.value == value) h in ((eq_iff _ _).0 k, (eq_iff _ _).0 v)

self_subject : (new : DenylistEntry) → of_subject new.kind new.value new ≡ true
self_subject new = rw (eq_refl new.kind) (rw (eq_refl new.value) refl)

-- The row of the subject of a new entry is the new entry, but for its identifier.
find-add_self :
    (s : Storage) (new : DenylistEntry) (now : ℕ)
    → check_subject_denylisted (add_denylist_entry s new) now new.kind new.value ≡ (
        if new.value == ""
        then none
        else if Models.is_active new now
        then some new.reason
        else none)
unfolding check_subject_denylisted find_denylist_entry add_denylist_entry Models.is_active
find-add_self s new now = elim (Option-cases (select (of_subject new.kind new.value) s.denylist)) [
  | inl e ↦
      rw (e, select-append (of_subject new.kind new.value) s.denylist new e (self_subject new))
        (ground arith)
  | inr (old, e) ↦
      rw
        (e, select-update (of_subject new.kind new.value) (upsert new) (λ x. refl) s.denylist old e)
        (ground arith)
]

disjoint :
    (new : DenylistEntry) (kind value : String)
    → of_subject kind value new ≡ false
    → (x : DenylistEntry) → of_subject new.kind new.value x ≡ true
    → of_subject kind value x ≡ false
disjoint new kind value other x h =
    let (k, v) = same_subject new.kind new.value x h in rw (k, v) other

find-add_other :
    (s : Storage) (new : DenylistEntry) (now : ℕ) (kind value : String)
    → of_subject kind value new ≡ false
    → check_subject_denylisted (add_denylist_entry s new) now kind value
      ≡ check_subject_denylisted s now kind value
unfolding check_subject_denylisted find_denylist_entry add_denylist_entry
find-add_other s new now kind value other =
    elim (Option-cases (select (of_subject new.kind new.value) s.denylist)) [
      | inl e ↦ rw (e, select-append_other (of_subject kind value) s.denylist new other) refl
      | inr (old, e) ↦
          rw
            (
              e,
              select-update_other (of_subject kind value) (of_subject new.kind new.value)
                  (upsert new) (disjoint new kind value other) (disjoint new kind value other)
                  s.denylist,
            )
            refl
    ]

-- After an entry is added, its subject is denylisted with its reason exactly while the entry is
-- active, whatever entry the subject had before, and every other subject is as it was. The empty
-- value is never denylisted.
pub check-add :
    (s : Storage) (new : DenylistEntry) (now : ℕ) (kind value : String)
    → check_subject_denylisted (add_denylist_entry s new) now kind value ≡ (
        if of_subject kind value new
        then if value == ""
          then none
          else if Models.is_active new now
          then some new.reason
          else none
        else check_subject_denylisted s now kind value)
check-add s new now kind value = elim (Bool-cases (of_subject kind value new)) [
  | inl e ↦
      let (k, v) = same_subject kind value new e in
      rw (sym k) (rw (sym v) (rw (self_subject new) (find-add_self s new now)))
  | inr e ↦ rw e (find-add_other s new now kind value e)
]
