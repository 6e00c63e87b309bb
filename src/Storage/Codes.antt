-- ===== src/Storage/Codes.antt =====
-- storage/sql.py: the claims of authorization codes and device codes, in runs of operations.
use python_oauth2_server.Prelude.{
  Bool-cases, ℕ, String, refl, inl, inr, Bool, true, false, List, [], arith, ◌==◌, ◌≡◌, ◌&&◌, ◌∷◌,
  ◌++◌,
}
use python_oauth2_server.Models.{
  Client, User, TrustedIssuer, DenylistEntry, Token, AuthorizationCode, DeviceAuthorization,
}
use python_oauth2_server.Storage.{
  Storage, update, rowcount, save_token, revoke_token, revoke_token_family,
  revoke_tokens_by_user_id, revoke_tokens_by_client_id, save_authorization_code, unused_code,
  mark_authorization_code_used, save_device_authorization, approve_device_authorization,
  deny_device_authorization, unused_device, mark_device_authorization_used,
  expire_device_authorization,
}

module _ {ℓ} {A : Type ℓ} (p : A → Bool) where
  -- Rows that are changed so that the condition fails are not selected again.
  rowcount-update_self :
      (f : A → A) → ((x : A) → p (f x) ≡ false) → (xs : List A) → rowcount p (update p f xs) ≡ 0
  unfolding rowcount update
  rowcount-update_self f fails [] = refl
  rowcount-update_self f fails (x ∷ xs) =
      let ih = rowcount-update_self f fails xs in
      elim (Bool-cases (p x)) [ inl e ↦ rw e (rw (fails x) ih) | inr e ↦ rw e (rw e ih) ]

  none_selected :
      (x : A) (xs : List A) → rowcount p (x ∷ xs) ≡ 0 → (p x ≡ false) × (rowcount p xs ≡ 0)
  unfolding rowcount
  none_selected x xs h = ground arith

  -- A change that never makes the condition true leaves none selected.
  rowcount-update_other :
      (q : A → Bool) (f : A → A)
      → ((x : A) → p x ≡ false → p (f x) ≡ false)
      → (xs : List A) → rowcount p xs ≡ 0
      → rowcount p (update q f xs) ≡ 0
  unfolding rowcount update
  rowcount-update_other q f keeps [] h = refl
  rowcount-update_other q f keeps (x ∷ xs) h =
      let (e, rest) = none_selected x xs h in
      let ih = rowcount-update_other q f keeps xs rest in
      elim (Bool-cases (q x)) [ inl d ↦ rw d (rw (keeps x e) ih) | inr d ↦ rw d (rw e ih) ]

  rowcount-append :
      (xs : List A) (x : A) → p x ≡ false → rowcount p xs ≡ 0 → rowcount p (xs ++ x ∷ []) ≡ 0
  unfolding rowcount
  rowcount-append [] x e h = rw e refl
  rowcount-append (y ∷ xs) x e h =
      let (d, rest) = none_selected y xs h in rw d (rowcount-append xs x e rest)

-- One operation on the store, where no new row takes the code or the device code.
pub data Step (code device_code : String) : Storage → Storage → Type 0 where
  token_saved : (s : Storage) (t : Token) → Step code device_code s (save_token s t)
  token_revoked : (s : Storage) (t : String) → Step code device_code s (revoke_token s t)
  family_revoked : (s : Storage) (f : String) → Step code device_code s (revoke_token_family s f).0
  user_revoked :
      (s : Storage) (u : String) → Step code device_code s (revoke_tokens_by_user_id s u).0
  client_revoked :
      (s : Storage) (c : String) → Step code device_code s (revoke_tokens_by_client_id s c).0
  code_saved :
      (s : Storage) (c : AuthorizationCode)
      → (c.code == code) ≡ false
      → Step code device_code s (save_authorization_code s c)
  code_marked :
      (s : Storage) (c : String) → Step code device_code s (mark_authorization_code_used s c).0
  device_saved :
      (s : Storage) (d : DeviceAuthorization)
      → (d.device_code == device_code) ≡ false
      → Step code device_code s (save_device_authorization s d)
  device_approved :
      (s : Storage) (c u : String) → Step code device_code s (approve_device_authorization s c u)
  device_denied :
      (s : Storage) (c : String) → Step code device_code s (deny_device_authorization s c)
  device_marked :
      (s : Storage) (c : String) → Step code device_code s (mark_device_authorization_used s c).0
  device_expired :
      (s : Storage) (now : ℕ) (c : String)
      → Step code device_code s (expire_device_authorization s now c)
  -- a statement on clients, users, trusted issuers or the denylist, which may also change tokens
  others_changed :
      (s : Storage) (tokens : List Token) (clients : List Client) (users : List User)
      (trusted_issuers : List TrustedIssuer) (denylist : List DenylistEntry)
      → Step code device_code s (record s {
        tokens = tokens;
        clients = clients;
        users = users;
        trusted_issuers = trusted_issuers;
        denylist = denylist;
      })

-- Any number of operations, of any requests in any order.
pub data Reach (code device_code : String) : Storage → Storage → Type 0 where
  start : (s : Storage) → Reach code device_code s s
  next :
      (r s t : Storage)
      → Reach code device_code r s
      → Step code device_code s t
      → Reach code device_code r t

-- No row of the code is left to claim.
abbrev NoCode : String → Storage → Type 0
NoCode code s = rowcount (unused_code code) s.authorization_codes ≡ 0

abbrev NoDevice : String → Storage → Type 0
NoDevice code s = rowcount (unused_device code) s.device_authorizations ≡ 0

and_false : (a b : Bool) → b ≡ false → (a && b) ≡ false
and_false true b h = h
and_false false b h = refl

Step-NoCode :
    (code device_code : String) (s t : Storage)
    → Step code device_code s t
    → NoCode code s
    → NoCode code t
unfolding save_token revoke_token revoke_token_family revoke_tokens_by_user_id
    revoke_tokens_by_client_id save_authorization_code mark_authorization_code_used
    save_device_authorization approve_device_authorization deny_device_authorization
    mark_device_authorization_used expire_device_authorization
Step-NoCode code dc _ _ (token_saved s x) h = h
Step-NoCode code dc _ _ (token_revoked s x) h = h
Step-NoCode code dc _ _ (family_revoked s x) h = h
Step-NoCode code dc _ _ (user_revoked s x) h = h
Step-NoCode code dc _ _ (client_revoked s x) h = h
Step-NoCode code dc _ _ (code_saved s c other) h =
    rowcount-append (unused_code code) s.authorization_codes c (rw other refl) h
Step-NoCode code dc _ _ (code_marked s c) h =
    rowcount-update_other (unused_code code) (unused_code c) (λ x. record x { used = true })
      (λ x e. and_false (x.code == code) false refl) s.authorization_codes h
Step-NoCode code dc _ _ (device_saved s d other) h = h
Step-NoCode code dc _ _ (device_approved s c u) h = h
Step-NoCode code dc _ _ (device_denied s c) h = h
Step-NoCode code dc _ _ (device_marked s c) h = h
Step-NoCode code dc _ _ (device_expired s now c) h = h
Step-NoCode code dc _ _ (others_changed s ts cs us is ds) h = h

Step-NoDevice :
    (code device_code : String) (s t : Storage)
    → Step code device_code s t
    → NoDevice device_code s
    → NoDevice device_code t
unfolding save_token revoke_token revoke_token_family revoke_tokens_by_user_id
    revoke_tokens_by_client_id save_authorization_code mark_authorization_code_used
    save_device_authorization approve_device_authorization deny_device_authorization
    mark_device_authorization_used expire_device_authorization
Step-NoDevice code dc _ _ (token_saved s x) h = h
Step-NoDevice code dc _ _ (token_revoked s x) h = h
Step-NoDevice code dc _ _ (family_revoked s x) h = h
Step-NoDevice code dc _ _ (user_revoked s x) h = h
Step-NoDevice code dc _ _ (client_revoked s x) h = h
Step-NoDevice code dc _ _ (code_saved s c other) h = h
Step-NoDevice code dc _ _ (code_marked s c) h = h
Step-NoDevice code dc _ _ (device_saved s d other) h =
    rowcount-append (unused_device dc) s.device_authorizations d (rw other refl) h
Step-NoDevice code dc _ _ (device_approved s c u) h =
    rowcount-update_other (unused_device dc) _ _ (λ x e. e) s.device_authorizations h
Step-NoDevice code dc _ _ (device_denied s c) h =
    rowcount-update_other (unused_device dc) _ _ (λ x e. e) s.device_authorizations h
Step-NoDevice code dc _ _ (device_marked s c) h =
    rowcount-update_other (unused_device dc) (unused_device c) _
      (λ x e. and_false (x.device_code == dc) false refl) s.device_authorizations h
Step-NoDevice code dc _ _ (device_expired s now c) h =
    rowcount-update_other (unused_device dc) _ _ (λ x e. e) s.device_authorizations h
Step-NoDevice code dc _ _ (others_changed s ts cs us is ds) h = h

Reach-NoCode :
    (code dc : String) (s t : Storage) → Reach code dc s t → NoCode code s → NoCode code t
Reach-NoCode code dc _ _ (start s) h = h
Reach-NoCode code dc _ _ (next r s t before step) h =
    Step-NoCode code dc s t step (Reach-NoCode code dc r s before h)

Reach-NoDevice :
    (code dc : String) (s t : Storage) → Reach code dc s t → NoDevice dc s → NoDevice dc t
Reach-NoDevice code dc _ _ (start s) h = h
Reach-NoDevice code dc _ _ (next r s t before step) h =
    Step-NoDevice code dc s t step (Reach-NoDevice code dc r s before h)

-- Once an authorization code was claimed, no claim of it changes a row again, after any operations
-- on the store that save no new row with that code.
pub code_claimed_once :
    (code device_code : String) (s t : Storage)
    → Reach code device_code (mark_authorization_code_used s code).0 t
    → (mark_authorization_code_used t code).1 ≡ 0
unfolding mark_authorization_code_used
code_claimed_once code device_code s t h = Reach-NoCode code device_code _ t h (
    rowcount-update_self (unused_code code) _ (λ x. and_false (x.code == code) false refl)
      s.authorization_codes)

-- Once a device code was claimed, no claim of it changes a row again, after any operations on the
-- store that save no new row with that device code; its approval again is among them.
pub device_claimed_once :
    (code device_code : String) (s t : Storage)
    → Reach code device_code (mark_device_authorization_used s device_code).0 t
    → (mark_device_authorization_used t device_code).1 ≡ 0
unfolding mark_device_authorization_used
device_claimed_once code device_code s t h = Reach-NoDevice code device_code _ t h (
    rowcount-update_self (unused_device device_code) _
      (λ x. and_false (x.device_code == device_code) false refl) s.device_authorizations)
