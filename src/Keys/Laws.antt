-- ===== src/Keys/Laws.antt =====
-- keys.py: the current key after a rotation, and lookups after a pruning.
use python_oauth2_server.Prelude.{
  Bool-cases, eq_refl, ℕ, String, refl, ap, inl, inr, Bool, true, false, some, [], map, arith,
  if◌then◌else◌, ◌==◌, ◌+◌, ◌*◌, ◌≤◌, ◌≡◌, ◌&&◌, ◌∷◌, ◌++◌,
}
use python_oauth2_server.Clock.{second}
use python_oauth2_server.Keys.{
  SigningKey, KeySet, is_active, first, keep, serves, current_for_alg, find, retire, add, rotate,
  prune_expired,
}

retired_never_serves :
    (alg : String) (expires_at now : ℕ) (k : SigningKey)
    → serves now alg (retire alg expires_at k) ≡ false
unfolding retire is_active
retired_never_serves alg expires_at now k = ground arith

first_past_retired :
    (alg : String) (expires_at now : ℕ) (ks : KeySet) (new_key : SigningKey)
    → serves now alg new_key ≡ true
    → first (serves now alg) (map (retire alg expires_at) ks ++ new_key ∷ []) ≡ some new_key
unfolding first
first_past_retired alg expires_at now [] new_key h = rw h refl
first_past_retired alg expires_at now (k ∷ ks) new_key h =
    rw (retired_never_serves alg expires_at now k)
      (first_past_retired alg expires_at now ks new_key h)

-- After a rotation, a new key that is marked as current is the current key of its algorithm for as
-- long as it is active, whatever keys there were before.
pub rotate_current :
    (ks : KeySet) (rotated_at now grace_secs : ℕ) (new_key : SigningKey)
    → new_key.is_current ≡ true
    → is_active new_key now ≡ true
    → current_for_alg (rotate ks rotated_at new_key grace_secs) now new_key.algorithm ≡ some new_key
unfolding current_for_alg rotate add
rotate_current ks rotated_at now grace_secs new_key marked active =
    first_past_retired new_key.algorithm (rotated_at + grace_secs * second) now ks new_key
      (rw (eq_refl new_key.algorithm) (rw marked active))

active_before :
    (k : SigningKey) (now later : ℕ)
    → now ≤ later
    → is_active k now ≡ false
    → is_active k later ≡ false
unfolding is_active
active_before k now later h e = ground arith

-- A key that fails a first test fails the second: leaving it out changes no search by the second.
first-keep :
    (p q : SigningKey → Bool)
    → ((k : SigningKey) → p k ≡ false → q k ≡ false)
    → (ks : KeySet) → first q (keep p ks) ≡ first q ks
unfolding first keep
first-keep p q fails [] = refl
first-keep p q fails (k ∷ ks) =
    let ih = first-keep p q fails ks in
    elim (Bool-cases (p k)) [
      | inl e ↦ rw e (ap (λ r. if q k then some k else r) ih)
      | inr e ↦ rw e (rw (fails k e) ih)
    ]

-- From the instant of a pruning on, every lookup by `kid` and every choice of a current key gives
-- what it gave without the pruning.
pub prune_invisible :
    (ks : KeySet) (pruned_at now : ℕ) (kid alg : String)
    → pruned_at ≤ now
    → (find (prune_expired ks pruned_at).0 now kid ≡ find ks now kid)
      × (current_for_alg (prune_expired ks pruned_at).0 now alg ≡ current_for_alg ks now alg)
unfolding find current_for_alg prune_expired
prune_invisible ks pruned_at now kid alg h = (
  first-keep (λ k. is_active k pruned_at) (λ k. k.kid == kid && is_active k now)
      (λ k e. let gone = active_before k pruned_at now h e in ground arith) ks,
  first-keep (λ k. is_active k pruned_at) (serves now alg)
      (λ k e. let gone = active_before k pruned_at now h e in ground arith) ks,
)
