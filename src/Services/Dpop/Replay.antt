-- ===== src/Services/Dpop/Replay.antt =====
-- services/dpop.py: runs of the replay store.
use python_oauth2_server.Prelude.{
  is_some, Bool-cases, All, eq_iff, eq_refl, ℕ, String, inl, inr, none, some, List, [], arith, ◌+◌,
  ◌*◌, ◌<◌, ◌≡◌, ◌∙◌, ◌∷◌,
}
use python_oauth2_server.Clock.{second}
use python_oauth2_server.Dict
use python_oauth2_server.Dict.{Dict, get-put}
use python_oauth2_server.Services.Expiry.{get-sweep_live}
use python_oauth2_server.Services.Dpop.{
  DpopReplayStore, sweep_expired, check_and_insert, replayed, replay_ttl_secs,
}

unfoldable pub run : DpopReplayStore → List (ℕ × String) → DpopReplayStore
run r [] = r
run r ((now, jti) ∷ rest) = run (check_and_insert r now jti).0 rest

module _ (jti : String) (expiry : ℕ) where
  check_live :
      (r : DpopReplayStore) (now : ℕ) (other : String)
      → Dict.get r.entries jti ≡ some expiry
      → now < expiry
      → (Dict.get (check_and_insert r now other).0.entries jti ≡ some expiry)
        × ((check_and_insert r now jti).1 ≡ some replayed)
  unfolding check_and_insert sweep_expired
  check_live r now other found live =
      let kept = get-sweep_live now r.entries jti expiry found live in
      (
        elim (Bool-cases (is_some (Dict.get (sweep_expired r now).entries other))) [
          | inl seen ↦ rw seen kept
          | inr new ↦ rw new (get-put _ other jti _ ∙ ground (arith, kept, eq_iff other jti))
        ],
        rw kept,
      )

  run_live :
      (r : DpopReplayStore) (evs : List (ℕ × String))
      → Dict.get r.entries jti ≡ some expiry
      → All (λ e. e.0 < expiry) evs
      → Dict.get (run r evs).entries jti ≡ some expiry
  unfolding run
  run_live r [] found h = found
  run_live r ((now, other) ∷ evs) found h =
      run_live (check_and_insert r now other).0 evs (check_live r now other found h.0).0 h.1

-- An accepted identifier is refused for the 660 seconds after, whatever is checked between in
-- that time.
pub replay_refused :
    (r : DpopReplayStore) (accepted_at now : ℕ) (jti : String) (evs : List (ℕ × String))
    → (check_and_insert r accepted_at jti).1 ≡ none
    → All (λ e. e.0 < accepted_at + replay_ttl_secs * second) evs
    → now < accepted_at + replay_ttl_secs * second
    → (check_and_insert (run (check_and_insert r accepted_at jti).0 evs) now jti).1 ≡ some replayed
replay_refused r accepted_at now jti evs accepted h live =
    let stored : Dict.get (check_and_insert r accepted_at jti).0.entries jti
        ≡ some (accepted_at + replay_ttl_secs * second) =
      unfold check_and_insert in
      elim (Bool-cases (is_some (Dict.get (sweep_expired r accepted_at).entries jti))) [
        | inl seen ↦ absurd (cc (rw seen at accepted))
        | inr new ↦ rw new (get-put _ jti jti _ ∙ rw (eq_refl jti))
      ] in
    (check_live jti _ (run (check_and_insert r accepted_at jti).0 evs) now jti
      (run_live jti _ _ evs stored h) live).1
