-- ===== src/Services/ClientAssertion/Replay.antt =====
-- services/client_assertion.py: runs of the replay guard.
use python_oauth2_server.Prelude.{
  leb, is_some, Bool-cases, All, eq_iff, eq_refl, ℕ, min, String, inl, inr, none, some, List, [],
  arith, ◌+◌, ◌*◌, ◌≤◌, ◌<◌, ◌≡◌, ◌∙◌, ◌≢◌, ◌∷◌,
}
use python_oauth2_server.Clock.{second}
use python_oauth2_server.Dict
use python_oauth2_server.Dict.{Dict, get-put, size-put}
use python_oauth2_server.Services.Expiry.{get-sweep_live, get-sweep_over, size-sweep-le, sweep}
use python_oauth2_server.Services.ClientAssertion.{
  JtiReplayGuard, fresh, seen, sweep_expired, key_of, observe, max_jti_ttl_secs,
}

-- What is observed: the instant, the client, the identifier and the lifetime left.
abbrev pub Observation : Type 0
Observation = ℕ × String × String × ℕ

unfoldable pub run : JtiReplayGuard → List Observation → JtiReplayGuard
run g [] = g
run g ((now, client_id, jti, ttl) ∷ rest) = run (observe g now client_id jti ttl).0 rest

-- A guard that holds no more entries than its limit holds no more after any assertion.
pub observe-size-le :
    (g : JtiReplayGuard) (now : ℕ) (client_id jti : String) (ttl : ℕ)
    → Dict.size g.entries ≤ g.max_entries
    → Dict.size (observe g now client_id jti ttl).0.entries ≤ g.max_entries
unfolding observe sweep_expired
observe-size-le g now client_id jti ttl fits =
    let swept_le = size-sweep-le now g.entries in
    elim (Bool-cases (is_some (Dict.get (sweep_expired g now).entries (key_of client_id jti)))) [
      | inl e ↦ rw e (omega arith)
      | inr e ↦ elim (Bool-cases (leb g.max_entries (Dict.size (sweep_expired g now).entries))) [
        | inl e2 ↦ rw (e, e2) (omega arith)
        | inr e2 ↦ rw (e, e2) (rw size-put (ground arith))
      ]
    ]

module _ (key : String) (expiry : ℕ) where
  observe_live :
      (g : JtiReplayGuard) (now : ℕ) (client_id jti : String) (ttl : ℕ)
      → Dict.get g.entries key ≡ some expiry
      → now < expiry
      → Dict.get (observe g now client_id jti ttl).0.entries key ≡ some expiry
  unfolding observe sweep_expired
  observe_live g now client_id jti ttl found live =
      let kept = get-sweep_live now g.entries key expiry found live in
      elim (Bool-cases (is_some (Dict.get (sweep_expired g now).entries (key_of client_id jti)))) [
        | inl e ↦ rw e kept
        | inr e ↦ elim (Bool-cases (leb g.max_entries (Dict.size (sweep_expired g now).entries))) [
          | inl e2 ↦ rw (e, e2) kept
          | inr e2 ↦
              rw (e, e2)
                (get-put _ (key_of client_id jti) key _
                  ∙ ground (arith, kept, eq_iff (key_of client_id jti) key))
        ]
      ]

  run_live :
      (g : JtiReplayGuard) (obs : List Observation)
      → Dict.get g.entries key ≡ some expiry
      → All (λ o. o.0 < expiry) obs
      → Dict.get (run g obs).entries key ≡ some expiry
  unfolding run
  run_live g [] found h = found
  run_live g ((now, client_id, jti, ttl) ∷ obs) found h =
      run_live (observe g now client_id jti ttl).0 obs
        (observe_live g now client_id jti ttl found h.0) h.1

-- What `fresh` stores.
observe_fresh :
    (g : JtiReplayGuard) (now : ℕ) (client_id jti : String) (ttl : ℕ)
    → (observe g now client_id jti ttl).1 ≡ fresh
    → Dict.get (observe g now client_id jti ttl).0.entries (key_of client_id jti)
      ≡ some (now + min ttl (max_jti_ttl_secs * second))
unfolding observe
observe_fresh g now client_id jti ttl h =
    elim (Bool-cases (is_some (Dict.get (sweep_expired g now).entries (key_of client_id jti)))) [
      | inl e ↦ absurd (cc (rw e at h))
      | inr e ↦
          elim (Bool-cases
            (leb (sweep_expired g now).max_entries (Dict.size (sweep_expired g now).entries))) [
              | inl e2 ↦ absurd (cc (rw (e, e2) at h))
              | inr e2 ↦ rw (e, e2) (get-put _ _ _ _ ∙ rw (eq_refl (key_of client_id jti)))
            ]
    ]

observe_seen :
    (g : JtiReplayGuard) (now expiry : ℕ) (client_id jti : String) (ttl : ℕ)
    → Dict.get g.entries (key_of client_id jti) ≡ some expiry
    → now < expiry
    → (observe g now client_id jti ttl).1 ≡ seen
unfolding observe sweep_expired
observe_seen g now expiry client_id jti ttl found live =
    rw (get-sweep_live now g.entries (key_of client_id jti) expiry found live)

-- An assertion that was accepted is refused until its lifetime, or 300 seconds, are over,
-- whatever is observed between in that time and however full the guard gets.
pub replay_seen :
    (g : JtiReplayGuard) (accepted_at now : ℕ) (client_id jti : String) (ttl ttl' : ℕ)
    (obs : List Observation)
    → (observe g accepted_at client_id jti ttl).1 ≡ fresh
    → All (λ o. o.0 < accepted_at + min ttl (max_jti_ttl_secs * second)) obs
    → now < accepted_at + min ttl (max_jti_ttl_secs * second)
    → (observe (run (observe g accepted_at client_id jti ttl).0 obs) now client_id jti ttl').1
      ≡ seen
replay_seen g accepted_at now client_id jti ttl ttl' obs accepted h live =
    observe_seen _ now _ client_id jti ttl'
      (run_live (key_of client_id jti) _ _ obs
        (observe_fresh g accepted_at client_id jti ttl accepted) h)
      live

observe_absent :
    (g : JtiReplayGuard) (now : ℕ) (client_id jti : String) (ttl : ℕ)
    → Dict.get (sweep now g.entries) (key_of client_id jti) ≡ none
    → (observe g now client_id jti ttl).1 ≢ seen
unfolding observe sweep_expired
observe_absent g now client_id jti ttl gone = rw gone (λ h. ground arith)

-- From 300 seconds after its acceptance on, with nothing observed between, an assertion is no
-- longer recognised, whatever its lifetime was.
pub replay_after_ttl :
    (g : JtiReplayGuard) (accepted_at now : ℕ) (client_id jti : String) (ttl ttl' : ℕ)
    → (observe g accepted_at client_id jti ttl).1 ≡ fresh
    → accepted_at + max_jti_ttl_secs * second ≤ now
    → (observe (observe g accepted_at client_id jti ttl).0 now client_id jti ttl').1 ≢ seen
replay_after_ttl g accepted_at now client_id jti ttl ttl' accepted late =
    let stored = observe_fresh g accepted_at client_id jti ttl accepted in
    let gone =
      get-sweep_over now (observe g accepted_at client_id jti ttl).0.entries (key_of client_id jti)
        _ stored (omega arith) in
    observe_absent (observe g accepted_at client_id jti ttl).0 now client_id jti ttl' gone
