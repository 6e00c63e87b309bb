-- ===== src/Services/DevicePoll/Laws.antt =====
-- services/device_poll.py: the answers to a run of polls.
use python_oauth2_server.Prelude.{
  ltb, Bool-cases, eq_iff, eq_refl, ℕ, String, refl, inl, inr, false, Option, none, some, List, [],
  arith, if◌then◌else◌, ◌==◌, ◌+◌, ◌*◌, ◌<◌, ◌≡◌, ◌∙◌, ◌∷◌,
}
use python_oauth2_server.Clock.{second}
use python_oauth2_server.Dict
use python_oauth2_server.Dict.{Dict, get-put, get-sweep, get-remove}
use python_oauth2_server.Services.DevicePoll.{
  PollState, DevicePollTracker, entry_ttl_secs, sweep_expired, paced, observe,
}

-- A poll: its instant, the code and the interval of the code's row.
abbrev pub Poll : Type 0
Poll = ℕ × String × ℕ

-- The answers that the polls of a code get, over polls of all codes.
unfoldable pub answers : String → DevicePollTracker → List Poll → List (Option ℕ)
answers code t [] = []
answers code t ((now, c, base) ∷ rest) =
    let more = answers code (observe t now c base).0 rest in
    if c == code then (observe t now c base).1 ∷ more else more

-- What the polls of one code should be told: `last` is the instant of the poll before, `interval`
-- what has to lie between.
unfoldable pub pace : String → ℕ → ℕ → List Poll → List (Option ℕ)
pace code last interval [] = []
pace code last interval ((now, c, base) ∷ rest) =
    let early = some (interval + 5) ∷ pace code now (interval + 5) rest in
    let in_time = none ∷ pace code now interval rest in
    let skipped = pace code last interval rest in
    if c == code then (if ltb now (last + interval * second) then early else in_time) else skipped

-- No poll comes a day or more after the poll of the code before it.
abbrev pub IsSteady : String → ℕ → List Poll → Type 0
IsSteady code last [] = Unit
IsSteady code last ((now, c, base) ∷ rest) =
    (now < last + entry_ttl_secs * second) × IsSteady code (if c == code then now else last) rest

module _ (code : String) where
  swept_live :
      (t : DevicePollTracker) (now : ℕ) (s : PollState)
      → Dict.get t.entries code ≡ some s
      → now < s.expiry
      → Dict.get (sweep_expired t now).entries code ≡ some s
  unfolding sweep_expired
  swept_live t now s found live = simp (get-sweep, found) (ground arith)

  observe_self :
      (t : DevicePollTracker) (now base : ℕ) (s : PollState)
      → Dict.get t.entries code ≡ some s
      → now < s.expiry
      → (Dict.get (observe t now code base).0.entries code ≡ some (paced now base (some s)).0)
        × ((observe t now code base).1 ≡ (paced now base (some s)).1)
  unfolding observe
  observe_self t now base s found live =
      rw (swept_live t now s found live) (simp (get-put, eq_refl), refl)

  observe_other :
      (t : DevicePollTracker) (now base : ℕ) (other : String) (s : PollState)
      → (other == code) ≡ false
      → Dict.get t.entries code ≡ some s
      → now < s.expiry
      → Dict.get (observe t now other base).0.entries code ≡ some s
  unfolding observe
  observe_other t now base other s h found live =
      get-put _ other code _ ∙ rw h (swept_live t now s found live)

-- The tracker tells each code its own pace, whatever other codes are polled between.
pub answers-eq-pace :
    (code : String) (polls : List Poll) (t : DevicePollTracker) (last interval : ℕ)
    → Dict.get t.entries code
      ≡ some (record {
        last_poll = last;
        interval = interval;
        expiry = last + entry_ttl_secs * second;
      })
    → IsSteady code last polls
    → answers code t polls ≡ pace code last interval polls
unfolding answers pace
answers-eq-pace code [] t last interval found steady = refl
answers-eq-pace code ((now, c, base) ∷ polls) t last interval found steady =
    elim (Bool-cases (c == code)) [
      | inl e ↦
          let same = (eq_iff c code).0 e in
          let (next, told) : (Dict.get (observe t now c base).0.entries code
                ≡ some
                    (paced now base (
                      some (record {
                        last_poll = last;
                        interval = interval;
                        expiry = last + entry_ttl_secs * second;
                      }))).0)
              × ((observe t now c base).1
                  ≡ (paced now base (
                      some (record {
                        last_poll = last;
                        interval = interval;
                        expiry = last + entry_ttl_secs * second;
                      }))).1) =
            rw same (observe_self code t now base _ found steady.0) in
          elim (Bool-cases (ltb now (last + interval * second))) [
            | inl early ↦
                let ih =
                  answers-eq-pace code polls (observe t now c base).0 now (interval + 5)
                    (next ∙ (unfold paced in rw early)) (rw e at steady.1) in
                let slowed : (observe t now c base).1 ≡ some (interval + 5) =
                  told ∙ (unfold paced in rw early) in
                rw (e, early) (λ i. slowed i ∷ ih i)
            | inr in_time ↦
                let ih =
                  answers-eq-pace code polls (observe t now c base).0 now interval
                    (next ∙ (unfold paced in rw in_time)) (rw e at steady.1) in
                let allowed : (observe t now c base).1 ≡ none =
                  told ∙ (unfold paced in rw in_time) in
                rw (e, in_time) (λ i. allowed i ∷ ih i)
          ]
      | inr e ↦ rw e (
          answers-eq-pace code polls (observe t now c base).0 last interval
            (observe_other code t now base c _ e found steady.0) (rw e at steady.1))
    ]

-- The first poll of a code passes and sets its pace; from then on, as long as no day passes
-- between two polls of it, each poll that comes before the required interval is over is told to
-- slow down by five seconds more than it had to keep, and each other poll passes.
pub answers_from_first :
    (code : String) (t : DevicePollTracker) (now base : ℕ) (polls : List Poll)
    → Dict.get t.entries code ≡ none
    → IsSteady code now polls
    → answers code t ((now, code, base) ∷ polls) ≡ none ∷ pace code now base polls
unfolding answers
answers_from_first code t now base polls absent steady =
    let gone : Dict.get (sweep_expired t now).entries code ≡ none =
      unfold sweep_expired in simp (get-sweep, absent) in
    let (next, told) : (Dict.get (observe t now code base).0.entries code
          ≡ some (paced now base none).0)
        × ((observe t now code base).1 ≡ none) =
      unfold observe in rw gone (simp (get-put, eq_refl), unfold paced in refl) in
    let rest =
      answers-eq-pace code polls (observe t now code base).0 now base
        (next ∙ (unfold paced in refl)) steady in
    rw (eq_refl code) (λ i. told i ∷ rest i)
