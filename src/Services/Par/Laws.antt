-- ===== src/Services/Par/Laws.antt =====
-- services/par.py: runs of the store of pushed requests.
use python_oauth2_server.Prelude.{
  ltb, ltb→lt, Bool-cases, All, eq_refl, ℕ, String, inl, inr, Bool, false, none, some, List, [],
  arith, if◌then◌else◌, ◌==◌, ◌+◌, ◌*◌, ◌≤◌, ◌<◌, ◌≡◌, ◌∙◌, ◌∷◌,
}
use python_oauth2_server.Clock.{second}
use python_oauth2_server.Dict
use python_oauth2_server.Dict.{Dict, get-put, get-sweep, get-remove}
use python_oauth2_server.Services.Par.{
  ParEntry, ParStore, par_ttl_secs, sweep_expired, request_uri_of, store, take,
}

-- What the callers of the store do.
pub data Op : Type 0 where
  pushed : String → String → Dict String → Op
  taken : String → Op

unfoldable pub step : ParStore → ℕ → Op → ParStore
step s now (pushed uuid client_id params) = (store s now uuid client_id params).0
step s now (taken uri) = (take s now uri).0

unfoldable pub run : ParStore → List (ℕ × Op) → ParStore
run s [] = s
run s ((now, op) ∷ ops) = run (step s now op) ops

-- The operation is about another request.
abbrev pub is_about : String → Op → Bool
is_about uri (pushed uuid _ _) = request_uri_of uuid == uri
is_about uri (taken other) = other == uri

abbrev pub is_push : String → Op → Bool
is_push uri (pushed uuid _ _) = request_uri_of uuid == uri
is_push uri (taken other) = false

module _ (uri : String) where
  swept_live :
      (s : ParStore) (now : ℕ) (e : ParEntry)
      → Dict.get s.entries uri ≡ some e
      → now < e.created_at + par_ttl_secs * second
      → Dict.get (sweep_expired s now).entries uri ≡ some e
  unfolding sweep_expired
  swept_live s now e found live = simp (get-sweep, found) (ground arith)

  swept_over :
      (s : ParStore) (now : ℕ) (e : ParEntry)
      → Dict.get s.entries uri ≡ some e
      → e.created_at + par_ttl_secs * second ≤ now
      → Dict.get (sweep_expired s now).entries uri ≡ none
  unfolding sweep_expired
  swept_over s now e found over = simp (get-sweep, found) (ground arith)

  swept_absent :
      (s : ParStore) (now : ℕ)
      → Dict.get s.entries uri ≡ none
      → Dict.get (sweep_expired s now).entries uri ≡ none
  unfolding sweep_expired
  swept_absent s now h = simp (get-sweep, h)

  step_other :
      (s : ParStore) (now : ℕ) (op : Op)
      → is_about uri op ≡ false
      → Dict.get (step s now op).entries uri ≡ Dict.get (sweep_expired s now).entries uri
  unfolding step store take
  step_other s now (pushed uuid c ps) h = simp (get-put, h)
  step_other s now (taken other) h = simp (get-remove, h)

  absent_step :
      (s : ParStore) (now : ℕ) (op : Op)
      → is_push uri op ≡ false
      → Dict.get s.entries uri ≡ none
      → Dict.get (step s now op).entries uri ≡ none
  unfolding step store take
  absent_step s now (pushed uuid c ps) h gone = simp (get-put, h) (swept_absent s now gone)
  absent_step s now (taken other) h gone =
      get-remove _ other uri ∙ rw (swept_absent s now gone) (ground arith)

  absent_run :
      (s : ParStore) (ops : List (ℕ × Op))
      → All (λ o. is_push uri o.1 ≡ false) ops
      → Dict.get s.entries uri ≡ none
      → Dict.get (run s ops).entries uri ≡ none
  unfolding run
  absent_run s [] h gone = gone
  absent_run s ((now, op) ∷ ops) h gone =
      absent_run (step s now op) ops h.1 (absent_step s now op h.0 gone)

  live_run :
      (s : ParStore) (e : ParEntry) (ops : List (ℕ × Op))
      → All (λ o. (is_about uri o.1 ≡ false) × (o.0 < e.created_at + par_ttl_secs * second)) ops
      → Dict.get s.entries uri ≡ some e
      → Dict.get (run s ops).entries uri ≡ some e
  unfolding run
  live_run s e [] h found = found
  live_run s e ((now, op) ∷ ops) h found =
      live_run (step s now op) e ops h.1
        (step_other s now op h.0.0 ∙ swept_live s now e found h.0.1)

-- What was pushed is what is taken, until 60 seconds after the push and not from then on,
-- whatever is done with other requests before those 60 seconds are over.
pub take-store :
    (s : ParStore) (pushed_at now : ℕ) (uuid client_id : String) (params : Dict String)
    (ops : List (ℕ × Op))
    → All
        (λ o.
          (is_about (request_uri_of uuid) o.1 ≡ false) × (o.0 < pushed_at + par_ttl_secs * second))
        ops
    → (take (run (store s pushed_at uuid client_id params).0 ops) now (request_uri_of uuid)).1 ≡ (
        if ltb now (pushed_at + par_ttl_secs * second)
        then some (record { client_id = client_id; params = params; created_at = pushed_at })
        else none)
unfolding take
take-store s pushed_at now uuid client_id params ops h =
    let entry : ParEntry = record {
      client_id = client_id;
      params = params;
      created_at = pushed_at;
    } in
    let kept : Dict.get (store s pushed_at uuid client_id params).0.entries (request_uri_of uuid)
        ≡ some entry =
      unfold store in simp (get-put, eq_refl) in
    let there = live_run (request_uri_of uuid) _ entry ops h kept in
    elim (Bool-cases (ltb now (pushed_at + par_ttl_secs * second))) [
      | inl e ↦ rw e (swept_live _ _ now entry there (ltb→lt _ _ e))
      | inr e ↦ rw e (swept_over _ _ now entry there (ground arith))
    ]

-- Once a request was asked for, found or not, nobody finds it any more, whatever is asked for or
-- pushed between, unless its identifier is drawn again.
pub take_once :
    (s : ParStore) (first second_at : ℕ) (uri : String) (ops : List (ℕ × Op))
    → All (λ o. is_push uri o.1 ≡ false) ops
    → (take (run (take s first uri).0 ops) second_at uri).1 ≡ none
take_once s first second_at uri ops h =
    let gone : Dict.get (take s first uri).0.entries uri ≡ none =
      unfold take in simp (get-remove, eq_refl) in
    unfold take in swept_absent uri _ second_at (absent_run uri _ ops h gone)
