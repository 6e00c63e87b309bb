-- ===== src/Services/Expiry.antt =====
-- Dicts of expiry instants, as the replay guards keep them.
use python_oauth2_server.Prelude.{leb, ℕ, String, none, some, arith, ◌≤◌, ◌<◌, ◌≡◌}
use python_oauth2_server.Dict
use python_oauth2_server.Dict.{Dict, get-sweep, get-put, size-put}

-- `[k for k, expiry in entries.items() if expiry <= now]`, deleted.
unfoldable pub sweep : ℕ → Dict ℕ → Dict ℕ
sweep now d = Dict.sweep (λ expiry. leb expiry now) d

pub get-sweep_live :
    (now : ℕ) (d : Dict ℕ) (k : String) (e : ℕ)
    → Dict.get d k ≡ some e
    → now < e
    → Dict.get (sweep now d) k ≡ some e
unfolding sweep
get-sweep_live now d k e found live = simp (get-sweep, found) (ground arith)

pub get-sweep_over :
    (now : ℕ) (d : Dict ℕ) (k : String) (e : ℕ)
    → Dict.get d k ≡ some e
    → e ≤ now
    → Dict.get (sweep now d) k ≡ none
unfolding sweep
get-sweep_over now d k e found over = simp (get-sweep, found) (ground arith)

pub get-sweep_absent :
    (now : ℕ) (d : Dict ℕ) (k : String) → Dict.get d k ≡ none → Dict.get (sweep now d) k ≡ none
unfolding sweep
get-sweep_absent now d k h = simp (get-sweep, h)

pub size-sweep-le : (now : ℕ) (d : Dict ℕ) → Dict.size (sweep now d) ≤ Dict.size d
unfolding sweep
size-sweep-le now d = Dict.size-sweep-le _ d
