-- ===== src/Services/Dpop.antt =====
-- services/dpop.py: the replay store of DPoP proofs, and the errors of a proof.
pub mod Replay
pub mod Proof
pub mod Once
use python_oauth2_server.Prelude.{is_some, ℕ, String, Option, none, some, if◌then◌else◌, ◌+◌, ◌*◌}
use python_oauth2_server.Clock.{second}
use python_oauth2_server.Dict
use python_oauth2_server.Dict.{Dict}
use python_oauth2_server.Services.Expiry

abbrev pub replay_ttl_secs : ℕ
replay_ttl_secs = 660

pub record DpopError : Type 0 where
  pub error : String
  pub description : String

pub record DpopValidated : Type 0 where
  pub jkt : String
  pub nonce : Option String
  pub ath : Option String

pub record DpopReplayStore : Type 0 where
  pub entries : Dict ℕ

unfoldable pub sweep_expired : DpopReplayStore → ℕ → DpopReplayStore
sweep_expired r now = record { entries = Expiry.sweep now r.entries }

abbrev pub replayed : DpopError
replayed = record {
  error = "invalid_dpop_proof";
  description = "DPoP proof jti has already been used (replay)";
}

-- `some` is the error that is raised.
unfoldable pub check_and_insert : DpopReplayStore → ℕ → String → DpopReplayStore × Option DpopError
check_and_insert r now jti =
    let swept = sweep_expired r now in
    if is_some (Dict.get swept.entries jti)
    then (swept, some replayed)
    else (record { entries = Dict.put swept.entries jti (now + replay_ttl_secs * second) }, none)
