-- ===== src/Tests/Stores.antt =====
-- services/par.py, client_assertion.py, device_poll.py, events.py: one key in each store.
use python_oauth2_server.Prelude.{
  ltb, ℕ, String, refl, none, some, List, [], arith, if◌then◌else◌, ◌+◌, ◌*◌, ◌≡◌, ◌∷◌,
}
use python_oauth2_server.Clock.{second}
use python_oauth2_server.Dict
use python_oauth2_server.Services.Expiry.{sweep}
use python_oauth2_server.Services.Par
use python_oauth2_server.Services.Par.{ParStore, request_uri_of, par_ttl_secs}
use python_oauth2_server.Services.Par.Laws.{
  Op, pushed, taken, take-store, take_once, run as run_requests,
}
use python_oauth2_server.Services.ClientAssertion
use python_oauth2_server.Services.ClientAssertion.{JtiReplayGuard, key_of, seen}
use python_oauth2_server.Services.ClientAssertion.Replay.{replay_seen, run as run_observations}
use python_oauth2_server.Services.DevicePoll
use python_oauth2_server.Services.DevicePoll.{DevicePollTracker}
use python_oauth2_server.Services.DevicePoll.Laws.{Poll, answers, pace, answers_from_first}
use python_oauth2_server.Services.Events
use python_oauth2_server.Services.Events.Laws.{push_all, page-push_all}

abbrev no_requests : ParStore
no_requests = record { entries = Dict.empty }

abbrev others : List (ℕ × Op)
others = (2 * second, pushed "b" "app" Dict.empty) ∷ (3 * second, taken "else") ∷ []

take-store_example :
    (Par.take
      (run_requests (Par.store no_requests second "a" "app" Dict.empty).0 others)
      (60 * second)
      (request_uri_of "a")).1
    ≡ (if ltb (60 * second) (second + par_ttl_secs * second)
        then some (record { client_id = "app"; params = Dict.empty; created_at = second })
        else none)
unfolding request_uri_of
take-store_example =
    take-store no_requests second (60 * second) "a" "app" Dict.empty others
      ((refl, omega arith), ((refl, omega arith), tt))

take_once_example :
    (Par.take
      (run_requests (Par.take no_requests second (request_uri_of "a")).0 others)
      (4 * second)
      (request_uri_of "a")).1
    ≡ none
unfolding request_uri_of
take_once_example =
    take_once no_requests second (4 * second) (request_uri_of "a") others (refl, (refl, tt))

abbrev guard_of_two : JtiReplayGuard
guard_of_two = record { entries = Dict.empty; max_entries = 2 }

replay_seen_example :
    (ClientAssertion.observe
      (run_observations
        (ClientAssertion.observe guard_of_two second "app" "j" (60 * second)).0
        ((2 * second, "app", "k", second) ∷ []))
      (30 * second)
      "app"
      "j"
      second).1
    ≡ seen
unfolding ClientAssertion.observe ClientAssertion.sweep_expired key_of sweep Dict.sweep Dict.get
    Dict.size Dict.empty
replay_seen_example =
    replay_seen guard_of_two second (30 * second) "app" "j" (60 * second) second
      ((2 * second, "app", "k", second) ∷ []) refl (omega arith, tt) (omega arith)

abbrev polls : List Poll
polls = (12 * second, "d", 5) ∷ (13 * second, "e", 5) ∷ (14 * second, "d", 5) ∷ []

answers_from_first_example :
    answers "d" DevicePoll.init ((second, "d", 5) ∷ polls) ≡ none ∷ pace "d" second 5 polls
unfolding DevicePoll.init Dict.get Dict.empty
answers_from_first_example =
    answers_from_first "d" DevicePoll.init second 5 polls refl
      (omega arith, (omega arith, (omega arith, tt)))

abbrev published : List String
published = "a" ∷ "b" ∷ "c" ∷ []

page-push_all_example : Events.page (push_all (Events.init 2) published) 5 0 ≡ ("c" ∷ "b" ∷ [], 2)
page-push_all_example = page-push_all 2 5 0 published
