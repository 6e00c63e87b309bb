-- ===== src/Services/Events.antt =====
-- services/events.py: the ring of recent events, over any type of event.
pub mod Laws
use python_oauth2_server.Prelude.{length, take, drop, ℕ, List, [], ◌∷◌}

pub record RecentEventsStore {ℓ} (E : Type ℓ) : Type ℓ where
  pub capacity : ℕ
  pub events : List E

module _ {ℓ} {E : Type ℓ} where
  unfoldable pub init : ℕ → RecentEventsStore E
  init capacity = record { capacity = capacity; events = [] }

  -- `appendleft` on a deque with `maxlen`
  unfoldable pub push : RecentEventsStore E → E → RecentEventsStore E
  push s e = record s { events = take s.capacity (e ∷ s.events) }

  -- `list(self._events)[offset : offset + limit]`, and the number of events
  unfoldable pub page : RecentEventsStore E → ℕ → ℕ → List E × ℕ
  page s limit offset = (take limit (drop offset s.events), length s.events)
