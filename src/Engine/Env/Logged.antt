-- ===== src/Engine/Env/Logged.antt =====
-- What the log writes to the store: events, and nothing else.
use floxy_pro.Prelude.{Option, String, ap, nat_eq, none, refl, some, string_eq, ℕ, ◌≡◌}
use floxy_pro.Engine.Env.{Env, Payload, log}
use floxy_pro.Engine.Monad.{ignore, returned}
use floxy_pro.Model.{RawMessage, Time}
use floxy_pro.Store.Defs.{MemoryStore}
use floxy_pro.Store.Events.{log_event}

abbrev pub with_events : MemoryStore → MemoryStore → MemoryStore
with_events u s = record s {
  events = u.events;
  events_by_instance = u.events_by_instance;
  next_event_id = u.next_event_id;
}

log-events :
    (id : ℕ) (step : Option ℕ) (event_type : String) (encoded : Option RawMessage) (now : Time)
    (s : MemoryStore)
    → (log_event id step event_type encoded now s).1
      ≡ with_events (log_event id step event_type encoded now s).1 s
unfolding log_event
log-events id step event_type none now s = refl
log-events id step event_type (some payload) now s = refl

pub log_lem :
    (env : Env) (id : ℕ) (step : Option ℕ) (event_type : String) (payload : Payload)
    (s : MemoryStore)
    → (u : MemoryStore) × (log env id step event_type payload s ≡ returned tt (with_events u s))
unfolding log ignore
log_lem env id step event_type payload s = (
  (log_event id step event_type (env.marshal payload) env.now s).1,
  ap (returned tt) (log-events id step event_type (env.marshal payload) env.now s),
)
