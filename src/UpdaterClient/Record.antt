-- ===== src/UpdaterClient/Record.antt =====
-- RecordEvent: one sighting upserts the client and, if that succeeds, records the event.
use emly_go_api.Base.{
  ℕ, ◌≤◌, Bool, not, Option, List, [], ◌∷◌, ◌++◌, String, string_eq, if◌then◌else◌, arith,
  Bool-cases, inl, inr, if-intro,
}
use emly_go_api.Base.Result.{Result, ok, fail}
use emly_go_api.Base.Sql.{Database, keep_where, some_row}
use emly_go_api.DbValue.{null_string}
use emly_go_api.UpdaterClient.{Lib, Request, identified}
use emly_go_api.UpdaterClient.Identities.{identity_from_request}
use emly_go_api.UpdaterClient.Registry.{Client, Clients, Failure, has_id, upsert}
use emly_go_api.UpdaterClient.Registry
use emly_go_api.UpdaterClient.Events.{
  Event, HourKey, hour_eq, Log, Faults, key_of, count_of, bump, insert_event, count_events,
  count_events-append, count_of-bump,
}

-- The events of a client go with its row: ON DELETE CASCADE.
unfoldable pub cascade : List Client → Log → Log
cascade clients log = record log {
  events = keep_where (λ e. some_row (has_id e.client_id) clients) log.events;
}

unfoldable pub record_event :
    Lib
    → Database
    → (ℕ → ℕ)
    → Registry.Faults
    → Faults
    → ℕ
    → String
    → String
    → String
    → Request
    → Clients × Log
    → Clients × Log
unfolding cascade upsert insert_event identity_from_request
record_event lib db hour uf ef now event_type product version r (clients, log) =
    let id = identity_from_request lib r in
    let (found, new) = upsert db uf now id clients in
    let left = cascade new.rows log in
    if not (identified id) then (clients, log) else elim found [
      | fail e ↦ (new, left)
      | ok client_id ↦ (
        new,
        (insert_event hour ef now client_id event_type product (null_string version)
            (null_string id.ip) left).1,
      )
    ]

-- No counter is below the number of the events of its hour, product and type.
abbrev pub IsCovered : (ℕ → ℕ) → Log → Type 0
IsCovered hour log = (k : HourKey) → count_events hour k log.events ≤ count_of k log.hourly

count_events-keep :
    (hour : ℕ → ℕ) (k : HourKey) (p : Event → Bool) (events : List Event)
    → count_events hour k (keep_where p events) ≤ count_events hour k events
count_events-keep hour k p [] = omega arith
count_events-keep hour k p (e ∷ events) = elim (Bool-cases (p e)) [
  | inl kept ↦ rw kept (omega (arith, count_events-keep hour k p events))
  | inr gone ↦ rw gone (omega (arith, count_events-keep hour k p events))
]

cascade-IsCovered :
    (hour : ℕ → ℕ) (clients : List Client) (log : Log)
    → IsCovered hour log
    → IsCovered hour (cascade clients log)
unfolding cascade
cascade-IsCovered hour clients log h = λ k.
    omega
      (arith, h k, count_events-keep hour k (λ e. some_row (has_id e.client_id) clients) log.events)

insert_event-IsCovered :
    (hour : ℕ → ℕ) (f : Faults) (now client_id : ℕ) (event_type product : String)
    (version ip : Option String) (log : Log)
    → IsCovered hour log
    → IsCovered hour (insert_event hour f now client_id event_type product version ip log).1
unfolding insert_event
insert_event-IsCovered hour f now client_id event_type product version ip log h =
    let Covered : Option ℕ × Log → Type 0 = λ answer. IsCovered hour answer.1 in
    if-intro Covered f.begin_tx _ _ h (
      if-intro Covered f.insert_row _ _ h (
        if-intro Covered f.last_id _ _ h
          (if-intro Covered f.count _ _ h (if-intro Covered f.commit _ _ h (λ k. counted _ k)))))
  where
    counted :
        (e : Event) (k : HourKey)
        → count_events hour k (log.events ++ e ∷ []) ≤ count_of k (bump (key_of hour e) log.hourly)
    counted e k = omega (
      arith,
      h k,
      count_of-bump (key_of hour e) k log.hourly,
      count_events-append hour k log.events e,
    )

-- However a sighting is recorded, or fails, no hourly counter falls below the number of the events
-- of its hour, product and type that are in the table, from such a state; the events of a client
-- row that the upsert deletes are deleted with it.
pub record_event-IsCovered :
    (lib : Lib) (db : Database) (hour : ℕ → ℕ) (uf : Registry.Faults) (ef : Faults) (now : ℕ)
    (event_type product version : String) (r : Request) (clients : Clients) (log : Log)
    → IsCovered hour log
    → IsCovered hour
        (record_event lib db hour uf ef now event_type product version r (clients, log)).1
unfolding record_event
record_event-IsCovered lib db hour uf ef now event_type product version r clients log h =
    let new = upsert db uf now (identity_from_request lib r) clients in
    let Covered : Clients × Log → Type 0 = λ answer. IsCovered hour answer.1 in
    if-intro Covered (not (identified (identity_from_request lib r))) _ _ h (recorded new.0 new.1)
  where
    recorded :
        (found : Result Failure ℕ) (new : Clients)
        → IsCovered hour
            (elim found as (λ _. Clients × Log) [
              | fail e ↦ (new, cascade new.rows log)
              | ok client_id ↦ (
                new,
                (insert_event hour ef now client_id event_type product
                    (null_string version)
                    (null_string (identity_from_request lib r).ip)
                    (cascade new.rows log)).1,
              )
            ]).1
    recorded (fail e) new = cascade-IsCovered hour new.rows log h
    recorded (ok client_id) new =
        insert_event-IsCovered hour ef now client_id event_type product (null_string version)
          (null_string (identity_from_request lib r).ip) (cascade new.rows log)
          (cascade-IsCovered hour new.rows log h)
