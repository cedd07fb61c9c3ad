-- ===== src/UpdaterClient/Events.antt =====
-- insertEvent: the rows of updater_events and the counters of updater_event_hourly.
use emly_go_api.Base.{
  ℕ, suc, ◌+◌, Bool, true, ◌&&◌, Option, none, some, List, [], ◌∷◌, ◌++◌, String, Key, ◌==◌,
  string_eq, nat_eq, nat_beq, if◌then◌else◌, ◌≡◌, ◌≢◌, ◌↔◌, refl, ◌∙◌, arith, Bool-cases, inl, inr,
  ap, if-intro, ==-refl, nat_beq_iff,
}
use emly_go_api.Base.Dict.{Dict, get, put, get-put_self, get-put_ne}

pub record Event : Type 0 where
  pub id : ℕ
  pub client_id : ℕ
  pub event_type : String
  pub product : String
  pub version : Option String
  pub ip_address : Option String
  pub created_at : ℕ

-- The primary key of updater_event_hourly.
pub record HourKey : Type 0 where
  pub bucket_hour : ℕ
  pub product : String
  pub event_type : String

pub same_key : HourKey → HourKey → Bool
same_key j k =
    nat_beq j.bucket_hour k.bucket_hour && j.product == k.product && j.event_type == k.event_type

pub same_key_iff : (j k : HourKey) → (same_key j k ≡ true) ↔ (j ≡ k)
unfolding same_key
same_key_iff j k = (λ e. forward e, λ e. rw e (own k))
  where
    own : (k : HourKey) → same_key k k ≡ true
    own k = rw (==-refl k.bucket_hour, ==-refl k.product, ==-refl k.event_type) refl

    split : (a b c : Bool) → (a && b && c) ≡ true → (a ≡ true) × (b ≡ true) × (c ≡ true)
    split a b c e = (ground arith, ground arith, ground arith)

    forward : same_key j k ≡ true → j ≡ k
    forward e =
        let (hour, product, kind) = split _ _ _ e in
        let a : j.bucket_hour ≡ k.bucket_hour = (nat_beq_iff j.bucket_hour k.bucket_hour).0 hour in
        let b : j.product ≡ k.product = (string_eq.same_iff j.product k.product).0 product in
        let c : j.event_type ≡ k.event_type =
          (string_eq.same_iff j.event_type k.event_type).0 kind in
        cc (a, b, c)

instance abbrev pub hour_eq : Key HourKey
hour_eq = record { same = same_key; same_iff = same_key_iff }

-- The two tables, and the AUTO_INCREMENT of the first.
pub record Log : Type 0 where
  pub events : List Event
  pub hourly : Dict HourKey ℕ
  pub next_id : ℕ

-- The statements that the database fails.
pub record Faults : Type 0 where
  pub begin_tx : Bool
  pub insert_row : Bool
  pub last_id : Bool
  pub count : Bool
  pub commit : Bool

-- `hour` is HourBucketExpr: the top of the hour of a moment.
abbrev pub key_of : (ℕ → ℕ) → Event → HourKey
key_of hour e = record {
  bucket_hour = hour e.created_at;
  product = e.product;
  event_type = e.event_type;
}

abbrev pub or_zero : Option ℕ → ℕ
or_zero none = 0
or_zero (some n) = n

abbrev pub count_of : HourKey → Dict HourKey ℕ → ℕ
count_of k hourly = or_zero (get k hourly)

-- INSERT … ON DUPLICATE KEY UPDATE count = count + 1
abbrev pub bump : HourKey → Dict HourKey ℕ → Dict HourKey ℕ
bump k hourly = put k (suc (count_of k hourly)) hourly

unfoldable pub insert_event :
    (ℕ → ℕ)
    → Faults
    → ℕ
    → ℕ
    → String
    → String
    → Option String
    → Option String
    → Log
    → Option ℕ × Log
insert_event hour f now client_id event_type product version ip log =
    let e : Event = record {
      id = log.next_id;
      client_id = client_id;
      event_type = event_type;
      product = product;
      version = version;
      ip_address = ip;
      created_at = now;
    } in
    if f.begin_tx
    then (none, log)
    else if f.insert_row
    then (none, log)
    else if f.last_id
    then (none, log)
    else if f.count
    then (none, log)
    else if f.commit
    then (none, log)
    else (
      some log.next_id,
      record {
        events = log.events ++ e ∷ [];
        hourly = bump (key_of hour e) log.hourly;
        next_id = suc log.next_id;
      },
    )

-- COUNT(*) … GROUP BY hour, product, event_type
abbrev pub count_events : (ℕ → ℕ) → HourKey → List Event → ℕ
count_events hour k [] = 0
count_events hour k (e ∷ events) =
    (if key_of hour e == k then 1 else 0) + count_events hour k events

-- Each counter is the number of the events of its hour, product and type.
abbrev pub IsRollup : (ℕ → ℕ) → Log → Type 0
IsRollup hour log = (k : HourKey) → count_of k log.hourly ≡ count_events hour k log.events

pub count_events-append :
    (hour : ℕ → ℕ) (k : HourKey) (events : List Event) (e : Event)
    → count_events hour k (events ++ e ∷ [])
      ≡ count_events hour k events + (if key_of hour e == k then 1 else 0)
count_events-append hour k [] e = omega arith
count_events-append hour k (x ∷ events) e = omega (arith, count_events-append hour k events e)

pub count_of-bump :
    (j k : HourKey) (hourly : Dict HourKey ℕ)
    → count_of k (bump j hourly) ≡ count_of k hourly + (if j == k then 1 else 0)
count_of-bump j k hourly = elim (Bool-cases (j == k)) [
  | inl e ↦
      let same : j ≡ k = (same_key_iff j k).0 e in
      let now : or_zero (get k (put k (suc (count_of k hourly)) hourly)) ≡ suc (count_of k hourly) =
        ap or_zero (get-put_self k (suc (count_of k hourly)) hourly) in
      rw (e, same) (now ∙ omega arith)
  | inr e ↦
      let other : j ≢ k = λ same. cc ((same_key_iff j k).1 same, e) in
      let before : or_zero (get k (put j (suc (count_of j hourly)) hourly)) ≡ count_of k hourly =
        ap or_zero (get-put_ne j k (suc (count_of j hourly)) hourly other) in
      rw e (before ∙ omega arith)
]

counted :
    (hour : ℕ → ℕ) (e : Event) (events : List Event) (hourly : Dict HourKey ℕ) (k : HourKey)
    → count_of k hourly ≡ count_events hour k events
    → count_of k (bump (key_of hour e) hourly) ≡ count_events hour k (events ++ e ∷ [])
counted hour e events hourly k h =
    omega (arith, h, count_of-bump (key_of hour e) k hourly, count_events-append hour k events e)

-- Each event that is recorded, or that fails at any statement, leaves every hourly counter equal to
-- the number of the events of its hour, product and type, from such a state.
pub insert_event-IsRollup :
    (hour : ℕ → ℕ) (f : Faults) (now client_id : ℕ) (event_type product : String)
    (version ip : Option String) (log : Log)
    → IsRollup hour log
    → IsRollup hour (insert_event hour f now client_id event_type product version ip log).1
unfolding insert_event
insert_event-IsRollup hour f now client_id event_type product version ip log h =
    let Rolled : Option ℕ × Log → Type 0 = λ answer. IsRollup hour answer.1 in
    if-intro Rolled f.begin_tx _ _ h (
      if-intro Rolled f.insert_row _ _ h (
        if-intro Rolled f.last_id _ _ h (
          if-intro Rolled f.count _ _ h
            (if-intro Rolled f.commit _ _ h (λ k. counted hour _ log.events log.hourly k (h k))))))
