-- ===== src/EventStore/Arrivals/Kept.antt =====
-- What an acknowledged delivery leaves: the event in the table, or a dead letter that can be replayed.
use datha_platform.Base.{
  ℕ, String, Bool, true, false, ◌&&◌, eqb, any, List, [], ◌∷◌, ◌++◌, Option, none, some, leb,
  or_default, ◌≡◌, refl, arith, Bool-cases, inl, inr, ◌⊎◌, ◌≤◌, ◌==◌,
}
use datha_platform.Base.Iso.{IsoDate}
use datha_platform.Base.Json.{Json}
use datha_platform.Messenger.Result.{DbError, Result, ok, err}
use datha_platform.Messenger.Envelope.{PlatformEvent, Checked, valid, invalid, parse_envelope}
use datha_platform.Messenger.CallsConsumer.{ack}
use datha_platform.EventStore.Rows.{EventRow, has_event_key}
use datha_platform.EventStore.Arrivals.{
  DeadLetter, Outcome, envelope_json, event_row, insert_event, ingest_event, on_ingest, on_event,
  handle_event,
}
use datha_platform.EventStore.Arrivals.Readable.{parse_envelope-envelope_json}

-- The event is in the table, to which nothing else was done: the row has its fields, with the id and
-- the timestamp as the database casts them, and stands at the end, unless a row with that key was
-- there before.
pub record IsStored (uuid : String → Option String) (iso : IsoDate) (down : Bool)
    (e : PlatformEvent) (events after : List EventRow) : Type 0 where
  pub id : String
  pub timestamp : ℕ
  pub is_id : uuid e.id ≡ some id
  pub is_time : iso.cast e.timestamp ≡ some timestamp
  pub up : down ≡ false
  pub stored :
      ((any (λ r. r.id == id && eqb r.timestamp timestamp) events ≡ true) × (after ≡ events))
      ⊎ ((any (λ r. r.id == id && eqb r.timestamp timestamp) events ≡ false)
          × (after
              ≡ events
                ++ record {
                  id = id;
                  type = e.type;
                  service = e.service;
                  entity_id = e.entity_id;
                  owner_id = e.owner_id;
                  correlation_id = e.correlation_id;
                  timestamp = timestamp;
                  payload = e.payload;
                }
                  ∷ []))

-- The event could not be stored and was given up on its last delivery, and the dead letter holds it as
-- it was read, with its subject and the reason.
pub record IsGivenUp (uuid : String → Option String) (iso : IsoDate) (max_deliver count : ℕ)
    (down : Bool) (subject message : String) (e : PlatformEvent) (events after : List EventRow)
    (letter : Option DeadLetter) : Type 0 where
  pub failed : (down ≡ true) ⊎ (uuid e.id ≡ none) ⊎ (iso.cast e.timestamp ≡ none)
  pub last : max_deliver ≤ count
  pub unchanged : after ≡ events
  pub letter_of :
      letter ≡ some (record { original_subject = subject; last_error = message; envelope = e })
  pub readable : parse_envelope iso (some (envelope_json e)) ≡ valid e

inserted :
    {uuid : String → Option String} {iso : IsoDate} (e : PlatformEvent)
    (events after : List EventRow) (i : Option String) (t : Option ℕ)
    → uuid e.id ≡ i
    → iso.cast e.timestamp ≡ t
    → ingest_event uuid iso false e events ≡ ok after
    → IsStored uuid iso false e events after
unfolding ingest_event event_row insert_event
inserted e events after none t is_id is_time h = ground (arith, is_id, h)
inserted e events after (some id) none is_id is_time h = ground (arith, is_id, is_time, h)
inserted e events after (some id) (some t) is_id is_time h =
    elim (Bool-cases (any (has_event_key id t) events)) [
      | inl old ↦ record {
        id = id;
        timestamp = t;
        is_id = is_id;
        is_time = is_time;
        up = refl;
        stored = inl (old, ground (arith, is_id, is_time, h, old));
      }
      | inr new ↦ record {
        id = id;
        timestamp = t;
        is_id = is_id;
        is_time = is_time;
        up = refl;
        stored = inr (new, ground (arith, is_id, is_time, h, new));
      }
    ]

ingested :
    {uuid : String → Option String} {iso : IsoDate} (down : Bool) (e : PlatformEvent)
    (events after : List EventRow)
    → ingest_event uuid iso down e events ≡ ok after
    → IsStored uuid iso down e events after
unfolding ingest_event
ingested true e events after h = cc
ingested {uuid} {iso} false e events after h =
    inserted e events after (uuid e.id) (iso.cast e.timestamp) refl refl h

not_ingested :
    (uuid : String → Option String) (iso : IsoDate) (down : Bool) (e : PlatformEvent)
    (events : List EventRow) (x : DbError) (i : Option String) (t : Option ℕ)
    → uuid e.id ≡ i
    → iso.cast e.timestamp ≡ t
    → ingest_event uuid iso down e events ≡ err x
    → (down ≡ true) ⊎ (uuid e.id ≡ none) ⊎ (iso.cast e.timestamp ≡ none)
unfolding ingest_event event_row
not_ingested uuid iso true e events x i t is_id is_time h = inl refl
not_ingested uuid iso false e events x none t is_id is_time h = inr (inl is_id)
not_ingested uuid iso false e events x (some id) none is_id is_time h = inr (inr is_time)
not_ingested uuid iso false e events x (some id) (some t) is_id is_time h =
    ground (arith, is_id, is_time, h)

module _ (uuid : String → Option String) (iso : IsoDate) (max_deliver count : ℕ)
    (published down : Bool) (subject message : String) (events : List EventRow) where
  abbrev Kept : PlatformEvent → Outcome → Type 0
  Kept e o =
      IsStored uuid iso down e events o.events
      ⊎ IsGivenUp uuid iso max_deliver count down subject message e events o.events o.dead_letter

  on_ingest-Kept :
      (e : PlatformEvent) (r : Result (List EventRow))
      → ingest_event uuid iso down e events ≡ r
      → parse_envelope iso (some (envelope_json e)) ≡ valid e
      → (on_ingest uuid iso max_deliver count published down subject message events e r).settled
        ≡ ack
      → Kept e (on_ingest uuid iso max_deliver count published down subject message events e r)
  unfolding on_ingest
  on_ingest-Kept e (ok after) h readable acked = inl (ingested down e events after h)
  on_ingest-Kept e (err thrown) h readable acked = elim (Bool-cases (leb max_deliver count)) [
    | inl f ↦ elim (Bool-cases published) [
      | inl g ↦ inr (
          rw (f, g)
            (record {
              failed =
                  not_ingested uuid iso down e events thrown (uuid e.id) (iso.cast e.timestamp) refl
                    refl h;
              last = ground arith;
              unchanged = refl;
              letter_of = refl;
              readable = readable;
            }))
      | inr g ↦ ground (arith, acked)
    ]
    | inr f ↦ ground (arith, acked)
  ]

  on_event-Kept :
      (c : Checked PlatformEvent)
      → ((e : PlatformEvent) → c ≡ valid e → parse_envelope iso (some (envelope_json e)) ≡ valid e)
      → (on_event uuid iso max_deliver count published down subject message events c).settled ≡ ack
      → (e : PlatformEvent) × (c ≡ valid e)
        × Kept e (on_event uuid iso max_deliver count published down subject message events c)
  unfolding on_event
  on_event-Kept (invalid e) readable acked = cc
  on_event-Kept (valid e) readable acked =
      (e, refl, on_ingest-Kept e (ingest_event uuid iso down e events) refl (readable e refl) acked)

-- A message that is acknowledged holds an event, and either the table holds it afterwards, with every
-- field of the event, unless a row with its id and timestamp was there before; or it could not be
-- stored, this was its last delivery, the table is as it was, and the dead letter holds the subject,
-- the reason and the event, which is read again from its JSON text.
pub handle_event-kept :
    (uuid : String → Option String) (iso : IsoDate) (max_deliver : ℕ) (info : Option ℕ)
    (published down : Bool) (subject message : String) (raw : Option Json) (events : List EventRow)
    → (handle_event uuid iso max_deliver info published down subject message raw events).settled
      ≡ ack
    → (e : PlatformEvent) × (parse_envelope iso raw ≡ valid e)
      × (IsStored uuid iso down e events
            (handle_event uuid iso max_deliver info published down subject message raw
              events).events
          ⊎ IsGivenUp uuid iso max_deliver
              (or_default info 1)
              down
              subject
              message
              e
              events
              (handle_event uuid iso max_deliver info published down subject message raw
                events).events
              (handle_event uuid iso max_deliver info published down subject message raw
                events).dead_letter)
unfolding handle_event
handle_event-kept uuid iso max_deliver info published down subject message raw events acked =
    on_event-Kept uuid iso max_deliver (or_default info 1) published down subject message events
      (parse_envelope iso raw) (parse_envelope-envelope_json iso raw) acked
