-- ===== src/EventStore/Arrivals.antt =====
-- event-store/src/services/ingest.ts and nats/consumer.ts: from a delivered message to the events table.
pub mod Delivered
pub mod Readable
pub mod Kept
use datha_platform.Base.{
  ℕ, String, Bool, true, false, List, [], ◌∷◌, ◌++◌, Option, none, some, leb, if◌then◌else◌, any,
  or_default,
}
use datha_platform.Base.Iso.{IsoDate}
use datha_platform.Base.Json.{Json, null, string, object, Members, done, member}
use datha_platform.Messenger.Result.{Result, ok, err, other_error, ◌>>=◌, cast_result}
use datha_platform.Messenger.Envelope.{PlatformEvent, Checked, valid, invalid, parse_envelope}
use datha_platform.Messenger.CallsConsumer.{Settled, ack, term, nak, unsettled}
use datha_platform.EventStore.Rows.{EventRow, has_event_key}

-- What `publishDlq` is given: the body of a message on events.dlq.<sink>, without `failed_at`.
pub record DeadLetter : Type 0 where
  pub original_subject : String
  pub last_error : String
  pub envelope : PlatformEvent

pub record Outcome : Type 0 where
  pub events : List EventRow
  pub settled : Settled
  pub dead_letter : Option DeadLetter

-- A uuid parameter, as the database casts it.
abbrev pub cast_uuid : Option String → Result String
cast_uuid none = err other_error
cast_uuid (some i) = ok i

-- INSERT ... ON CONFLICT (id, "timestamp") DO NOTHING
unfoldable pub insert_event : EventRow → List EventRow → List EventRow
insert_event row events =
    if any (has_event_key row.id row.timestamp) events then events else events ++ row ∷ []

-- `JSON.stringify(envelope)`, read back.
abbrev pub json_or_null : Option String → Json
json_or_null none = null
json_or_null (some s) = string s

unfoldable pub envelope_json : PlatformEvent → Json
envelope_json e = object (
    member "id" (string e.id) (
      member "type" (string e.type) (
        member "service" (string e.service) (
          member "entity_id" (json_or_null e.entity_id) (
            member "owner_id" (json_or_null e.owner_id) (
              member "correlation_id" (json_or_null e.correlation_id) (
                member "timestamp" (string e.timestamp)
                  (member "payload" (object e.payload) done))))))))

-- `uuid` is the database's cast of a text to a uuid, `down` that the statement fails otherwise, and
-- `message` the text of what `ingestEvent` throws, if it throws (`lastError`).
module _ (uuid : String → Option String) (iso : IsoDate) where
  unfoldable pub event_row : PlatformEvent → Result EventRow
  event_row e = do
    id ← cast_uuid (uuid e.id)
    timestamp ← cast_result (iso.cast e.timestamp)
    ok (record {
      id = id;
      type = e.type;
      service = e.service;
      entity_id = e.entity_id;
      owner_id = e.owner_id;
      correlation_id = e.correlation_id;
      timestamp = timestamp;
      payload = e.payload;
    })

  unfoldable pub ingest_event : Bool → PlatformEvent → List EventRow → Result (List EventRow)
  unfolding event_row insert_event
  ingest_event true e events = err other_error
  ingest_event false e events = do row ← event_row e; ok (insert_event row events)

  -- The rest of `handleMessage`, from its end: after `ingestEvent`, after `parseEnvelope`.
  module _ (max_deliver count : ℕ) (published down : Bool) (subject message : String)
      (events : List EventRow) where
    unfoldable pub on_ingest : PlatformEvent → Result (List EventRow) → Outcome
    on_ingest envelope (ok after) = record { events = after; settled = ack; dead_letter = none }
    on_ingest envelope (err e) =
        if leb max_deliver count
        then if published
          then record {
            events = events;
            settled = ack;
            dead_letter =
                some (record {
                  original_subject = subject;
                  last_error = message;
                  envelope = envelope;
                });
          }
          else record { events = events; settled = unsettled; dead_letter = none }
        else record { events = events; settled = nak; dead_letter = none }

    unfoldable pub on_event : Checked PlatformEvent → Outcome
    unfolding on_ingest ingest_event
    on_event (invalid e) = record { events = events; settled = term; dead_letter = none }
    on_event (valid envelope) = on_ingest envelope (ingest_event down envelope events)

  unfoldable pub handle_event :
      ℕ → Option ℕ → Bool → Bool → String → String → Option Json → List EventRow → Outcome
  unfolding on_event
  handle_event max_deliver info published down subject message raw events =
      on_event max_deliver (or_default info 1) published down subject message events
        (parse_envelope iso raw)
