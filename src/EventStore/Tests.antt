-- ===== src/EventStore/Tests.antt =====
-- Two events and a dead letter, and the event store's operations on them.
mod Retention
use datha_platform.Base.{
  ℕ, ◌+◌, ◌*◌, ◌⊎◌, String, true, false, List, [], ◌∷◌, map, Option, none, some, arith, refl, ◌≡◌,
  filter, length, find, All, any, subst, ◌<◌,
}
use datha_platform.Base.Iso.{sample_iso, letters, count, instant_of, micros_of}
use datha_platform.Base.Json.{Json, plain, string, object, member, done, get}
use datha_platform.Base.Keyset.{Ordered, Untied, order_by}
use datha_platform.Base.Texts.{
  text_lt, text_le, text_lt-asym, text_lt_trans, text_lt-total, strip_prefix,
}
use datha_platform.Messenger.Result.{ok}
use datha_platform.Messenger.Calls.{contains}
use datha_platform.Messenger.Envelope.{PlatformEvent, valid, is_uuid, parse_envelope}
use datha_platform.Messenger.CallsConsumer.{Settled, ack}
use datha_platform.Messenger.Rows.{read_date, bind_date}
use datha_platform.EventStore.Rows.{EventRow, DlqRecordRow, read_event}
use datha_platform.EventStore.Cursors.{Base64url}
use datha_platform.EventStore.Listing.{
  Jsonb, key_lt, EventQueryParams, comes_first, selects, row_to_event,
}
use datha_platform.EventStore.Listing.Keys.{IsNameable}
use datha_platform.EventStore.Listing.Pages.{walk, walk-order_by}
use datha_platform.EventStore.Distinct.{Collation, list_distinct, list_distinct-Scans}
use datha_platform.EventStore.Arrivals.{
  DeadLetter, event_row, ingest_event, insert_event, on_ingest, on_event, handle_event,
}
use datha_platform.EventStore.Arrivals.Delivered.{settled, handle_event-redelivered}
use datha_platform.EventStore.Arrivals.Kept.{IsStored, IsGivenUp, handle_event-kept}
use datha_platform.EventStore.DeadLetters.{handle_dlq_message, publish_dlq}
use datha_platform.EventStore.DeadLetters.Settling.{Settles, handle_dlq_message-IsSettled}
use datha_platform.EventStore.Replay.{
  Published, Replayed, passed, refused, already_replayed, check_replay, get_dlq_record_row_by_id,
  check_envelope, finish_replay, mark_dlq_replayed, replay_dlq_record,
}
use datha_platform.EventStore.Replay.Again.{replay_dlq_record-again}
use datha_platform.EventStore.Replay.Once.{
  Requests, publish, mark, credit, stop, step, IsConsistent, Steps-IsConsistent,
}
use datha_platform.EventStore.Replay.Restores.{replay_dlq_record-restores}
use datha_platform.EventStore.Retention.{
  Tables, RetentionOptions, partition_ends_at, year_month, events_of, run_retention,
}
use datha_platform.EventStore.Retention.Keeps.{
  IsPartition, live_events, live_records, run_retention-live,
}
use datha_platform.EventStore.Retention.Accounts.{run_retention-accounts}
use datha_platform.EventStore.Requests.{
  QueryValue, text, accepted, parse_payload_filters, parse_from, is_payload_key, all_key_codes,
  assign,
}
use datha_platform.EventStore.Requests.Filters.{IsApplied, parse_payload_filters-IsApplied}

abbrev base64url : Base64url
base64url = record { encode = λ s. s; decode = λ s. some s; decode-encode = λ s. refl }

abbrev jsonb : Jsonb
jsonb = record { contains = λ m k j. true; to_number = λ s. plain 0 false }

abbrev uuid : String → Option String
uuid s = some s

abbrev pub event : String → ℕ → EventRow
event id at = record {
  id = id;
  type = "messenger.message.sent";
  service = "messenger-service";
  entity_id = none;
  owner_id = none;
  correlation_id = none;
  timestamp = at;
  payload = done;
}

abbrev pub two_events : List EventRow
two_events = event "e1" 1000 ∷ event "e2" 2000 ∷ []

abbrev params : EventQueryParams
params = record {
  owner_id = none;
  types = [];
  services = "messenger-service" ∷ [];
  entity_id = none;
  correlation_id = none;
  since = none;
  until = none;
  limit = 1;
  offset = 0;
  order = none;
  payload = [];
  count_cap = 10;
  after = none;
}

nameable : All (IsNameable uuid) two_events
unfolding read_date
nameable = (
  record { canonical = refl; nonempty = refl; whole = refl },
  (record { canonical = refl; nonempty = refl; whole = refl }, tt),
)

untied : Untied (comes_first none) two_events
unfolding key_lt text_lt text_le
untied = ((refl, tt), (tt, tt))

walk-order_by_example :
    walk base64url jsonb uuid sample_iso params two_events 3 none
    ≡ ok (
        map
          (λ r. row_to_event sample_iso (read_event r))
          (order_by (comes_first none) (filter (selects jsonb params) two_events)))
walk-order_by_example =
    walk-order_by base64url jsonb uuid sample_iso params two_events untied (omega arith) nameable
      refl

abbrev collation : Collation
collation = record {
  lt = text_lt;
  strict = record { asym = text_lt-asym; trans = text_lt_trans };
  total = text_lt-total;
}

abbrev column : List String
column = "b" ∷ "a" ∷ "b" ∷ []

list_distinct-Scans_example :
    (ys : List String) × (list_distinct collation 4 column ≡ some ys)
    × Ordered text_lt ys
    × ((s : String) → contains ys s ≡ contains column s)
list_distinct-Scans_example = list_distinct-Scans collation column

abbrev happened : PlatformEvent
happened = record {
  id = "33333333-3333-4333-8333-333333333333";
  type = "messenger.message.sent";
  service = "messenger-service";
  entity_id = none;
  owner_id = none;
  correlation_id = none;
  timestamp = "TTT";
  payload = done;
}

abbrev raw : Json
raw = object (
    member "id" (string "33333333-3333-4333-8333-333333333333") (
      member "type" (string "messenger.message.sent") (
        member "service" (string "messenger-service")
          (member "timestamp" (string "TTT") (member "payload" (object done) done)))))

raw-happened : parse_envelope sample_iso (some raw) ≡ valid happened
unfolding parse_envelope sample_iso instant_of count get is_uuid
raw-happened = refl

abbrev stored : List EventRow
stored = event "33333333-3333-4333-8333-333333333333" 2000 ∷ []

handle_event-redelivered_example :
    handle_event uuid sample_iso 5 none true false "events.messenger.message.sent" "timeout"
      (some raw)
      stored
    ≡ record { events = stored; settled = ack; dead_letter = none }
unfolding ingest_event event_row insert_event sample_iso instant_of micros_of count any
handle_event-redelivered_example =
    handle_event-redelivered uuid sample_iso 5 none true "events.messenger.message.sent" "timeout"
      (some raw) happened [] stored stored raw-happened refl (settled stored)

-- The delivery that stores the event is acknowledged.
acked :
    (handle_event uuid sample_iso 5 none true false "events.x" "timeout" (some raw) []).settled
    ≡ ack
unfolding handle_event on_event on_ingest ingest_event event_row insert_event parse_envelope
    sample_iso instant_of micros_of count get is_uuid any
acked = refl

handle_event-kept_example :
    (e : PlatformEvent) × (parse_envelope sample_iso (some raw) ≡ valid e)
    × (IsStored uuid sample_iso false e []
          (handle_event uuid sample_iso 5 none true false "events.x" "timeout" (some raw) []).events
        ⊎ IsGivenUp uuid sample_iso 5 1 false "events.x" "timeout" e []
            (handle_event uuid sample_iso 5 none true false "events.x" "timeout"
              (some raw)
              []).events
            (handle_event uuid sample_iso 5 none true false "events.x" "timeout"
              (some raw)
              []).dead_letter)
handle_event-kept_example =
    handle_event-kept uuid sample_iso 5 none true false "events.x" "timeout" (some raw) [] acked

abbrev letter : DeadLetter
letter = record { original_subject = "events.x"; last_error = "timeout"; envelope = happened }

handle_dlq_message-IsSettled_example :
    Settles sample_iso "d1" 9000 true
      (publish_dlq sample_iso 3 letter).0
      (some (publish_dlq sample_iso 3 letter).1)
      []
      (some 7)
      (handle_dlq_message sample_iso "d1" 9000 true
        (publish_dlq sample_iso 3 letter).0
        (some 7)
        (some (publish_dlq sample_iso 3 letter).1)
        [])
handle_dlq_message-IsSettled_example =
    handle_dlq_message-IsSettled sample_iso "d1" 9000 true (publish_dlq sample_iso 3 letter).0
      (some 7) (some (publish_dlq sample_iso 3 letter).1) []

replay_dlq_record-restores_example :
    (handled : List DlqRecordRow × Settled) × (handle_dlq_message sample_iso "d1" 9000 false
        (publish_dlq sample_iso 3 letter).0
        (some 7)
        (some (publish_dlq sample_iso 3 letter).1)
        []
      ≡ handled)
    × (handled.1 ≡ ack)
    × ((replay_dlq_record sample_iso 12000 "d1" true handled.0).published
        ≡ record { subject = "events.x"; envelope = happened } ∷ [])
    × ((replay_dlq_record sample_iso 12000 "d1" true handled.0).reply
        ≡ passed (record {
          id = "d1";
          original_subject = "events.x";
          replayed_at = sample_iso.to_iso (read_date 12000);
        }))
unfolding any
replay_dlq_record-restores_example =
    replay_dlq_record-restores sample_iso (some raw) happened "events.x" "timeout" "d1" 3 9000 12000
      7 [] raw-happened refl refl refl refl

abbrev pub dead : DlqRecordRow
dead = record {
  id = "d1";
  subject = "events.dlq.event_store.ingest";
  sink = "event_store.ingest";
  jetstream_stream = "DLQ";
  jetstream_sequence = 7;
  original_subject = "events.x";
  owner_id = none;
  correlation_id = none;
  last_error = "timeout";
  failed_at = 3000;
  payload = none;
  envelope = some raw;
  ingested_at = 9000;
  replayed_at = none;
}

abbrev replayed : Replayed
unfolding sample_iso read_date
replayed = record { id = "d1"; original_subject = "events.x"; replayed_at = letters 12 }

replays : (replay_dlq_record sample_iso 12000 "d1" true (dead ∷ [])).reply ≡ passed replayed
unfolding replay_dlq_record check_replay get_dlq_record_row_by_id check_envelope finish_replay
    mark_dlq_replayed parse_envelope sample_iso instant_of count get is_uuid any find read_date
    letters replayed
replays = refl

replay_dlq_record-again_example :
    replay_dlq_record sample_iso 15000 "d1" true
      (replay_dlq_record sample_iso 12000 "d1" true (dead ∷ [])).records
    ≡ record {
      reply = refused already_replayed;
      published = [];
      records = (replay_dlq_record sample_iso 12000 "d1" true (dead ∷ [])).records;
    }
replay_dlq_record-again_example =
    replay_dlq_record-again sample_iso "d1" 12000 15000 true (dead ∷ []) replayed replays

abbrev idle : Requests
idle = record { records = dead ∷ []; in_flight = []; answered = [] }

abbrev message : Published
message = record { subject = "events.x"; envelope = happened }

-- The request has published, and then it has marked.
abbrev running : Requests
running = record { records = dead ∷ []; in_flight = ("d1", message) ∷ []; answered = [] }

abbrev finished : Requests
finished = record {
  records = (mark_dlq_replayed 12000 "d1" (dead ∷ [])).1;
  in_flight = [];
  answered = credit "d1" (mark_dlq_replayed 12000 "d1" (dead ∷ [])).0 [];
}

checks : check_replay sample_iso "d1" (dead ∷ []) ≡ passed message
unfolding check_replay get_dlq_record_row_by_id check_envelope parse_envelope sample_iso instant_of
    count get is_uuid find
checks = refl

Steps-IsConsistent_example : IsConsistent finished
unfolding any
Steps-IsConsistent_example =
    Steps-IsConsistent sample_iso idle finished
      (step idle running finished (publish "d1" message idle checks) (
        step running finished finished (mark 12000 "d1" message [] [] running refl)
          (stop finished)))
      (record { once = tt; marked = (refl, tt) })
