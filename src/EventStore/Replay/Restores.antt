-- ===== src/EventStore/Replay/Restores.antt =====
-- From an event that could not be ingested, over its dead letter and its record, to its replay.
use datha_platform.Base.{
  ℕ, ◌*◌, String, Bool, true, false, ◌==◌, List, [], ◌∷◌, ◌++◌, Option, none, some, any, find, ◌≡◌,
  refl, ap, arith, eq_refl, Bool-cases,
}
use datha_platform.Base.Iso.{IsoDate}
use datha_platform.Base.Json.{Json, get}
use datha_platform.Base.Queries.{any-last}
use datha_platform.Messenger.Envelope.{PlatformEvent, valid, parse_envelope}
use datha_platform.Messenger.CallsConsumer.{Settled, ack}
use datha_platform.Messenger.Rows.{read_date}
use datha_platform.EventStore.Rows.{DlqRecordRow}
use datha_platform.EventStore.Arrivals.{DeadLetter, envelope_json, json_or_null}
use datha_platform.EventStore.Arrivals.Readable.{parse_envelope-envelope_json}
use datha_platform.Base.Texts.{strip_prefix}
use datha_platform.EventStore.DeadLetters.{
  DlqMessageBody, Tried, ◌>>=◌, settle_dlq, done_with, has_sequence, handle_dlq_message,
  ingest_dlq_message, insert_record, nullable_string, parse_dlq_body, publish_dlq,
  sink_from_subject, dlq_sink_event_store_ingest, stream_dlq,
}
use datha_platform.EventStore.Replay.{
  check_row, on_stored, passed, is_open, check_replay, check_envelope, finish_replay,
  get_dlq_record_row_by_id, mark_dlq_replayed, replay_dlq_record,
}

find-last :
    {A : Type 0} (p : A → Bool) (xs : List A) (y : A)
    → any p xs ≡ false
    → p y ≡ true
    → find p (xs ++ y ∷ []) ≡ some y
unfolding any find
find-last p [] y h k = ground (arith, k)
find-last p (x ∷ xs) y h k = ground (arith, find-last p xs y, Bool-cases (p x))

nullable_string-json_or_null :
    (o : Option String) → nullable_string (some (json_or_null o)) ≡ done_with o
unfolding nullable_string
nullable_string-json_or_null none = refl
nullable_string-json_or_null (some s) = refl

-- The body that the ingest consumer publishes.
abbrev body_of : IsoDate → ℕ → DeadLetter → DlqMessageBody
body_of iso now letter = record {
  original_subject = letter.original_subject;
  correlation_id = letter.envelope.correlation_id;
  owner_id = letter.envelope.owner_id;
  payload = some (Json.object letter.envelope.payload);
  last_error = letter.last_error;
  failed_at = iso.to_iso now;
  envelope = some (envelope_json letter.envelope);
}

-- The record that it becomes.
abbrev record_of : IsoDate → String → ℕ → ℕ → ℕ → DeadLetter → DlqRecordRow
record_of iso id now at sequence letter = record {
  id = id;
  subject = "events.dlq.event_store.ingest";
  sink = dlq_sink_event_store_ingest;
  jetstream_stream = stream_dlq;
  jetstream_sequence = sequence;
  original_subject = letter.original_subject;
  owner_id = letter.envelope.owner_id;
  correlation_id = letter.envelope.correlation_id;
  last_error = letter.last_error;
  failed_at = at * 1000;
  payload = some (Json.object letter.envelope.payload);
  envelope = some (envelope_json letter.envelope);
  ingested_at = now;
  replayed_at = none;
}

module _ (iso : IsoDate) (letter : DeadLetter) (at : ℕ)
    (explained : (letter.last_error == "") ≡ false)
    (addressed : (letter.original_subject == "") ≡ false) where
  parse_dlq_body-publish_dlq :
      parse_dlq_body iso (some (publish_dlq iso at letter).1) ≡ done_with (body_of iso at letter)
  unfolding parse_dlq_body publish_dlq get
  parse_dlq_body-publish_dlq =
      rw
        (
          explained,
          addressed,
          iso.parse-to_iso at,
          nullable_string-json_or_null letter.envelope.correlation_id,
          nullable_string-json_or_null letter.envelope.owner_id,
        )
        refl

  records_body :
      (id : String) (now sequence : ℕ) (records : List DlqRecordRow) (parsed : Tried DlqMessageBody)
      → any (has_sequence sequence) records ≡ false
      → parsed ≡ done_with (body_of iso at letter)
      → settle_dlq records (
          parsed >>= λ body.
          ingest_dlq_message iso id now false (publish_dlq iso at letter).0 sequence body records)
        ≡ (records ++ record_of iso id now at sequence letter ∷ [], ack)
  unfolding ingest_dlq_message insert_record sink_from_subject strip_prefix publish_dlq
  records_body id now sequence records parsed new h = rw (h, iso.cast-to_iso at, new) refl

  records_dead_letter :
      (id : String) (now sequence : ℕ) (records : List DlqRecordRow)
      → any (has_sequence sequence) records ≡ false
      → handle_dlq_message iso id now false
          (publish_dlq iso at letter).0
          (some sequence)
          (some (publish_dlq iso at letter).1)
          records
        ≡ (records ++ record_of iso id now at sequence letter ∷ [], ack)
  unfolding handle_dlq_message
  records_dead_letter id now sequence records new =
      records_body id now sequence records (parse_dlq_body iso (some (publish_dlq iso at letter).1))
        new parse_dlq_body-publish_dlq

  checks_row :
      (id : String) (now sequence : ℕ)
      → parse_envelope iso (some (envelope_json letter.envelope)) ≡ valid letter.envelope
      → check_row iso (some (record_of iso id now at sequence letter))
        ≡ passed (record { subject = letter.original_subject; envelope = letter.envelope })
  unfolding check_envelope envelope_json
  checks_row id now sequence readable =
      ap (on_stored (record_of iso id now at sequence letter)) readable

  finishes :
      (id : String) (later : ℕ) (records : List DlqRecordRow)
      → any (is_open id) records ≡ true
      → finish_replay iso later id true records
          (passed (record { subject = letter.original_subject; envelope = letter.envelope }))
        ≡ record {
          reply = passed (record {
            id = id;
            original_subject = letter.original_subject;
            replayed_at = iso.to_iso (read_date later);
          });
          published = record { subject = letter.original_subject; envelope = letter.envelope } ∷ [];
          records = (mark_dlq_replayed later id records).1;
        }
  unfolding finish_replay mark_dlq_replayed
  finishes id later records h = rw h refl

  abbrev recorded : String → ℕ → ℕ → List DlqRecordRow → List DlqRecordRow
  recorded id now sequence records = records ++ record_of iso id now at sequence letter ∷ []

  checks_record :
      (id : String) (now sequence : ℕ) (records : List DlqRecordRow)
      → any (λ r. r.id == id) records ≡ false
      → parse_envelope iso (some (envelope_json letter.envelope)) ≡ valid letter.envelope
      → check_replay iso id (recorded id now sequence records)
        ≡ passed (record { subject = letter.original_subject; envelope = letter.envelope })
  unfolding check_replay get_dlq_record_row_by_id
  checks_record id now sequence records fresh readable =
      rw
        (find-last (λ r. r.id == id) records (record_of iso id now at sequence letter) fresh
          (eq_refl id))
        (checks_row id now sequence readable)

  replays_record :
      (id : String) (now later sequence : ℕ) (records : List DlqRecordRow)
      → any (λ r. r.id == id) records ≡ false
      → parse_envelope iso (some (envelope_json letter.envelope)) ≡ valid letter.envelope
      → replay_dlq_record iso later id true (recorded id now sequence records) ≡ record {
        reply = passed (record {
          id = id;
          original_subject = letter.original_subject;
          replayed_at = iso.to_iso (read_date later);
        });
        published = record { subject = letter.original_subject; envelope = letter.envelope } ∷ [];
        records = (mark_dlq_replayed later id (recorded id now sequence records)).1;
      }
  unfolding replay_dlq_record
  replays_record id now later sequence records fresh readable =
      rw (checks_record id now sequence records fresh readable) (
        finishes id later (recorded id now sequence records) (
          any-last (is_open id) records (record_of iso id now at sequence letter)
            (ground (arith, eq_refl id))))

-- An event that came on a nonempty subject and failed for a nonempty reason, whose dead letter is
-- published, recorded under a new sequence and a new id, and replayed: the record is acknowledged, the
-- replay publishes on that subject the event that was first read, and is answered as done.
pub replay_dlq_record-restores :
    (iso : IsoDate) (raw : Option Json) (e : PlatformEvent) (subject last_error id : String)
    (at now later sequence : ℕ) (records : List DlqRecordRow)
    → parse_envelope iso raw ≡ valid e
    → (subject == "") ≡ false
    → (last_error == "") ≡ false
    → any (has_sequence sequence) records ≡ false
    → any (λ r. r.id == id) records ≡ false
    → (handled : List DlqRecordRow × Settled) × (handle_dlq_message iso id now false
          (publish_dlq iso at
            (record { original_subject = subject; last_error = last_error; envelope = e })).0
          (some sequence)
          (some
            (publish_dlq iso at
              (record { original_subject = subject; last_error = last_error; envelope = e })).1)
          records
        ≡ handled)
      × (handled.1 ≡ ack)
      × ((replay_dlq_record iso later id true handled.0).published
          ≡ record { subject = subject; envelope = e } ∷ [])
      × ((replay_dlq_record iso later id true handled.0).reply
          ≡ passed (record {
            id = id;
            original_subject = subject;
            replayed_at = iso.to_iso (read_date later);
          }))
replay_dlq_record-restores iso raw e subject last_error id at now later sequence records read
      addressed explained new fresh =
    let letter : DeadLetter = record {
      original_subject = subject;
      last_error = last_error;
      envelope = e;
    } in
    let replayed =
      replays_record iso letter at explained addressed id now later sequence records fresh
        (parse_envelope-envelope_json iso raw e read) in
    (
      (recorded iso letter at explained addressed id now sequence records, ack),
      records_dead_letter iso letter at explained addressed id now sequence records new,
      refl,
      ap (λ a. a.published) replayed,
      ap (λ a. a.reply) replayed,
    )
