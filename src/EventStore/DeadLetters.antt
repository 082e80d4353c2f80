-- ===== src/EventStore/DeadLetters.antt =====
-- event-store/src/services/dlq-publish.ts, dlq-ingest.ts and nats/dlq-consumer.ts: the message of a dead letter,
-- and from a message of the DLQ stream to its record.
pub mod Settling
use Prim.Native.Char.{code}
use datha_platform.Base.{
  ℕ, String, Bool, true, false, ◌&&◌, ◌==◌, List, [], ◌∷◌, ◌++◌, Option, none, some, eqb,
  if◌then◌else◌, any,
}
use datha_platform.Base.Iso.{IsoDate}
use datha_platform.Base.Json.{Json, null, string, array, object, Members, done, member, get}
use datha_platform.Base.Texts.{concat, strip_prefix}
use datha_platform.Messenger.Envelope.{nonempty_string, iso_or_null}
use datha_platform.Messenger.CallsConsumer.{Settled, ack, term, nak}
use datha_platform.EventStore.Rows.{DlqRecordRow}
use datha_platform.EventStore.Arrivals.{DeadLetter, envelope_json, json_or_null}

pub record DlqMessageBody : Type 0 where
  pub original_subject : String
  pub correlation_id : Option String
  pub owner_id : Option String
  pub payload : Option Json
  pub last_error : String
  pub failed_at : String
  pub envelope : Option Json

-- What the handler's `try` may throw: a SyntaxError, an Error whose message starts with "DLQ", or an
-- error of the database.
pub data Thrown : Type 0 where
  not_json dlq_error database_error : Thrown

pub data Tried {ℓ} (A : Type ℓ) : Type ℓ where
  thrown : Thrown → Tried A
  done_with : A → Tried A

infixl 5 ◌>>=◌
abbrev pub ◌>>=◌ {ℓ κ} : {A : Type ℓ} {B : Type κ} → Tried A → (A → Tried B) → Tried B
thrown e >>= f = thrown e
done_with a >>= f = f a

abbrev pub dlq_prefix : String
dlq_prefix = "events.dlq."

abbrev pub nonempty : Option String → Tried String
nonempty none = thrown dlq_error
nonempty (some s) = if s == "" then thrown dlq_error else done_with s

unfoldable pub sink_from_subject : String → Tried String
unfolding strip_prefix
sink_from_subject subject = nonempty (strip_prefix dlq_prefix subject)

unfoldable pub nullable_string : Option Json → Tried (Option String)
nullable_string none = done_with none
nullable_string (some null) = done_with none
nullable_string (some (string s)) = done_with (some s)
nullable_string _ = thrown dlq_error

abbrev pub required : Option String → Tried String
required none = thrown dlq_error
required (some s) = done_with s

-- An array passes the check and has none of the fields.
abbrev pub fields_of : Json → Tried Members
fields_of (object m) = done_with m
fields_of (array xs) = done_with done
fields_of _ = thrown dlq_error

-- `parseDlqBody`, on what `JSON.parse` makes of the bytes, with `none` where that throws.
unfoldable pub parse_dlq_body : IsoDate → Option Json → Tried DlqMessageBody
unfolding nullable_string
parse_dlq_body iso none = thrown not_json
parse_dlq_body iso (some raw) = do
  b ← fields_of raw
  original_subject ← required (nonempty_string (get "original_subject" b))
  last_error ← required (nonempty_string (get "last_error" b))
  failed_at ← required (iso_or_null iso (get "failed_at" b))
  correlation_id ← nullable_string (get "correlation_id" b)
  owner_id ← nullable_string (get "owner_id" b)
  done_with (record {
    original_subject = original_subject;
    correlation_id = correlation_id;
    owner_id = owner_id;
    payload = get "payload" b;
    last_error = last_error;
    failed_at = failed_at;
    envelope = get "envelope" b;
  })

-- `value != null ? JSON.stringify(value) : null`
abbrev pub json_column : Option Json → Option Json
json_column none = none
json_column (some null) = none
json_column (some v) = some v

abbrev pub stream_dlq : String
stream_dlq = "DLQ"

-- The unique index (jetstream_stream, jetstream_sequence).
abbrev pub has_sequence : ℕ → DlqRecordRow → Bool
has_sequence sequence r = r.jetstream_stream == stream_dlq && eqb r.jetstream_sequence sequence

abbrev pub cast_tried : Option ℕ → Tried ℕ
cast_tried none = thrown database_error
cast_tried (some t) = done_with t

-- A statement that may fail otherwise than by a cast.
abbrev pub execute {ℓ} : {A : Type ℓ} → Bool → A → Tried A
execute true a = thrown database_error
execute false a = done_with a

-- INSERT ... ON CONFLICT (jetstream_stream, jetstream_sequence) DO NOTHING
unfoldable pub insert_record : DlqRecordRow → List DlqRecordRow → List DlqRecordRow
insert_record row records =
    if any (has_sequence row.jetstream_sequence) records then records else records ++ row ∷ []

-- `id` and `now` are the defaults of the columns id and ingested_at; `down` tells that the statement
-- fails.
unfoldable pub ingest_dlq_message :
    IsoDate
    → String
    → ℕ
    → Bool
    → String
    → ℕ
    → DlqMessageBody
    → List DlqRecordRow
    → Tried (List DlqRecordRow)
unfolding sink_from_subject insert_record
ingest_dlq_message iso id now down subject sequence body records = do
  sink ← sink_from_subject subject
  failed_at ← cast_tried (iso.cast body.failed_at)
  execute down (
      insert_record
        (record {
          id = id;
          subject = subject;
          sink = sink;
          jetstream_stream = stream_dlq;
          jetstream_sequence = sequence;
          original_subject = body.original_subject;
          owner_id = body.owner_id;
          correlation_id = body.correlation_id;
          last_error = body.last_error;
          failed_at = failed_at;
          payload = json_column body.payload;
          envelope = json_column body.envelope;
          ingested_at = now;
          replayed_at = none;
        })
        records)

abbrev pub on_thrown : Thrown → Settled
on_thrown not_json = term
on_thrown dlq_error = term
on_thrown database_error = nak

abbrev pub settle_dlq : List DlqRecordRow → Tried (List DlqRecordRow) → List DlqRecordRow × Settled
settle_dlq records (thrown e) = (records, on_thrown e)
settle_dlq records (done_with after) = (after, ack)

-- `handleDlqMessage`; `sequence` is `msg.info?.streamSequence`.
unfoldable pub handle_dlq_message :
    IsoDate
    → String
    → ℕ
    → Bool
    → String
    → Option ℕ
    → Option Json
    → List DlqRecordRow
    → List DlqRecordRow × Settled
unfolding parse_dlq_body ingest_dlq_message
handle_dlq_message iso id now down subject none raw records = (records, term)
handle_dlq_message iso id now down subject (some sequence) raw records = settle_dlq records (
    parse_dlq_body iso raw >>= λ body.
    ingest_dlq_message iso id now down subject sequence body records)

abbrev pub dlq_sink_event_store_ingest : String
dlq_sink_event_store_ingest = "event_store.ingest"

-- `publishDlq` of the ingest consumer: the subject and the body, `JSON.stringify` read back. The
-- consumer passes the event's fields and no `failed_at`, which is then the time of the call.
unfoldable pub publish_dlq : IsoDate → ℕ → DeadLetter → String × Json
unfolding concat envelope_json
publish_dlq iso now letter =
    let e = letter.envelope in
    (
      concat dlq_prefix dlq_sink_event_store_ingest,
      object (
          member "original_subject" (string letter.original_subject) (
            member "correlation_id" (json_or_null e.correlation_id) (
              member "owner_id" (json_or_null e.owner_id) (
                member "payload" (object e.payload) (
                  member "last_error" (string letter.last_error) (
                    member "envelope" (envelope_json e)
                      (member "failed_at" (string (iso.to_iso now)) done))))))),
    )
