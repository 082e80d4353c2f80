-- ===== src/EventStore/DeadLetters/Settling.antt =====
-- How each delivery of the DLQ stream ends.
use datha_platform.Base.{
  ℕ, String, Bool, true, false, ◌&&◌, ◌==◌, eqb, List, [], ◌∷◌, ◌++◌, Option, none, some, any, ◌≡◌,
  refl, Bool-cases, inl, inr, ◌⊎◌, sym, subst,
}
use datha_platform.Base.Iso.{IsoDate}
use datha_platform.Base.Json.{Json, null, boolean, number, string, array, object, get}
use datha_platform.Messenger.Envelope.{nonempty_string, iso_or_null}
use datha_platform.Messenger.CallsConsumer.{Settled, ack, term, nak}
use datha_platform.EventStore.Rows.{DlqRecordRow}
use datha_platform.Base.Texts.{strip_prefix}
use datha_platform.EventStore.DeadLetters.{
  required, fields_of, dlq_prefix, Thrown, Tried, thrown, done_with, DlqMessageBody, ◌>>=◌,
  sink_from_subject, parse_dlq_body, nonempty, nullable_string, json_column, insert_record,
  has_sequence, ingest_dlq_message, settle_dlq, on_thrown, handle_dlq_message,
}

-- The record that a message on this subject makes: the columns of its body, its own place in the
-- stream, and the defaults.
abbrev pub record_of : String → ℕ → String → ℕ → String → ℕ → DlqMessageBody → DlqRecordRow
record_of id now subject sequence sink failed_at body = record {
  id = id;
  subject = subject;
  sink = sink;
  jetstream_stream = "DLQ";
  jetstream_sequence = sequence;
  original_subject = body.original_subject;
  owner_id = body.owner_id;
  correlation_id = body.correlation_id;
  last_error = body.last_error;
  failed_at = failed_at;
  payload = json_column body.payload;
  envelope = json_column body.envelope;
  ingested_at = now;
  replayed_at = none;
}

-- Why a delivery ends as it does, and the records after it.
pub data Settles (iso : IsoDate) (id : String) (now : ℕ) (down : Bool) (subject : String)
    (raw : Option Json) (records : List DlqRecordRow)
    : Option ℕ → List DlqRecordRow × Settled → Type 0 where
  unnumbered : Settles iso id now down subject raw records none (records, term)
  no_dead_letter :
      (n : ℕ) (e : Thrown)
      → parse_dlq_body iso raw ≡ thrown e
      → Settles iso id now down subject raw records (some n) (records, term)
  no_sink :
      (n : ℕ) (e : Thrown) (body : DlqMessageBody)
      → parse_dlq_body iso raw ≡ done_with body
      → sink_from_subject subject ≡ thrown e
      → Settles iso id now down subject raw records (some n) (records, term)
  failed :
      (n : ℕ) (body : DlqMessageBody) (sink : String)
      → parse_dlq_body iso raw ≡ done_with body
      → sink_from_subject subject ≡ done_with sink
      → (iso.cast body.failed_at ≡ none) ⊎ (down ≡ true)
      → Settles iso id now down subject raw records (some n) (records, nak)
  known :
      (n : ℕ) (body : DlqMessageBody) (sink : String)
      → parse_dlq_body iso raw ≡ done_with body
      → sink_from_subject subject ≡ done_with sink
      → any (λ r. r.jetstream_stream == "DLQ" && eqb r.jetstream_sequence n) records ≡ true
      → Settles iso id now down subject raw records (some n) (records, ack)
  recorded :
      (n : ℕ) (body : DlqMessageBody) (sink : String) (failed_at : ℕ)
      → parse_dlq_body iso raw ≡ done_with body
      → sink_from_subject subject ≡ done_with sink
      → iso.cast body.failed_at ≡ some failed_at
      → any (λ r. r.jetstream_stream == "DLQ" && eqb r.jetstream_sequence n) records ≡ false
      → Settles iso id now down subject raw records
          (some n)
          (records ++ record_of id now subject n sink failed_at body ∷ [], ack)

-- What a check throws ends the delivery for good.
abbrev Ends : {A : Type 0} → Tried A → Type 0
Ends (thrown e) = on_thrown e ≡ term
Ends (done_with a) = Unit

bind-Ends :
    {A B : Type 0} (first : Tried A) (rest : A → Tried B)
    → Ends first
    → ((a : A) → Ends (rest a))
    → Ends (first >>= rest)
bind-Ends (thrown e) rest h f = h
bind-Ends (done_with a) rest h f = f a

required-Ends : (o : Option String) → Ends (required o)
required-Ends none = refl
required-Ends (some s) = tt

nullable_string-Ends : (o : Option Json) → Ends (nullable_string o)
unfolding nullable_string
nullable_string-Ends none = tt
nullable_string-Ends (some null) = tt
nullable_string-Ends (some (string s)) = tt
nullable_string-Ends (some (boolean b)) = refl
nullable_string-Ends (some (number n)) = refl
nullable_string-Ends (some (array xs)) = refl
nullable_string-Ends (some (object m)) = refl

fields_of-Ends : (j : Json) → Ends (fields_of j)
fields_of-Ends null = refl
fields_of-Ends (string s) = refl
fields_of-Ends (boolean b) = refl
fields_of-Ends (number n) = refl
fields_of-Ends (array xs) = tt
fields_of-Ends (object m) = tt

parse_dlq_body-Ends : (iso : IsoDate) (raw : Option Json) → Ends (parse_dlq_body iso raw)
unfolding parse_dlq_body
parse_dlq_body-Ends iso none = refl
parse_dlq_body-Ends iso (some raw) = bind-Ends (fields_of raw) _ (fields_of-Ends raw) (λ b.
    bind-Ends (required (nonempty_string (get "original_subject" b))) _ (required-Ends _) (λ _.
      bind-Ends (required (nonempty_string (get "last_error" b))) _ (required-Ends _) (λ _.
        bind-Ends (required (iso_or_null iso (get "failed_at" b))) _ (required-Ends _) (λ _.
          bind-Ends (nullable_string (get "correlation_id" b)) _ (nullable_string-Ends _) (λ _.
            bind-Ends (nullable_string (get "owner_id" b)) _ (nullable_string-Ends _) (λ _. tt))))))

nonempty-Ends : (o : Option String) → Ends (nonempty o)
nonempty-Ends none = refl
nonempty-Ends (some s) = elim (Bool-cases (s == "")) [ inl e ↦ rw e refl | inr e ↦ rw e tt ]

sink_from_subject-Ends : (subject : String) → Ends (sink_from_subject subject)
unfolding sink_from_subject
sink_from_subject-Ends subject = nonempty-Ends (strip_prefix dlq_prefix subject)

module _ (iso : IsoDate) (id : String) (now : ℕ) (down : Bool) (subject : String)
    (raw : Option Json) (records : List DlqRecordRow) (n : ℕ) where
  abbrev Ended : List DlqRecordRow × Settled → Type 0
  Ended = Settles iso id now down subject raw records (some n)

  inserted-Settles :
      (body : DlqMessageBody) (sink : String) (t : ℕ)
      → parse_dlq_body iso raw ≡ done_with body
      → sink_from_subject subject ≡ done_with sink
      → iso.cast body.failed_at ≡ some t
      → Ended (insert_record (record_of id now subject n sink t body) records, ack)
  unfolding insert_record
  inserted-Settles body sink t parsed sunk read = elim (Bool-cases (any (has_sequence n) records)) [
    | inl e ↦ rw e (known n body sink parsed sunk e)
    | inr e ↦ rw e (recorded n body sink t parsed sunk read e)
  ]

  on_subject-Settles :
      (body : DlqMessageBody) (sunk : Tried String) (t : Option ℕ) (b : Bool)
      → parse_dlq_body iso raw ≡ done_with body
      → sink_from_subject subject ≡ sunk
      → iso.cast body.failed_at ≡ t
      → down ≡ b
      → Ended (settle_dlq records (ingest_dlq_message iso id now down subject n body records))
  unfolding ingest_dlq_message
  on_subject-Settles body (thrown e) t b parsed sunk read fails =
      rw (sunk, subst Ends sunk (sink_from_subject-Ends subject)) (no_sink n e body parsed sunk)
  on_subject-Settles body (done_with sink) none b parsed sunk read fails =
      rw (sunk, read) (failed n body sink parsed sunk (inl read))
  on_subject-Settles body (done_with sink) (some t) true parsed sunk read fails =
      subst
        (λ w. Ended (settle_dlq records (ingest_dlq_message iso id now w subject n body records)))
        (sym fails) (rw (sunk, read) (failed n body sink parsed sunk (inr fails)))
  on_subject-Settles body (done_with sink) (some t) false parsed sunk read fails =
      subst
        (λ w. Ended (settle_dlq records (ingest_dlq_message iso id now w subject n body records)))
        (sym fails) (rw (sunk, read) (inserted-Settles body sink t parsed sunk read))

  on_body-Settles :
      (parsed : Tried DlqMessageBody)
      → parse_dlq_body iso raw ≡ parsed
      → Ended (
          settle_dlq records
            (parsed >>= λ body. ingest_dlq_message iso id now down subject n body records))
  on_body-Settles (thrown e) h =
      rw (subst Ends h (parse_dlq_body-Ends iso raw)) (no_dead_letter n e h)
  on_body-Settles (done_with body) h =
      on_subject-Settles body (sink_from_subject subject) (iso.cast body.failed_at) down h refl refl
        refl

-- Whatever is delivered on the DLQ stream ends for one of six reasons. A message without a sequence,
-- one whose body is no dead letter and one whose subject names no sink are terminated; a dead letter
-- that the database fails to store is handed back; and one is acknowledged only where the records
-- had its sequence already, or have afterwards, at their end, the record of its own content. Only
-- then do the records change.
pub handle_dlq_message-IsSettled :
    (iso : IsoDate) (id : String) (now : ℕ) (down : Bool) (subject : String) (sequence : Option ℕ)
    (raw : Option Json) (records : List DlqRecordRow)
    → Settles iso id now down subject raw records sequence
        (handle_dlq_message iso id now down subject sequence raw records)
unfolding handle_dlq_message
handle_dlq_message-IsSettled iso id now down subject none raw records = unnumbered
handle_dlq_message-IsSettled iso id now down subject (some n) raw records =
    on_body-Settles iso id now down subject raw records n (parse_dlq_body iso raw) refl
