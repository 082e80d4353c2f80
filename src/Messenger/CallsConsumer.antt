-- ===== src/Messenger/CallsConsumer.antt =====
-- messenger-service/src/nats/calls-consumer.ts: from a delivered message to the call tables.
pub mod Projecting
pub mod Ends
pub mod Outcomes
use datha_platform.Base.{
  ℕ, String, Bool, true, false, not, ◌&&◌, ◌||◌, ◌==◌, List, [], ◌∷◌, Option, none, some, leb,
  if◌then◌else◌, is_none, or_default,
}
use datha_platform.Base.Iso.{IsoDate}
use datha_platform.Base.Json.{
  Json, number, array, Members, get, string_or_null, strings_of, whole_part,
}
use datha_platform.Messenger.Result.{DbError, Result, ok, err, fk_violation}
use datha_platform.Messenger.Rows.{CallEndReason, Db}
use datha_platform.Messenger.Calls.{CallProjection, as_media, as_end_reason, is_empty, project_call}
use datha_platform.Messenger.Envelope.{
  PlatformEvent, Checked, valid, invalid, is_uuid, iso_or_null, parse_envelope,
}

-- The event types of streams.ts.
abbrev pub event_call_started : String
event_call_started = "messenger.call.started"

abbrev pub event_call_ended : String
event_call_ended = "messenger.call.ended"

abbrev pub event_call_missed : String
event_call_missed = "messenger.call.missed"

unfoldable pub owner_ids : Option Json → List String
owner_ids (some (array xs)) = strings_of xs
owner_ids _ = []

abbrev pub is_usable_id : Option String → Bool
is_usable_id none = false
is_usable_id (some s) = is_uuid s

-- Truthiness of a string or null.
abbrev pub is_truthy : Option String → Bool
is_truthy none = false
is_truthy (some s) = not (s == "")

abbrev pub duration_of : Option Json → ℕ
duration_of (some (number n)) = whole_part n
duration_of _ = 0

abbrev pub text_of : Option String → String
text_of o = or_default o ""

-- The three early returns of `toProjection`, on the fields it has read.
unfoldable pub admit :
    Bool
    → Option String
    → Option String
    → Option String
    → Option String
    → Option String
    → List String
    → CallProjection
    → Option CallProjection
admit known call_id conversation_id caller started_at callee participants p =
    if not known
    then none
    else if not (
        is_usable_id call_id
        && is_usable_id conversation_id
        && is_truthy caller
        && is_truthy started_at)
    then none
    else if not (is_truthy callee) && is_empty participants
    then none
    else some p

-- The end reason of an event that ends a call.
abbrev pub reason_of : Bool → Option CallEndReason → CallEndReason
reason_of is_missed o =
    or_default o (if is_missed then CallEndReason.missed else CallEndReason.hangup)

abbrev pub is_ended : PlatformEvent → Bool
is_ended envelope = envelope.type == event_call_ended || envelope.type == event_call_missed

-- The projection of an event, before the early returns are considered.
unfoldable pub read_projection : IsoDate → PlatformEvent → CallProjection
unfolding owner_ids as_media as_end_reason
read_projection iso envelope =
    let payload = envelope.payload in
    record {
      call_id = text_of (string_or_null (get "call_id" payload));
      conversation_id = text_of (string_or_null (get "conversation_id" payload));
      caller_owner_id = text_of (string_or_null (get "caller_id" payload));
      callee_owner_id = string_or_null (get "callee_id" payload);
      participant_owner_ids = owner_ids (get "participant_ids" payload);
      joined_owner_ids = owner_ids (get "joined_ids" payload);
      media = as_media (get "media" payload);
      started_at = text_of (iso_or_null iso (get "started_at" payload));
      answered_at = iso_or_null iso (get "answered_at" payload);
      ended_at = if is_ended envelope then some envelope.timestamp else none;
      end_reason =
          if is_ended envelope
          then some (
              reason_of (envelope.type == event_call_missed) (as_end_reason (get "reason" payload)))
          else none;
      duration_seconds = duration_of (get "duration_seconds" payload);
    }

unfoldable pub to_projection : IsoDate → PlatformEvent → Option CallProjection
unfolding read_projection admit
to_projection iso envelope =
    let payload = envelope.payload in
    admit (envelope.type == event_call_started || is_ended envelope)
      (string_or_null (get "call_id" payload)) (string_or_null (get "conversation_id" payload))
      (string_or_null (get "caller_id" payload)) (iso_or_null iso (get "started_at" payload))
      (string_or_null (get "callee_id" payload)) (owner_ids (get "participant_ids" payload))
      (read_projection iso envelope)

-- How a delivery is settled with the broker; `unsettled` is a handler that threw.
pub data Settled : Type 0 where
  ack term nak unsettled : Settled

-- The counter `callsProjected`.
pub data Projected : Type 0 where
  invalid_event ignored projected orphaned dlq uncounted : Projected

pub record Outcome : Type 0 where
  pub db : Db
  pub settled : Settled
  pub counted : Projected
  -- the event handed to the DLQ sink, if one was
  pub dead_letter : Option PlatformEvent

-- The `catch` of `handleMessage`. `published` tells whether the broker takes the DLQ message: if it
-- does not, `publishDlq` throws and nothing is settled.
unfoldable pub on_failure : ℕ → ℕ → Bool → PlatformEvent → Db → DbError → Outcome
on_failure max_deliver delivery_count published envelope db fk_violation = record {
  db = db;
  settled = term;
  counted = orphaned;
  dead_letter = none;
}
on_failure max_deliver delivery_count published envelope db _ =
    if leb max_deliver delivery_count
    then if published
      then record { db = db; settled = ack; counted = dlq; dead_letter = some envelope }
      else record { db = db; settled = unsettled; counted = uncounted; dead_letter = none }
    else record { db = db; settled = nak; counted = uncounted; dead_letter = none }

-- The rest of `handleMessage`, from its end: after `projectCall`, after `toProjection`, after
-- `parseEnvelope`. `max_deliver` is NATS_CONSUMER_MAX_DELIVER_MESSENGER_SERVICE_CALLS and `count` the
-- delivery count of `msg.info`.
module _ (iso : IsoDate) (max_deliver count : ℕ) (published : Bool) (db : Db) where
  unfoldable pub on_result : PlatformEvent → Result Db → Outcome
  unfolding on_failure
  on_result envelope (ok db') = record {
    db = db';
    settled = ack;
    counted = projected;
    dead_letter = none;
  }
  on_result envelope (err e) = on_failure max_deliver count published envelope db e

  unfoldable pub on_projection : PlatformEvent → Option CallProjection → Outcome
  unfolding on_result
  on_projection envelope none = record {
    db = db;
    settled = ack;
    counted = ignored;
    dead_letter = none;
  }
  on_projection envelope (some input) = on_result envelope (project_call iso input db)

  unfoldable pub on_envelope : Checked PlatformEvent → Outcome
  unfolding on_projection
  on_envelope (invalid e) = record {
    db = db;
    settled = term;
    counted = invalid_event;
    dead_letter = none;
  }
  on_envelope (valid envelope) = on_projection envelope (to_projection iso envelope)

unfoldable pub handle_message : IsoDate → ℕ → Option ℕ → Bool → Option Json → Db → Outcome
unfolding on_envelope
handle_message iso max_deliver info published raw db =
    on_envelope iso max_deliver (or_default info 1) published db (parse_envelope iso raw)
