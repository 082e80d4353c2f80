-- ===== src/Messenger/Tests/Consumer.antt =====
-- The consumer of call events.
use datha_platform.Base.{true, false, refl, none, some, ◌≡◌}
use datha_platform.Base.Iso.{sample_iso, letters, count, instant_of, micros_of}
use datha_platform.Base.Json.{Json, null, number, plain, string, object, Members, member, done, get}
use datha_platform.Messenger.Calls.{CallProjection, project_call}
use datha_platform.Messenger.Envelope.{PlatformEvent, is_uuid, parse_envelope}
use datha_platform.Messenger.CallsConsumer.{
  to_projection, read_projection, admit, owner_ids, handle_message, dlq,
}
use datha_platform.Messenger.CallsConsumer.Projecting.{IsUsable, to_projection-IsUsable}
use datha_platform.Messenger.CallsConsumer.Outcomes.{IsSound, handle_message-IsSound}
use datha_platform.Messenger.Tests.{db}

abbrev payload : Members
payload = member "call_id" (string "11111111-1111-4111-8111-111111111111") (
    member "conversation_id" (string "22222222-2222-4222-8222-222222222222") (
      member "caller_id" (string "a1") (
        member "callee_id" (string "b2")
          (member "reason" (string "expired") (member "started_at" (string "TTT") done)))))

abbrev hung_up : PlatformEvent
hung_up = record {
  id = "33333333-3333-4333-8333-333333333333";
  type = "messenger.call.ended";
  service = "realtime-service";
  entity_id = none;
  owner_id = none;
  correlation_id = none;
  timestamp = "TTTT";
  payload = payload;
}

abbrev projection : CallProjection
unfolding read_projection
projection = read_projection sample_iso hung_up

to_projection-IsUsable_example : IsUsable sample_iso hung_up projection
unfolding to_projection read_projection admit projection sample_iso letters count instant_of get
    owner_ids is_uuid
to_projection-IsUsable_example = to_projection-IsUsable sample_iso hung_up projection refl

-- A message whose duration is no INTEGER, so that the statement fails, on its last delivery.
abbrev long_call : Json
long_call = object (
    member "id" (string "33333333-3333-4333-8333-333333333333") (
      member "type" (string "messenger.call.ended") (
        member "service" (string "realtime-service") (
          member "entity_id" null (
            member "owner_id" null (
              member "correlation_id" null (
                member "timestamp" (string "TTTT") (
                  member "payload"
                    (object (member "duration_seconds" (number (plain 3000000000 false)) payload))
                    done))))))))

long_call-dlq : (handle_message sample_iso 5 (some 5) true (some long_call) db).counted ≡ dlq
unfolding handle_message sample_iso letters count instant_of micros_of get owner_ids is_uuid
    parse_envelope to_projection project_call
long_call-dlq = refl

handle_message-IsSound_example :
    IsSound sample_iso 5 5 true
      (some long_call)
      db
      (handle_message sample_iso 5 (some 5) true (some long_call) db)
handle_message-IsSound_example =
    handle_message-IsSound sample_iso 5 (some 5) true (some long_call) db
