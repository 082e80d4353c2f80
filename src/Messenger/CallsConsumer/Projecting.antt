-- ===== src/Messenger/CallsConsumer/Projecting.antt =====
-- What a projection that leaves `toProjection` is known to hold.
use datha_platform.Base.{
  String, Bool, true, false, not, ◌||◌, Option, none, some, ◌≡◌, ◌≢◌, ◌==◌, arith, if◌then◌else◌,
  subst, is_none, is_some, List,
}
use datha_platform.Base.Iso.{IsoDate}
use datha_platform.Base.Json.{Json, null, string, get, string_or_null}
use datha_platform.Messenger.Rows.{CallEndReason}
use datha_platform.Messenger.Calls.{
  CallProjection, is_empty, named_reason, end_reasons, as_end_reason,
}
use datha_platform.Messenger.Envelope.{PlatformEvent, is_uuid, iso_or_null}
use datha_platform.Messenger.CallsConsumer.{
  event_call_started, event_call_missed, is_truthy, is_usable_id, text_of, admit, to_projection,
  read_projection, is_ended, owner_ids, reason_of,
}

-- The tests that an admitted projection has passed.
record Admitted (known : Bool) (call_id conversation_id caller started_at callee : Option String)
    (participants : List String) : Type 0 where
  is_known : known ≡ true
  call : is_usable_id call_id ≡ true
  conversation : is_usable_id conversation_id ≡ true
  calls : is_truthy caller ≡ true
  starts : is_truthy started_at ≡ true
  people : (is_truthy callee || not (is_empty participants)) ≡ true

admit-Admitted :
    (known : Bool) (call_id conversation_id caller started_at callee : Option String)
    (participants : List String) (p q : CallProjection)
    → admit known call_id conversation_id caller started_at callee participants p ≡ some q
    → Admitted known call_id conversation_id caller started_at callee participants × (p ≡ q)
unfolding admit
admit-Admitted known call_id conversation_id caller started_at callee participants p q h =
    ground arith

uuid_text : (o : Option String) → is_usable_id o ≡ true → is_uuid (text_of o) ≡ true
uuid_text none h = cc
uuid_text (some s) h = h

truthy_text : (o : Option String) → is_truthy o ≡ true → (text_of o == "") ≡ false
truthy_text none h = cc
truthy_text (some s) h = ground arith

iso_text :
    (iso : IsoDate) (o : Option Json)
    → is_truthy (iso_or_null iso o) ≡ true
    → is_none (iso.parse (text_of (iso_or_null iso o))) ≡ false
iso_text iso none h = cc
iso_text iso (some (string s)) h = ground arith
iso_text iso (some null) h = cc
iso_text iso (some _) h = cc

named_reason-ne-expired : (s : String) → named_reason s end_reasons ≢ some CallEndReason.expired
named_reason-ne-expired s h = ground arith

as_end_reason-ne-expired : (o : Option Json) → as_end_reason o ≢ some CallEndReason.expired
unfolding as_end_reason
as_end_reason-ne-expired none h = cc
as_end_reason-ne-expired (some (string s)) h = named_reason-ne-expired s h
as_end_reason-ne-expired (some null) h = cc
as_end_reason-ne-expired (some _) h = cc

-- A usable projection: both ids are uuids, the caller is named, the start is a date, a callee or some
-- participant is named, and it carries an end time exactly when it carries an end reason, which is never
-- `expired`.
pub record IsUsable (iso : IsoDate) (envelope : PlatformEvent) (p : CallProjection) : Type 0 where
  pub known :
      (envelope.type == "messenger.call.started"
        || envelope.type == "messenger.call.ended"
        || envelope.type == "messenger.call.missed")
      ≡ true
  pub call_id : is_uuid p.call_id ≡ true
  pub conversation_id : is_uuid p.conversation_id ≡ true
  pub caller : (p.caller_owner_id == "") ≡ false
  pub started : is_none (iso.parse p.started_at) ≡ false
  pub somebody : (is_truthy p.callee_owner_id || not (is_empty p.participant_owner_ids)) ≡ true
  pub ends :
      is_some p.ended_at
      ≡ (envelope.type == "messenger.call.ended" || envelope.type == "messenger.call.missed")
  pub ended : is_some p.ended_at ≡ is_some p.end_reason
  pub own_reason : p.end_reason ≢ some CallEndReason.expired

ends_together :
    (b : Bool) (t : String) (r : CallEndReason)
    → is_some (if b then some t else none) ≡ is_some (if b then some r else none)
ends_together b t r = ground arith

ends_when : (b : Bool) (t : String) → is_some (if b then some t else none) ≡ b
ends_when b t = ground arith

own_reason_of :
    (b missed : Bool) (o : Option CallEndReason)
    → o ≢ some CallEndReason.expired
    → ◌≢◌ {A = Option CallEndReason}
        (if b then some (reason_of missed o) else none)
        (some CallEndReason.expired)
own_reason_of b missed none h = ground arith
own_reason_of b missed (some r) h = ground arith

read_projection-IsUsable :
    (iso : IsoDate) (envelope : PlatformEvent)
    → (envelope.type == "messenger.call.started"
        || envelope.type == "messenger.call.ended"
        || envelope.type == "messenger.call.missed")
      ≡ true
    → is_usable_id (string_or_null (get "call_id" envelope.payload)) ≡ true
    → is_usable_id (string_or_null (get "conversation_id" envelope.payload)) ≡ true
    → is_truthy (string_or_null (get "caller_id" envelope.payload)) ≡ true
    → is_truthy (iso_or_null iso (get "started_at" envelope.payload)) ≡ true
    → (is_truthy (string_or_null (get "callee_id" envelope.payload))
        || not (is_empty (owner_ids (get "participant_ids" envelope.payload))))
      ≡ true
    → IsUsable iso envelope (read_projection iso envelope)
unfolding read_projection
read_projection-IsUsable iso envelope known call conversation calls starts people = record {
  call_id = uuid_text _ call;
  conversation_id = uuid_text _ conversation;
  caller = truthy_text (string_or_null (get "caller_id" envelope.payload)) calls;
  started = iso_text iso (get "started_at" envelope.payload) starts;
  somebody = people;
  known = known;
  ends = ends_when (is_ended envelope) envelope.timestamp;
  ended = ends_together (is_ended envelope) envelope.timestamp _;
  own_reason =
      own_reason_of (is_ended envelope) (envelope.type == event_call_missed)
        (as_end_reason (get "reason" envelope.payload))
        (as_end_reason-ne-expired (get "reason" envelope.payload));
}

-- Every projection that the consumer makes of an event has passed its checks: the event starts, ends or
-- misses a call, call and conversation
-- are uuids, the caller is named, the start is a date, a callee or at least one participant is named,
-- and an end time stands exactly in an event that ends or misses a call, with an end reason, which is
-- never `expired`.
pub to_projection-IsUsable :
    (iso : IsoDate) (envelope : PlatformEvent) (p : CallProjection)
    → to_projection iso envelope ≡ some p
    → IsUsable iso envelope p
unfolding to_projection
to_projection-IsUsable iso envelope p h =
    let payload = envelope.payload in
    let (tests, same) =
      admit-Admitted (envelope.type == event_call_started || is_ended envelope)
        (string_or_null (get "call_id" payload)) (string_or_null (get "conversation_id" payload))
        (string_or_null (get "caller_id" payload)) (iso_or_null iso (get "started_at" payload))
        (string_or_null (get "callee_id" payload)) (owner_ids (get "participant_ids" payload))
        (read_projection iso envelope) p h in
    subst (IsUsable iso envelope) same (
      read_projection-IsUsable iso envelope (ground (arith, tests.is_known)) tests.call
        tests.conversation tests.calls tests.starts tests.people)
