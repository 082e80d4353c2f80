-- ===== src/Messenger/Wire.antt =====
-- The functions of messenger-service/src/types/messenger.ts, and its wire shapes.
pub mod Settling
use mathlib.Core.Option
use datha_platform.Base.{
  ℕ, ◌+◌, ◌*◌, String, Bool, true, false, List, [], Option, none, some, ltb, if◌then◌else◌, is_none,
  is_some, or_default,
}
use datha_platform.Base.Iso.{IsoDate}
use datha_platform.Messenger.Rows.{
  ConversationType, ParticipantRole, MessageKind, CallEndReason, CallStatus, CallMedia,
  ParticipantRow, MessageRow, CallRow,
}

pub record ConversationParticipant : Type 0 where
  pub owner_id : String
  pub role : ParticipantRole
  pub last_read_at : Option String

pub record Message : Type 0 where
  pub id : String
  pub conversation_id : String
  pub sender_owner_id : String
  pub kind : MessageKind
  pub body : String
  pub attachment_file_id : Option String
  pub thumbnail_file_id : Option String
  pub media_width : Option ℕ
  pub media_height : Option ℕ
  pub client_message_id : String
  pub created_at : String
  pub edited_at : Option String

pub record Call : Type 0 where
  pub id : String
  pub conversation_id : String
  pub caller_owner_id : String
  pub callee_owner_id : Option String
  pub media : CallMedia
  pub status : CallStatus
  pub started_at : String
  pub answered_at : Option String
  pub ended_at : Option String
  pub end_reason : Option CallEndReason
  pub duration_seconds : ℕ
  pub participant_owner_ids : List String
  pub joined_owner_ids : List String

pub record Conversation : Type 0 where
  pub id : String
  pub tenant_id : String
  pub type : ConversationType
  pub title : Option String
  pub created_by : String
  pub created_at : String
  pub last_message_at : Option String
  pub last_activity_at : String
  pub participants : List ConversationParticipant
  pub last_message : Option Message
  pub last_call : Option Call
  pub unread : Bool

module _ (iso : IsoDate) where
  open iso use {to_iso}

  unfoldable pub to_message : MessageRow → Message
  to_message row = record {
    id = row.id;
    conversation_id = row.conversation_id;
    sender_owner_id = row.sender_owner_id;
    kind = row.kind;
    body = row.body;
    attachment_file_id = row.attachment_file_id;
    thumbnail_file_id = row.thumbnail_file_id;
    media_width = row.media_width;
    media_height = row.media_height;
    client_message_id = row.client_message_id;
    created_at = to_iso row.created_at;
    edited_at = Option.map to_iso row.edited_at;
  }

  unfoldable pub to_participant : ParticipantRow → ConversationParticipant
  to_participant row = record {
    owner_id = row.owner_id;
    role = row.role;
    last_read_at = Option.map to_iso row.last_read_at;
  }

abbrev is_declined : Option CallEndReason → Bool
is_declined (some CallEndReason.declined) = true
is_declined _ = false

unfoldable pub call_status : CallRow → CallStatus
call_status row =
    if is_none row.ended_at
    then (if is_some row.answered_at then CallStatus.active else CallStatus.ringing)
    else if is_some row.answered_at
    then CallStatus.completed
    else if is_declined row.end_reason
    then CallStatus.declined
    else CallStatus.missed

unfoldable pub expiry_of : ℕ → ℕ → ℕ
expiry_of started_at max_lifetime_seconds = started_at + max_lifetime_seconds * 1000

-- `settleStaleCall`; the times are `Date`s.
unfoldable pub settle_stale_call : CallRow → ℕ → ℕ → CallRow
unfolding expiry_of
settle_stale_call row max_lifetime_seconds now =
    let expiry = expiry_of row.started_at max_lifetime_seconds in
    if is_some row.ended_at then row else if ltb now expiry then row else record row {
      ended_at = some expiry;
      end_reason = some CallEndReason.expired;
      duration_seconds = 0;
    }

module _ (iso : IsoDate) where
  open iso use {to_iso}

  unfoldable pub to_call : CallRow → Call
  unfolding call_status
  to_call row = record {
    id = row.id;
    conversation_id = row.conversation_id;
    caller_owner_id = row.caller_owner_id;
    callee_owner_id = row.callee_owner_id;
    media = row.media;
    status = call_status row;
    started_at = to_iso row.started_at;
    answered_at = Option.map to_iso row.answered_at;
    ended_at = Option.map to_iso row.ended_at;
    end_reason = row.end_reason;
    duration_seconds = row.duration_seconds;
    participant_owner_ids = or_default row.participant_owner_ids [];
    joined_owner_ids = or_default row.joined_owner_ids [];
  }
