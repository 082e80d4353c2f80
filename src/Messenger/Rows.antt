-- ===== src/Messenger/Rows.antt =====
-- Row shapes of messenger-service/src/types/messenger.ts, and the database that holds them.
-- In the tables a time is a timestamptz, in microseconds; in a row that came through the driver it
-- is a `Date`, in milliseconds. `read_date` is what the driver does to it, `bind_date` the reverse.
use datha_platform.Base.{ℕ, ◌*◌, ◌/◌, String, Bool, true, false, List, [], Option}
use mathlib.Core.Option

pub data ConversationType : Type 0 where
  direct group : ConversationType

pub data ParticipantRole : Type 0 where
  member admin : ParticipantRole

pub data MessageKind : Type 0 where
  text attachment system : MessageKind

pub data CallEndReason : Type 0 where
  hangup declined missed busy ice_failed expired : CallEndReason

pub data CallStatus : Type 0 where
  ringing active completed missed declined : CallStatus

pub data CallMedia : Type 0 where
  audio video : CallMedia

pub record ConversationRow : Type 0 where
  pub id : String
  pub tenant_id : String
  pub type : ConversationType
  pub direct_key : Option String
  pub title : Option String
  pub created_by : String
  pub created_at : ℕ
  pub last_message_at : Option ℕ
  pub last_activity_at : ℕ
  pub deleted_at : Option ℕ

pub record ParticipantRow : Type 0 where
  pub conversation_id : String
  pub owner_id : String
  pub role : ParticipantRole
  pub joined_at : ℕ
  pub left_at : Option ℕ
  pub last_read_at : Option ℕ
  pub muted_until : Option ℕ

pub record MessageRow : Type 0 where
  pub id : String
  pub conversation_id : String
  pub sender_owner_id : String
  pub kind : MessageKind
  pub body : String
  pub attachment_file_id : Option String
  pub thumbnail_file_id : Option String
  pub media_width : Option ℕ
  pub media_height : Option ℕ
  pub client_message_id : String
  pub created_at : ℕ
  pub edited_at : Option ℕ
  pub deleted_at : Option ℕ

pub record CallRow : Type 0 where
  pub id : String
  pub conversation_id : String
  pub caller_owner_id : String
  pub callee_owner_id : Option String
  pub media : CallMedia
  pub started_at : ℕ
  pub answered_at : Option ℕ
  pub ended_at : Option ℕ
  pub end_reason : Option CallEndReason
  pub duration_seconds : ℕ
  pub participant_owner_ids : Option (List String)
  pub joined_owner_ids : Option (List String)

-- A row of the table `call_participants` (007).
pub record CallParticipantRow : Type 0 where
  pub call_id : String
  pub owner_id : String
  pub joined : Bool

pub record Db : Type 0 where
  pub conversations : List ConversationRow
  pub participants : List ParticipantRow
  pub messages : List MessageRow
  pub calls : List CallRow
  pub call_participants : List CallParticipantRow

abbrev pub empty_db : Db
empty_db = record {
  conversations = [];
  participants = [];
  messages = [];
  calls = [];
  call_participants = [];
}

-- A timestamptz as the `Date` that the driver makes of it, and back when it is a parameter.
unfoldable pub read_date : ℕ → ℕ
read_date t = t / 1000

unfoldable pub bind_date : ℕ → ℕ
bind_date d = d * 1000

abbrev pub is_direct : ConversationType → Bool
is_direct direct = true
is_direct group = false

abbrev pub is_admin : ParticipantRole → Bool
is_admin admin = true
is_admin member = false

-- Rows as the driver returns them.
unfoldable pub read_conversation : ConversationRow → ConversationRow
unfolding read_date
read_conversation r = record r {
  created_at = read_date r.created_at;
  last_message_at = Option.map read_date r.last_message_at;
  last_activity_at = read_date r.last_activity_at;
  deleted_at = Option.map read_date r.deleted_at;
}

unfoldable pub read_participant : ParticipantRow → ParticipantRow
unfolding read_date
read_participant r = record r {
  joined_at = read_date r.joined_at;
  left_at = Option.map read_date r.left_at;
  last_read_at = Option.map read_date r.last_read_at;
  muted_until = Option.map read_date r.muted_until;
}

unfoldable pub read_message : MessageRow → MessageRow
unfolding read_date
read_message r = record r {
  created_at = read_date r.created_at;
  edited_at = Option.map read_date r.edited_at;
  deleted_at = Option.map read_date r.deleted_at;
}

unfoldable pub read_call : CallRow → CallRow
unfolding read_date
read_call r = record r {
  started_at = read_date r.started_at;
  answered_at = Option.map read_date r.answered_at;
  ended_at = Option.map read_date r.ended_at;
}
