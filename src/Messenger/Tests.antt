-- ===== src/Messenger/Tests.antt =====
-- A database for the tests: two people, their direct conversation, a message and a call.
mod Calls
mod Consumer
mod Threads
mod Members
mod Listing
mod Replies
use datha_platform.Base.{ℕ, String, List, [], ◌∷◌, Option, none, some}
use datha_platform.Messenger.Rows.{
  direct, member, text, ConversationRow, ParticipantRow, MessageRow, CallRow, CallMedia, Db,
}

abbrev pub chat : ConversationRow
chat = record {
  id = "c1";
  tenant_id = "t1";
  type = direct;
  direct_key = some "a1|b2";
  title = none;
  created_by = "a1";
  created_at = 1000;
  last_message_at = some 5000;
  last_activity_at = 5000;
  deleted_at = none;
}

abbrev pub seat : String → Option ℕ → ParticipantRow
seat owner last_read_at = record {
  conversation_id = "c1";
  owner_id = owner;
  role = member;
  joined_at = 1000;
  left_at = none;
  last_read_at = last_read_at;
  muted_until = none;
}

abbrev pub hello : MessageRow
hello = record {
  id = "m1";
  conversation_id = "c1";
  sender_owner_id = "a1";
  kind = text;
  body = "hello";
  attachment_file_id = none;
  thumbnail_file_id = none;
  media_width = none;
  media_height = none;
  client_message_id = "k1";
  created_at = 5000;
  edited_at = none;
  deleted_at = none;
}

abbrev pub ring : CallRow
ring = record {
  id = "k1";
  conversation_id = "c1";
  caller_owner_id = "a1";
  callee_owner_id = some "b2";
  media = CallMedia.audio;
  started_at = 4000;
  answered_at = none;
  ended_at = none;
  end_reason = none;
  duration_seconds = 0;
  participant_owner_ids = none;
  joined_owner_ids = none;
}

abbrev pub db : Db
db = record {
  conversations = chat ∷ [];
  participants = seat "a1" (some 5000) ∷ seat "b2" none ∷ [];
  messages = hello ∷ [];
  calls = ring ∷ [];
  call_participants = [];
}
