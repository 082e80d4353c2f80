-- ===== src/Messenger/Messages.antt =====
-- messenger-service/src/services/messages.ts and read-state.ts: sending, paging and the watermark.
pub mod Sending
pub mod Paging
pub mod Watermark
use mathlib.Core.Option
use datha_platform.Base.{
  ℕ, String, Bool, true, false, ◌&&◌, ◌||◌, ◌==◌, List, [], ◌∷◌, ◌++◌, map, Option, none, some, ltb,
  leb, eqb, if◌then◌else◌, is_none, or_default, greatest, any, filter, find, update, take, sort_by,
  length, last?,
}
use datha_platform.Base.Iso.{IsoDate}
use datha_platform.Messenger.Result.{
  Result, ok, err, fk_violation, other_error, cast_nullable, ◌>>=◌,
}
use datha_platform.Messenger.Rows.{
  MessageKind, ConversationRow, ParticipantRow, MessageRow, Db, read_date, bind_date, read_message,
}
use datha_platform.Messenger.Calls.{has_conversation}

pub record SendMessageInput : Type 0 where
  pub conversation_id : String
  pub sender_owner_id : String
  pub client_message_id : String
  pub kind : MessageKind
  pub body : String
  pub attachment_file_id : Option String
  pub thumbnail_file_id : Option String
  pub media_width : Option ℕ
  pub media_height : Option ℕ

pub record SendMessageResult : Type 0 where
  pub message : MessageRow
  pub created : Bool

-- The columns of the unique index that makes a retry idempotent.
abbrev pub has_key : String → String → String → MessageRow → Bool
has_key conversation_id sender client m =
    m.conversation_id == conversation_id
    && (m.sender_owner_id == sender && m.client_message_id == client)

abbrev pub key_of : SendMessageInput → MessageRow → Bool
key_of input = has_key input.conversation_id input.sender_owner_id input.client_message_id

-- The row of the INSERT; `uuid` is that of `randomUUID`, `now` the column's DEFAULT now().
abbrev pub new_message : String → ℕ → SendMessageInput → MessageRow
new_message uuid now input = record {
  id = uuid;
  conversation_id = input.conversation_id;
  sender_owner_id = input.sender_owner_id;
  kind = input.kind;
  body = input.body;
  attachment_file_id = input.attachment_file_id;
  thumbnail_file_id = input.thumbnail_file_id;
  media_width = input.media_width;
  media_height = input.media_height;
  client_message_id = input.client_message_id;
  created_at = now;
  edited_at = none;
  deleted_at = none;
}

-- The SET of the second statement, whose parameter came through the driver.
unfoldable pub bump_conversation : ℕ → ConversationRow → ConversationRow
bump_conversation at c = record c {
  last_message_at = some (greatest (or_default c.last_message_at at) at);
  last_activity_at = greatest c.last_activity_at at;
}

-- `sendMessage`. The unique index is consulted first, then the primary key and the foreign key.
unfoldable pub send_message : String → ℕ → SendMessageInput → Db → Result (SendMessageResult × Db)
unfolding bump_conversation read_message read_date bind_date
send_message uuid now input db = elim (find (key_of input) db.messages) [
  | some row ↦ ok (record { message = read_message row; created = false }, db)
  | none ↦
      let row = new_message uuid now input in
      if any (λ m. m.id == uuid) db.messages
      then err other_error
      else if has_conversation input.conversation_id db.conversations
      then ok (
        record { message = read_message row; created = true },
        record db {
          messages = db.messages ++ (row ∷ []);
          conversations =
              update (λ c. c.id == input.conversation_id)
                (bump_conversation (bind_date (read_message row).created_at)) db.conversations;
        },
      )
      else err fk_violation
]

pub record ListMessagesResult : Type 0 where
  pub messages : List MessageRow
  pub next_cursor : Option String

abbrev pub newest_message_first : MessageRow → MessageRow → Bool
newest_message_first a b = leb b.created_at a.created_at

-- The WHERE of `listMessages`; `before` has been cast.
abbrev pub on_page : String → Option ℕ → MessageRow → Bool
on_page conversation_id none m = m.conversation_id == conversation_id && is_none m.deleted_at
on_page conversation_id (some before) m =
    m.conversation_id == conversation_id && is_none m.deleted_at && ltb m.created_at before

unfoldable pub list_messages : IsoDate → String → ℕ → Option String → Db → Result ListMessagesResult
list_messages iso conversation_id limit before db = do
  cut ← cast_nullable iso.cast before
  let rows =
      map read_message (
        take limit
          (sort_by newest_message_first (filter (on_page conversation_id cut) db.messages)))
  ok (record {
    messages = rows;
    next_cursor =
        if eqb (length rows) limit
        then Option.map (λ m. iso.to_iso m.created_at) (last? rows)
        else none;
  })

unfoldable pub get_message : String → String → Db → Option MessageRow
get_message conversation_id message_id db =
    Option.map read_message
      (find (λ m. m.id == message_id && m.conversation_id == conversation_id) db.messages)

pub record MarkReadResult : Type 0 where
  pub last_read_at : ℕ
  pub advanced : Bool

abbrev pub is_active_member : String → String → ParticipantRow → Bool
is_active_member conversation_id owner_id p =
    p.conversation_id == conversation_id && p.owner_id == owner_id && is_none p.left_at

abbrev pub mark_at : ℕ → ParticipantRow → ParticipantRow
mark_at at p = record p { last_read_at = some (greatest (or_default p.last_read_at at) at) }

abbrev is_before : Option ℕ → ℕ → Bool
is_before none at = true
is_before (some t) at = ltb t at

-- `markRead`: one UPDATE that joins the message, the participant and the participant's old value.
unfoldable pub mark_read : String → String → String → Db → Option (MarkReadResult × Db)
mark_read conversation_id owner_id message_id db =
    elim (find (λ m. m.id == message_id && m.conversation_id == conversation_id) db.messages) [
      | none ↦ none
      | some m ↦ elim (find (is_active_member conversation_id owner_id) db.participants) [
        | none ↦ none
        | some p ↦ some (
          record {
            last_read_at =
                read_date (greatest (or_default p.last_read_at m.created_at) m.created_at);
            advanced = is_before p.last_read_at m.created_at;
          },
          record db {
            participants =
                update (is_active_member conversation_id owner_id) (mark_at m.created_at)
                  db.participants;
          },
        )
      ]
    ]
