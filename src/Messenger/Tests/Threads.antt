-- ===== src/Messenger/Tests/Threads.antt =====
-- Sending, paging and reading a thread, and who may.
use datha_platform.Base.{
  ◌<◌, true, false, ◌≡◌, refl, [], ◌∷◌, none, some, find, update, any, filter, insert_by, sort_by,
  All,
}
use datha_platform.Base.Iso.{sample_iso, letters, count, instant_of, micros_of}
use datha_platform.Messenger.Result.{ok, err}
use datha_platform.Messenger.Rows.{text, MessageRow, Db, read_message, read_date}
use datha_platform.Messenger.Messages.{
  SendMessageInput, SendMessageResult, ListMessagesResult, MarkReadResult, send_message,
  list_messages, mark_read, is_active_member,
}
use datha_platform.Messenger.Messages.Sending.{send_message_retry}
use datha_platform.Messenger.Messages.Paging.{list_messages_next}
use datha_platform.Messenger.Messages.Watermark.{
  not_after, watermark, mark_read-not_after, mark_read_repeat,
}
use datha_platform.Messenger.Authz.{AuthzAction, authorize_conversation, is_live}
use datha_platform.Messenger.Authz.Decisions.{
  permits, authorize_conversation-permits, authorize_conversation-leave_conversation,
}
use datha_platform.Messenger.Conversations.{leave_conversation}
use datha_platform.Messenger.Tests.{db, hello}

abbrev input : SendMessageInput
input = record {
  conversation_id = "c1";
  sender_owner_id = "b2";
  client_message_id = "k2";
  kind = text;
  body = "hi";
  attachment_file_id = none;
  thumbnail_file_id = none;
  media_width = none;
  media_height = none;
}

abbrev sent : SendMessageResult × Db
unfolding send_message
sent = elim (send_message "m2" 7000 input db) [
  | ok r ↦ r
  | err e ↦ (record { message = hello; created = false }, db)
]

send_message_retry_example :
    send_message "m3" 9000 (record input { body = "other" }) sent.1
    ≡ ok (record { message = sent.0.message; created = false }, sent.1)
unfolding send_message sent find any update
send_message_retry_example =
    send_message_retry "m2" "m3" 7000 9000 input (record input { body = "other" }) db sent.1 sent.0
      (record { conversation_id = refl; sender_owner_id = refl; client_message_id = refl }) refl

-- Two messages of one millisecond, of which a page of one shows the newer.
abbrev twin : MessageRow
twin = record hello { id = "m0"; client_message_id = "k0"; created_at = 5001 }

abbrev twins : Db
twins = record db { messages = hello ∷ twin ∷ [] }

abbrev shown : MessageRow
shown = record twin { created_at = 5 }

abbrev first_page : ListMessagesResult
first_page = record { messages = shown ∷ []; next_cursor = some "TTTTTT" }

abbrev last_page : ListMessagesResult
last_page = record { messages = []; next_cursor = none }

list_messages_next_example : All (λ m. m.created_at < shown.created_at) last_page.messages
unfolding list_messages sample_iso letters count instant_of micros_of filter sort_by insert_by
    read_message read_date
list_messages_next_example =
    list_messages_next sample_iso "c1" 1 twins none first_page last_page shown refl refl refl refl

abbrev marked : MarkReadResult × Db
unfolding mark_read
marked = elim (mark_read "c1" "b2" "m1" db) [
  | some r ↦ r
  | none ↦ (record { last_read_at = 0; advanced = false }, db)
]

mark_read-not_after_example :
    not_after (watermark db "c1" "a1") (watermark marked.1 "c1" "a1") ≡ true
unfolding mark_read marked find update
mark_read-not_after_example = mark_read-not_after "c1" "b2" "m1" "c1" "a1" db marked.1 marked.0 refl

mark_read_repeat_example :
    mark_read "c1" "b2" "m1" marked.1
    ≡ some (record { last_read_at = marked.0.last_read_at; advanced = false }, marked.1)
unfolding mark_read marked find update
mark_read_repeat_example = mark_read_repeat "c1" "b2" "m1" db marked.1 marked.0 refl

authorize_conversation-permits_example :
    (authorize_conversation db "c1" "a1" "t1" AuthzAction.message_send).allowed
    ≡ permits "t1" AuthzAction.message_send
        (find (is_live "c1") db.conversations)
        (find (is_active_member "c1" "a1") db.participants)
authorize_conversation-permits_example =
    authorize_conversation-permits db "c1" "a1" "t1" AuthzAction.message_send

authorize_conversation-leave_conversation_example :
    (authorize_conversation
      (leave_conversation 9000 "c1" "a1" db).1
      "c1"
      "a1"
      "t1"
      AuthzAction.message_read).allowed
    ≡ false
authorize_conversation-leave_conversation_example =
    authorize_conversation-leave_conversation db 9000 "c1" "a1" "t1" AuthzAction.message_read
