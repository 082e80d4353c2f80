-- ===== src/Messenger/Tests/Replies.antt =====
-- The routes, with a caller who is a member and one who is not.
use datha_platform.Base.{
  String, true, ◌≡◌, refl, List, [], ◌∷◌, none, some, find, update, any, filter, length, ◌≤◌,
}
use datha_platform.Base.Iso.{sample_iso, letters}
use datha_platform.Messenger.Rows.{
  text, group, admin, member, Db, read_participant, read_message, read_date,
}
use datha_platform.Messenger.Wire.{Message, to_message, ConversationParticipant, to_participant}
use datha_platform.Messenger.Conversations.{upsert_participants, has_duplicate, join_rows, unique}
use datha_platform.Messenger.Messages.{send_message, mark_read, get_message}
use datha_platform.Messenger.Authz.{authorize_conversation, load_conversation_facts, decide_on, can}
use datha_platform.Messenger.Routes.{Handled, refuse, answer, Config}
use datha_platform.Messenger.Routes.Threads.{
  SendBody, Granted, unavailable, post_message, get_messages, get_attachment, on_send, on_sent,
}
use datha_platform.Messenger.Routes.Chats.{
  get_conversation_by_id, patch_conversation, post_read, on_marked, post_participants,
  admit_participants, on_joined,
}
use datha_platform.Messenger.Routes.History.{get_conversation_calls}
use datha_platform.Messenger.Routes.Hidden.{outsider-not_found, patch_conversation-outsider}
use datha_platform.Messenger.Routes.Replays.{post_message_replay}
use datha_platform.Messenger.Routes.Rereads.{post_read_repeat}
use datha_platform.Messenger.Routes.Groups.{members_in, post_participants-size}
use datha_platform.Messenger.Tests.{db, chat, seat}

abbrev settings : Config
settings = record { default_tenant_id = "t1"; max_group_participants = 8; calls_page_size = 50 }

abbrev typed : SendBody
typed = record {
  client_message_id = "k7";
  body = "hi";
  attachment_file_id = none;
  thumbnail_file_id = none;
  media_width = none;
  media_height = none;
}

abbrev sent_message : Message
sent_message = record {
  id = "m2";
  conversation_id = "c1";
  sender_owner_id = "b2";
  kind = text;
  body = "hi";
  attachment_file_id = none;
  thumbnail_file_id = none;
  media_width = none;
  media_height = none;
  client_message_id = "k7";
  created_at = "TTTTTTTT";
  edited_at = none;
}

abbrev sent : Db
sent = (post_message sample_iso settings "m2" 7000 "b2" (some "c1") (some typed) db).db

post_message_replay_example :
    post_message sample_iso settings "m3" 9000 "b2"
      (some "c1")
      (some (record typed { body = "other" }))
      sent
    ≡ answer 200 sent_message sent
unfolding post_message on_send on_sent send_message authorize_conversation load_conversation_facts
    decide_on can find update any filter sample_iso letters read_message read_date to_message
post_message_replay_example =
    post_message_replay sample_iso settings "m2" "m3" 7000 9000 "b2" "c1" typed
      (record typed { body = "other" }) db sent_message refl refl

abbrev seen : Db
seen = (post_read sample_iso settings "b2" (some "c1") (some "m1") db).db

post_read_repeat_example :
    post_read sample_iso settings "b2" (some "c1") (some "m1") seen ≡ answer 200 "TTTTTT" seen
unfolding post_read on_marked mark_read get_message authorize_conversation load_conversation_facts
    decide_on can find update any filter sample_iso letters read_message read_date
post_read_repeat_example = post_read_repeat sample_iso settings "b2" "c1" "m1" db "TTTTTT" refl

abbrev no_files : String → String → Granted
no_files file owner = unavailable

outsider-not_found_example :
    (post_message sample_iso settings "m2" 7000 "x9" (some "c1") (some typed) db ≡ refuse 404 db)
    × (get_messages sample_iso settings "x9" (some "c1") (some (20, none)) db ≡ refuse 404 db)
    × (get_attachment settings no_files "x9" (some ("c1", "m1")) db ≡ refuse 404 db)
    × (post_read sample_iso settings "x9" (some "c1") (some "m1") db ≡ refuse 404 db)
    × (get_conversation_by_id
          (λ s t. true)
          (λ s. some s)
          60
          9
          sample_iso
          settings
          "x9"
          (some "c1")
          db
        ≡ refuse 404 db)
    × (get_conversation_calls (λ s t. true) 60 9 sample_iso settings "x9" (some "c1") (some none) db
        ≡ refuse 404 db)
unfolding find
outsider-not_found_example =
    outsider-not_found (λ s t. true) (λ s. some s) 60 9 7000 sample_iso settings "m2" no_files "x9"
      "c1" "m1" typed 20 none none db refl

patch_conversation-outsider_example :
    patch_conversation
      (λ s t. true)
      (λ s. some s)
      60
      9
      sample_iso
      settings
      "x9"
      (some "c1")
      (some (some "t"))
      db
    ≡ refuse 403 db
unfolding find
patch_conversation-outsider_example =
    patch_conversation-outsider (λ s t. true) (λ s. some s) 60 9 sample_iso settings "x9" "c1"
      (some "t") db refl

-- A group whose admin adds two people, of whom one is there already.
abbrev group_db : Db
group_db = record db {
  conversations = record chat { type = group; direct_key = none } ∷ [];
  participants = record (seat "a1" none) { role = admin } ∷ seat "b2" none ∷ [];
}

abbrev added : Handled (List ConversationParticipant)
added =
    post_participants sample_iso settings 9000 "a1" (some "c1") (some ("b2" ∷ "d4" ∷ [])) group_db

abbrev shown : List ConversationParticipant
shown =
    record { owner_id = "b2"; role = member; last_read_at = none }
    ∷ record { owner_id = "d4"; role = member; last_read_at = none }
    ∷ []

post_participants-size_example : length (members_in added.db "c1") ≤ settings.max_group_participants
unfolding post_participants admit_participants on_joined upsert_participants has_duplicate join_rows
    unique authorize_conversation load_conversation_facts decide_on can find update any filter
    read_participant to_participant
post_participants-size_example =
    post_participants-size sample_iso settings 9000 "a1" "c1" ("b2" ∷ "d4" ∷ []) group_db shown refl
