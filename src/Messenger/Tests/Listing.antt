-- ===== src/Messenger/Tests/Listing.antt =====
-- The conversation list, its cursor and the unread set.
use mathlib.Core.Option
use datha_platform.Base.{
  ℕ, String, true, false, ◌≡◌, ◌⊎◌, refl, [], ◌∷◌, Option, none, some, find, any, filter, insert_by,
  sort_by, All, map,
}
use datha_platform.Base.Iso.{sample_iso, letters, count, instant_of, micros_of, has_code}
use datha_platform.Messenger.Result.{ok, err}
use datha_platform.Messenger.Rows.{
  ConversationRow, Db, read_message, read_participant, read_conversation, read_date,
}
use datha_platform.Messenger.Wire.{Conversation}
use datha_platform.Messenger.Calls.{contains}
use datha_platform.Messenger.Messages.{MarkReadResult, mark_read}
use datha_platform.Messenger.Inbox.{
  parse_cursor, issue_cursor, ListConversationsResult, list_conversations, is_unread_for,
  is_unread_row, newest_message, get_unread_conversation_ids, hydrate_conversations,
  select_conversations, cast_cursor, to_conversation, participants_in, last_message_in,
  last_call_in,
}
use datha_platform.Messenger.Inbox.Cursor.{IsCanonical, IsPast, rows_past, list_conversations_next}
use datha_platform.Messenger.Inbox.Unread.{
  is_unread_row-is_unread_for, mark_read-get_unread_conversation_ids,
}
use datha_platform.Messenger.Tests.{db, chat, seat, hello}

chat-IsCanonical : IsCanonical (λ s. some s) "c1"
unfolding has_code
chat-IsCanonical = record { canonical = refl; plain = refl; nonempty = refl }

is_unread_row-is_unread_for_example :
    (Option.map read_date (some 4000) ≡ some (read_date 5000))
    ⊎ (is_unread_for "b2"
          (read_participant (seat "b2" (some 4000))).last_read_at
          (some (read_message hello))
        ≡ true)
unfolding is_unread_row
is_unread_row-is_unread_for_example =
    is_unread_row-is_unread_for "b2" (seat "b2" (some 4000)) hello refl

abbrev marked : MarkReadResult × Db
unfolding mark_read
marked = elim (mark_read "c1" "b2" "m1" db) [
  | some r ↦ r
  | none ↦ (record { last_read_at = 0; advanced = false }, db)
]

mark_read-get_unread_conversation_ids_example :
    contains (get_unread_conversation_ids "b2" marked.1) "c1" ≡ false
unfolding mark_read marked newest_message find filter sort_by insert_by
mark_read-get_unread_conversation_ids_example =
    mark_read-get_unread_conversation_ids "c1" "b2" hello db marked.1 marked.0 refl refl refl

-- A second conversation, quieter than the first.
abbrev quiet : ConversationRow
quiet = record chat { id = "c2"; direct_key = some "a1|c3"; last_activity_at = 3000 }

abbrev two : Db
two = record db {
  conversations = quiet ∷ chat ∷ [];
  participants = record (seat "a1" none) { conversation_id = "c2" } ∷ db.participants;
}

quiet-IsCanonical : IsCanonical (λ s. some s) "c2"
unfolding has_code
quiet-IsCanonical = record { canonical = refl; plain = refl; nonempty = refl }

abbrev page_from : Option String → ListConversationsResult
unfolding list_conversations
page_from cursor =
    elim (list_conversations (λ s t. true) (λ s. some s) 60 9 sample_iso "a1" 1 cursor two) [
      | ok r ↦ r
      | err e ↦ record { conversations = []; next_cursor = none }
    ]

abbrev first_page : ListConversationsResult
unfolding page_from
first_page = page_from none

abbrev shown_chat : Conversation
unfolding hydrate_conversations
shown_chat =
    to_conversation sample_iso (read_conversation chat) (participants_in two "c1")
      (last_message_in two "c1") (last_call_in (λ s t. true) 60 9 two "c1") "a1"

list_conversations_next_example :
    (e : ℕ) × (shown_chat.last_activity_at ≡ sample_iso.to_iso e)
    × (next : ListConversationsResult) × (list_conversations
          (λ s t. true)
          (λ s. some s)
          60
          9
          sample_iso
          "a1"
          1
          first_page.next_cursor
          two
        ≡ ok next)
    × (next.conversations
        ≡ hydrate_conversations
            (λ s t. true)
            (λ s. some s)
            60
            9
            sample_iso
            two
            (map read_conversation (rows_past "a1" e "c1" 1 two))
            "a1")
    × All (IsPast sample_iso e "c1") next.conversations
unfolding list_conversations page_from first_page shown_chat select_conversations
    hydrate_conversations parse_cursor cast_cursor issue_cursor sample_iso letters count instant_of
    micros_of filter sort_by insert_by any read_conversation read_message
list_conversations_next_example =
    list_conversations_next (λ s t. true) (λ s. some s) 60 9 sample_iso "a1" 1 two none first_page
      shown_chat (quiet-IsCanonical, (chat-IsCanonical, tt)) refl refl refl
