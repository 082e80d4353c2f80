-- ===== src/ChatStore/Recents/Reading.antt =====
-- The open conversation is not shown as unread.
use datha_platform.Base.{
  String, false, ◌&&◌, ◌==◌, List, Option, none, some, or_default, find, All, All-update, ◌≡◌,
  arith, Bool-cases, inl, inr, sort_by,
}
use datha_platform.Base.Iso.{IsoDate}
use datha_platform.Base.Queries.{All-sort_by, All_of, All-of-map}
use datha_platform.ChatStore.Calls.{CallRecord}
use datha_platform.ChatStore.Threads.{ThreadMessage, is_open_in}
use datha_platform.ChatStore.Recents.{
  Conversation, ConversationParticipant, is_not_after, has_id, by_recency, settle_open,
  load_conversations, touched, touch_conversation, touch_with, touch_newest, newest_call,
  touch_conversation_with_call, clear_unread, apply_receipt, apply_participants,
}

-- The row is not that of the open conversation, or it is read.
abbrev pub IsRead : Option String → Conversation → Type 0
IsRead active c = (is_open_in c.id active && c.unread) ≡ false

-- What changes the list while a conversation is open, but for a row fetched on its own.
pub data Changes (iso : IsoDate) (active : Option String) (owner_id : String)
    : List Conversation → List Conversation → Type 0 where
  loads :
      (list fetched : List Conversation)
      → Changes iso active owner_id list (load_conversations iso active fetched)
  messages :
      (list : List Conversation) (id : String) (message : ThreadMessage)
      → Changes iso active owner_id list (touch_conversation iso active owner_id id message list)
  calls :
      (list : List Conversation) (id : String) (records : List CallRecord)
      → Changes iso active owner_id list (touch_conversation_with_call iso id records list)
  reads :
      (list : List Conversation) (id : String)
      → Changes iso active owner_id list (clear_unread id list)
  receipts :
      (list : List Conversation) (id reader last_read_at : String)
      → Changes iso active owner_id list (apply_receipt id reader last_read_at list)
  members :
      (list : List Conversation) (id : String) (participants : List ConversationParticipant)
      → Changes iso active owner_id list (apply_participants id participants list)

pub data Session (iso : IsoDate) (active : Option String) (owner_id : String)
    : List Conversation → List Conversation → Type 0 where
  ends : (list : List Conversation) → Session iso active owner_id list list
  follows :
      (before list after : List Conversation)
      → Changes iso active owner_id before list
      → Session iso active owner_id list after
      → Session iso active owner_id before after

module _ (iso : IsoDate) (active : Option String) (owner_id : String) where
  settles : (c : Conversation) → IsRead active (settle_open active c)
  settles c = elim (Bool-cases (is_open_in c.id active && c.unread)) [
    | inl e ↦ rw e (ground (arith, Bool-cases (is_open_in c.id active)))
    | inr e ↦ rw e e
  ]

  sorted :
      (list : List Conversation)
      → All (IsRead active) list
      → All (IsRead active) (sort_by (by_recency iso) list)
  sorted list h = All-sort_by (IsRead active) (by_recency iso) list h

  touches :
      (message : ThreadMessage) (c : Conversation)
      → IsRead active (touched active owner_id message c)
  touches message c = ground (arith, Bool-cases (is_open_in c.id active))

  calls-IsRead :
      (id at : String) (newest : CallRecord) (list : List Conversation) (o : Option Conversation)
      → All (IsRead active) list
      → All (IsRead active) (touch_with iso id at newest list o)
  calls-IsRead id at newest list none h = h
  calls-IsRead id at newest list (some current) h =
      elim (Bool-cases (is_not_after (iso.parse at) (iso.parse current.last_activity_at))) [
        | inl e ↦ rw e h
        | inr e ↦ rw e (
            sorted _ (
              All-update (IsRead active) (has_id id)
                (λ c. record c { last_activity_at = at; last_call = some newest }) (λ c r _. r) list
                h))
      ]

  newest-IsRead :
      (id : String) (list : List Conversation) (o : Option CallRecord)
      → All (IsRead active) list
      → All (IsRead active) (touch_newest iso id list o)
  newest-IsRead id list none h = h
  newest-IsRead id list (some newest) h =
      calls-IsRead id (or_default newest.ended_at newest.started_at) newest list
        (find (has_id id) list) h

  Changes-IsRead :
      (before after : List Conversation)
      → Changes iso active owner_id before after
      → All (IsRead active) before
      → All (IsRead active) after
  unfolding load_conversations touch_conversation touch_conversation_with_call clear_unread
      apply_receipt apply_participants
  Changes-IsRead before _ (loads _ fetched) h =
      sorted _ (All-of-map (IsRead active) (settle_open active) fetched (All_of settles fetched))
  Changes-IsRead before _ (messages _ id message) h = sorted _ (
      All-update (IsRead active) (has_id id) (touched active owner_id message)
        (λ c r _. touches message c) before h)
  Changes-IsRead before _ (calls _ id records) h =
      newest-IsRead id before (newest_call iso none records) h
  Changes-IsRead before _ (reads _ id) h =
      All-update (IsRead active) (λ c. c.id == id && c.unread) (λ c. record c { unread = false })
        (λ c r _. ground (arith, Bool-cases (is_open_in c.id active))) before h
  Changes-IsRead before _ (receipts _ id reader last_read_at) h =
      All-update (IsRead active) (has_id id) _ (λ c r _. r) before h
  Changes-IsRead before _ (members _ id participants) h =
      All-update (IsRead active) (has_id id) (λ c. record c { participants = participants })
        (λ c r _. r) before h

  -- While a conversation is open and read, refetches of the list, messages, calls, receipts, changes of
  -- members and reads leave it read, in whatever order they come.
  pub Session-IsRead :
      (before after : List Conversation)
      → Session iso active owner_id before after
      → All (IsRead active) before
      → All (IsRead active) after
  Session-IsRead before _ (ends _) h = h
  Session-IsRead before after (follows _ list _ one rest) h =
      Session-IsRead list after rest (Changes-IsRead before list one h)
