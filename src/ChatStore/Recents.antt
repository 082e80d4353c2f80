-- ===== src/ChatStore/Recents.antt =====
-- The list of conversations: byRecency, loadConversations, touchConversation, touchConversationWithCall,
-- upsertConversation, applyReceipt and the reads of a row in chat-store.service.ts.
pub mod Reading
use mathlib.Core.Option
use datha_platform.Base.{
  ℕ, String, Bool, true, false, not, ◌&&◌, ◌||◌, ◌==◌, List, [], ◌∷◌, map, Option, none, some,
  if◌then◌else◌, ltb, leb, eqb, length, filter, find, any, sort_by, update, or_default,
}
use datha_platform.Base.Iso.{IsoDate}
use datha_platform.Messenger.Rows.{ConversationType, ParticipantRole, is_direct}
use datha_platform.ChatStore.Calls.{CallRecord}
use datha_platform.ChatStore.Threads.{ThreadMessage, is_later, is_open_in}

pub record ConversationParticipant : Type 0 where
  pub owner_id : String
  pub role : ParticipantRole
  pub last_read_at : Option String

pub record Conversation : Type 0 where
  pub id : String
  pub tenant_id : String
  pub type : ConversationType
  pub title : Option String
  pub created_by : String
  pub created_at : String
  pub last_message_at : Option String
  pub last_activity_at : String
  pub participants : List ConversationParticipant
  pub last_message : Option ThreadMessage
  pub last_call : Option CallRecord
  pub unread : Bool

abbrev pub has_id : String → Conversation → Bool
has_id id c = c.id == id

-- `Date.parse(a) <= Date.parse(b)`, false on NaN.
abbrev pub is_not_after : Option ℕ → Option ℕ → Bool
is_not_after (some t) (some u) = leb t u
is_not_after _ _ = false

-- The conversation that stays in front of the other under `sort(byRecency)`.
abbrev pub by_recency : IsoDate → Conversation → Conversation → Bool
by_recency iso a b = not (is_later (iso.parse b.last_activity_at) (iso.parse a.last_activity_at))

abbrev pub sort_recent : IsoDate → List Conversation → List Conversation
sort_recent iso list = sort_by (by_recency iso) list

-- A row that a refetch returns: the open conversation cannot be unread.
abbrev pub settle_open : Option String → Conversation → Conversation
settle_open opened c = if is_open_in c.id opened && c.unread then record c { unread = false } else c

-- What `loadConversations` sets; it replaces the list.
unfoldable pub load_conversations : IsoDate → Option String → List Conversation → List Conversation
load_conversations iso opened fetched = sort_recent iso (map (settle_open opened) fetched)

abbrev pub touched : Option String → String → ThreadMessage → Conversation → Conversation
touched active owner_id message c = record c {
  last_message = some message;
  last_message_at = some message.created_at;
  last_activity_at = message.created_at;
  unread = if is_open_in c.id active then false else not (message.sender_owner_id == owner_id);
}

unfoldable pub touch_conversation :
    IsoDate
    → Option String
    → String
    → String
    → ThreadMessage
    → List Conversation
    → List Conversation
touch_conversation iso active owner_id id message list =
    sort_recent iso (update (has_id id) (touched active owner_id message) list)

-- `reduce` to the call that started last, the earlier of equals.
abbrev pub newer_call : IsoDate → Option CallRecord → CallRecord → Option CallRecord
newer_call iso none call = some call
newer_call iso (some best) call =
    if is_later (iso.parse call.started_at) (iso.parse best.started_at)
    then some call
    else some best

unfoldable pub newest_call : IsoDate → Option CallRecord → List CallRecord → Option CallRecord
newest_call iso best [] = best
newest_call iso best (call ∷ calls) = newest_call iso (newer_call iso best call) calls

abbrev pub touch_with :
    IsoDate
    → String
    → String
    → CallRecord
    → List Conversation
    → Option Conversation
    → List Conversation
touch_with iso id at newest list none = list
touch_with iso id at newest list (some current) =
    if is_not_after (iso.parse at) (iso.parse current.last_activity_at)
    then list
    else sort_recent iso
        (update (has_id id) (λ c. record c { last_activity_at = at; last_call = some newest }) list)

abbrev pub touch_newest :
    IsoDate → String → List Conversation → Option CallRecord → List Conversation
touch_newest iso id list none = list
touch_newest iso id list (some newest) =
    touch_with iso id (or_default newest.ended_at newest.started_at) newest list
      (find (has_id id) list)

unfoldable pub touch_conversation_with_call :
    IsoDate → String → List CallRecord → List Conversation → List Conversation
unfolding newest_call
touch_conversation_with_call iso id calls list =
    touch_newest iso id list (newest_call iso none calls)

unfoldable pub upsert_conversation : IsoDate → Conversation → List Conversation → List Conversation
upsert_conversation iso c list = sort_recent iso (c ∷ filter (λ d. not (d.id == c.id)) list)

-- The list's part of `markReadUpToNewest`.
unfoldable pub clear_unread : String → List Conversation → List Conversation
clear_unread id list = update (λ c. c.id == id && c.unread) (λ c. record c { unread = false }) list

-- `markReadUpToNewest`'s message: the last that is not pending, of the messages latest first.
abbrev pub newest_confirmed : List ThreadMessage → Option ThreadMessage
newest_confirmed latest_first = find (λ m. not m.pending) latest_first

unfoldable pub apply_receipt : String → String → String → List Conversation → List Conversation
apply_receipt id owner_id last_read_at list =
    update (has_id id)
      (λ c. record c {
        participants =
            update (λ p. p.owner_id == owner_id)
              (λ p. record p { last_read_at = some last_read_at }) c.participants;
      })
      list

unfoldable pub apply_participants :
    String → List ConversationParticipant → List Conversation → List Conversation
apply_participants id participants list =
    update (has_id id) (λ c. record c { participants = participants }) list

abbrev pub has_read : IsoDate → String → Option String → Bool
has_read iso sent_at none = false
has_read iso sent_at (some read_at) = is_not_after (iso.parse sent_at) (iso.parse read_at)

unfoldable pub readers_of : IsoDate → String → Conversation → ThreadMessage → List String
readers_of iso owner_id c message =
    map (λ p. p.owner_id)
      (filter (λ p. not (p.owner_id == owner_id) && has_read iso message.created_at p.last_read_at)
        c.participants)

unfoldable pub counterpart : String → Conversation → String
counterpart owner_id c =
    or_default
      (Option.map (λ p. p.owner_id) (find (λ p. not (p.owner_id == owner_id)) c.participants))
      owner_id

unfoldable pub direct_conversation_with : String → String → List Conversation → Option String
direct_conversation_with owner_id peer list =
    Option.map (λ c. c.id)
      (find
        (λ c.
          is_direct c.type
          && eqb (length c.participants) 2
          && any (λ p. p.owner_id == peer) c.participants
          && any (λ p. p.owner_id == owner_id) c.participants)
        list)
