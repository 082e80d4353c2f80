-- ===== src/Messenger/Inbox.antt =====
-- messenger-service/src/services/conversations.ts: the list, its cursor and the unread set.
pub mod Cursor
pub mod Unread
use mathlib.Core.Option
use Prim.Native.Char.{code}
use datha_platform.Base.{
  ℕ, String, Bool, true, false, not, ◌&&◌, ◌||◌, ◌==◌, List, [], ◌∷◌, map, Option, none, some, ltb,
  leb, eqb, if◌then◌else◌, is_none, any, filter, find, take, sort_by, length, last?,
}
use datha_platform.Base.Iso.{IsoDate}
use datha_platform.Messenger.Result.{Result, ok, err, other_error, ◌>>=◌, cast_result}
use datha_platform.Messenger.Rows.{
  ConversationRow, ParticipantRow, MessageRow, CallRow, Db, read_conversation, read_participant,
  read_message, read_call,
}
use datha_platform.Messenger.Wire.{
  Conversation, settle_stale_call, to_message, to_participant, to_call,
}
use datha_platform.Messenger.Calls.{hydrate_call, newest_first}
use datha_platform.Messenger.Messages.{newest_message_first, is_active_member}
use datha_platform.Messenger.Authz.{is_active_of, is_live}
use datha_platform.Base.Texts.{text_le, concat}

abbrev pub first? {ℓ} : {A : Type ℓ} → List A → Option A
first? [] = none
first? (x ∷ xs) = some x

-- One conversation's entry of `listParticipants`.
unfoldable pub participants_in : Db → String → List ParticipantRow
participants_in db id =
    map read_participant
      (sort_by (λ a b. leb a.joined_at b.joined_at) (filter (is_active_of id) db.participants))

-- The lateral join of the newest kept message, a row of the table.
unfoldable pub newest_message : Db → String → Option MessageRow
newest_message db id = first? (
    sort_by newest_message_first
      (filter (λ m. m.conversation_id == id && is_none m.deleted_at) db.messages))

-- One conversation's entry of `listLastMessages`.
unfoldable pub last_message_in : Db → String → Option MessageRow
unfolding newest_message
last_message_in db id = Option.map read_message (newest_message db id)

-- One conversation's entry of `listLastCalls`.
unfoldable pub last_call_in : (String → String → Bool) → ℕ → ℕ → Db → String → Option CallRow
last_call_in collate lifetime now db id =
    Option.map (λ k. settle_stale_call (read_call (hydrate_call collate db k)) lifetime now)
      (first? (sort_by newest_first (filter (λ k. k.conversation_id == id) db.calls)))

-- `isUnreadFor`; the times are `Date`s.
unfoldable pub is_unread_for : String → Option ℕ → Option MessageRow → Bool
is_unread_for owner_id last_read_at none = false
is_unread_for owner_id last_read_at (some m) =
    if m.sender_owner_id == owner_id
    then false
    else elim last_read_at [ none ↦ true | some t ↦ ltb t m.created_at ]

abbrev pub read_mark : Option ParticipantRow → Option ℕ
read_mark none = none
read_mark (some p) = p.last_read_at

unfoldable pub to_conversation :
    IsoDate
    → ConversationRow
    → List ParticipantRow
    → Option MessageRow
    → Option CallRow
    → String
    → Conversation
unfolding to_message to_participant to_call is_unread_for
to_conversation iso row participants last_message last_call owner_id = record {
  id = row.id;
  tenant_id = row.tenant_id;
  type = row.type;
  title = row.title;
  created_by = row.created_by;
  created_at = iso.to_iso row.created_at;
  last_message_at = Option.map iso.to_iso row.last_message_at;
  last_activity_at = iso.to_iso row.last_activity_at;
  participants = map (to_participant iso) participants;
  last_message = Option.map (to_message iso) last_message;
  last_call = Option.map (to_call iso) last_call;
  unread =
      is_unread_for owner_id (read_mark (find (λ p. p.owner_id == owner_id) participants))
        last_message;
}

-- `parseCursor`: the text is split at its last '|'.
unfoldable pub split_last : String → Option (String × String)
split_last String.[] = none
split_last (String.◌∷◌ x s) = elim (split_last s) [
  | some (a, b) ↦ some (String.◌∷◌ x a, b)
  | none ↦ if eqb (code x) 124 then some ("", s) else none
]

unfoldable pub parse_cursor : IsoDate → Option String → Option (String × String)
unfolding split_last
parse_cursor iso none = none
parse_cursor iso (some cursor) = elim (split_last cursor) [
  | none ↦ none
  | some (activity_at, id) ↦
      if activity_at == "" || (id == "" || is_none (iso.parse activity_at))
      then none
      else some (activity_at, id)
]

-- The cursor of the last row of a full page; `last_activity_at` is a `Date`.
unfoldable pub issue_cursor : IsoDate → ConversationRow → String
unfolding concat
issue_cursor iso last = concat (iso.to_iso last.last_activity_at) (concat "|" last.id)

-- (last_activity_at, id) < ($2, $3). A uuid compares as its canonical text.
abbrev pub is_after_cursor : Option (ℕ × String) → ConversationRow → Bool
is_after_cursor none c = true
is_after_cursor (some (at, id)) c =
    ltb c.last_activity_at at || eqb c.last_activity_at at && (text_le c.id id && not (c.id == id))

abbrev pub most_recent_first : ConversationRow → ConversationRow → Bool
most_recent_first a b =
    ltb b.last_activity_at a.last_activity_at
    || eqb b.last_activity_at a.last_activity_at && text_le b.id a.id

-- The rows of the query, as the table holds them.
unfoldable pub select_conversations : String → Option (ℕ × String) → ℕ → Db → List ConversationRow
select_conversations owner_id cut limit db = take limit (
    sort_by most_recent_first (
      filter
        (λ c.
          any (is_active_member c.id owner_id) db.participants
          && is_none c.deleted_at
          && is_after_cursor cut c)
        db.conversations))

-- The casts of the cursor's two halves; `uuid` is the cast to uuid, as canonical text.
abbrev pub cast_id : (String → Option String) → String → Result String
cast_id uuid s = elim (uuid s) [ none ↦ err other_error | some i ↦ ok i ]

unfoldable pub cast_cursor :
    IsoDate → (String → Option String) → Option (String × String) → Result (Option (ℕ × String))
cast_cursor iso uuid none = ok none
cast_cursor iso uuid (some (at, id)) = do
  t ← cast_result (iso.cast at)
  i ← cast_id uuid id
  ok (some (t, i))

pub record ListConversationsResult : Type 0 where
  pub conversations : List Conversation
  pub next_cursor : Option String

module _ (collate : String → String → Bool) (uuid : String → Option String) (lifetime now : ℕ)
    (iso : IsoDate) where
  unfoldable pub hydrate_conversations : Db → List ConversationRow → String → List Conversation
  unfolding to_conversation participants_in last_message_in last_call_in
  hydrate_conversations db rows owner_id =
      map
        (λ row.
          to_conversation iso row (participants_in db row.id) (last_message_in db row.id)
            (last_call_in collate lifetime now db row.id) owner_id)
        rows

  unfoldable pub list_conversations :
      String → ℕ → Option String → Db → Result ListConversationsResult
  unfolding hydrate_conversations select_conversations cast_cursor parse_cursor issue_cursor
  list_conversations owner_id limit cursor db = do
    cut ← cast_cursor iso uuid (parse_cursor iso cursor)
    let rows = map read_conversation (select_conversations owner_id cut limit db)
    ok (record {
      conversations = hydrate_conversations db rows owner_id;
      next_cursor =
          if eqb (length rows) limit then Option.map (issue_cursor iso) (last? rows) else none;
    })

  unfoldable pub get_conversation : String → String → Db → Option Conversation
  unfolding hydrate_conversations
  get_conversation conversation_id owner_id db =
      elim (find (is_live conversation_id) db.conversations) [
        | none ↦ none
        | some row ↦ first? (hydrate_conversations db (read_conversation row ∷ []) owner_id)
      ]

-- The two conditions of `getUnreadConversationIds` on the newest message and the watermark, both
-- as the tables hold them.
unfoldable pub is_unread_row : String → Option ℕ → Option MessageRow → Bool
is_unread_row owner_id last_read_at none = false
is_unread_row owner_id last_read_at (some m) =
    not (m.sender_owner_id == owner_id)
    && elim last_read_at [ none ↦ true | some t ↦ ltb t m.created_at ]

unfoldable pub get_unread_conversation_ids : String → Db → List String
unfolding is_unread_row newest_message
get_unread_conversation_ids owner_id db =
    map (λ c. c.id)
      (filter
        (λ c.
          any
            (λ p.
              is_active_member c.id owner_id p
              && is_unread_row owner_id p.last_read_at (newest_message db c.id))
            db.participants
          && is_none c.deleted_at)
        db.conversations)
