-- ===== src/Messenger/Conversations.antt =====
-- messenger-service/src/services/conversations.ts: creating, joining, leaving and listing.
pub mod Members
pub mod Direct
pub mod Sizes
use mathlib.Core.Option
use Prim.Native.Char.{code}
use datha_platform.Base.{
  ℕ, String, Bool, true, false, not, ◌&&◌, ◌||◌, ◌==◌, List, [], ◌∷◌, ◌++◌, map, Option, none, some,
  ltb, leb, eqb, if◌then◌else◌, is_none, is_some, any, filter, find, update, take, sort_by, length,
  last?,
}
use datha_platform.Base.Texts.{text_le, concat}
use datha_platform.Base.Iso.{IsoDate}
use datha_platform.Messenger.Result.{
  Result, ok, err, fk_violation, other_error, bad_input, ◌>>=◌, cast_nullable,
}
use datha_platform.Messenger.Rows.{
  ConversationType, direct, group, ParticipantRole, admin, member, ConversationRow, ParticipantRow,
  MessageRow, CallRow, Db, is_direct, read_conversation, read_participant, read_message, read_call,
}
use datha_platform.Messenger.Wire.{
  Conversation, settle_stale_call, to_message, to_participant, to_call,
}
use datha_platform.Messenger.Calls.{contains, hydrate_call, newest_first, has_conversation}
use datha_platform.Messenger.Messages.{newest_message_first, is_active_member}
use datha_platform.Messenger.Authz.{is_active_of}

unfoldable pub join_bar : List String → String
unfolding concat
join_bar [] = ""
join_bar (x ∷ []) = x
join_bar (x ∷ y ∷ xs) = concat x (concat "|" (join_bar (y ∷ xs)))

unfoldable pub direct_key_for : List String → String
unfolding text_le join_bar
direct_key_for owner_ids = join_bar (sort_by text_le owner_ids)

pub record CreateConversationInput : Type 0 where
  pub owner_id : String
  pub tenant_id : String
  pub type : ConversationType
  pub participant_owner_ids : List String
  pub title : Option String

pub record CreateConversationResult : Type 0 where
  pub conversation : ConversationRow
  pub participants : List ParticipantRow
  pub created : Bool

-- `[...new Set(ids)]`: the first of equal values is kept.
unfoldable pub unique : List String → List String
unique [] = []
unique (x ∷ xs) = x ∷ filter (λ y. not (y == x)) (unique xs)

-- `members` of `createConversation`; `filter(Boolean)` drops the empty id.
unfoldable pub members_of : CreateConversationInput → List String
unfolding unique
members_of input =
    filter (λ id. not (id == "")) (unique (input.owner_id ∷ input.participant_owner_ids))

abbrev role_for : Option String → String → ParticipantRole
role_for none owner = member
role_for (some a) owner = if a == owner then admin else member

abbrev pub is_row_of_owner : String → String → ParticipantRow → Bool
is_row_of_owner conversation_id owner p =
    p.conversation_id == conversation_id && p.owner_id == owner

-- A list that names somebody twice: ON CONFLICT DO UPDATE may not touch a row a second time.
unfoldable pub has_duplicate : List String → Bool
has_duplicate [] = false
has_duplicate (x ∷ xs) = contains xs x || has_duplicate xs

-- The rows of the statement: those that exist come back, the others are inserted at `now`.
unfoldable pub join_rows :
    ℕ → String → List String → Option String → List ParticipantRow → List ParticipantRow
join_rows now conversation_id owner_ids admin_owner_id rows =
    update (λ p. p.conversation_id == conversation_id && contains owner_ids p.owner_id)
      (λ p. record p { left_at = none }) rows
    ++ map
        (λ owner. record {
          conversation_id = conversation_id;
          owner_id = owner;
          role = role_for admin_owner_id owner;
          joined_at = now;
          left_at = none;
          last_read_at = none;
          muted_until = none;
        })
        (filter (λ owner. not (any (is_row_of_owner conversation_id owner) rows)) owner_ids)

-- RETURNING *: the rows of the statement, in the order of UNNEST.
unfoldable pub returned_rows : String → List String → List ParticipantRow → List ParticipantRow
returned_rows conversation_id [] rows = []
returned_rows conversation_id (owner ∷ owner_ids) rows =
    let rest = returned_rows conversation_id owner_ids rows in
    elim (find (is_row_of_owner conversation_id owner) rows) [ none ↦ rest | some row ↦ row ∷ rest ]

-- `upsertParticipants`: the touched rows, and the database after.
unfoldable pub upsert_participants :
    ℕ → String → List String → Option String → Db → Result (List ParticipantRow × Db)
unfolding has_duplicate join_rows returned_rows
upsert_participants now conversation_id owner_ids admin_owner_id db =
    if has_duplicate owner_ids
    then err other_error
    else if not (has_conversation conversation_id db.conversations)
    then err fk_violation
    else let rows = join_rows now conversation_id owner_ids admin_owner_id db.participants in
      ok (
        map read_participant (returned_rows conversation_id owner_ids rows),
        record db { participants = rows },
      )

abbrev pub has_direct_key : Option String → ConversationRow → Bool
has_direct_key none c = false
has_direct_key (some k) c = elim c.direct_key [ none ↦ false | some j ↦ j == k ]

abbrev pub new_conversation : String → ℕ → CreateConversationInput → Option String → ConversationRow
new_conversation uuid now input direct_key = record {
  id = uuid;
  tenant_id = input.tenant_id;
  type = input.type;
  direct_key = direct_key;
  title = elim input.type [ group ↦ input.title | direct ↦ none ];
  created_by = input.owner_id;
  created_at = now;
  last_message_at = none;
  last_activity_at = now;
  deleted_at = none;
}

-- The two statements on `conversations`: the row, and whether it was inserted.
unfoldable pub insert_conversation :
    String → ℕ → CreateConversationInput → Option String → Db → Result (ConversationRow × Bool × Db)
insert_conversation uuid now input direct_key db =
    elim (find (has_direct_key direct_key) db.conversations) [
      | some c ↦ ok (c, false, db)
      | none ↦
          if has_conversation uuid db.conversations
          then err other_error
          else let row = new_conversation uuid now input direct_key in
            ok (row, true, record db { conversations = db.conversations ++ (row ∷ []) })
    ]

-- `createConversation`; an error leaves the caller's database, by ROLLBACK.
unfoldable pub create_conversation :
    String → ℕ → CreateConversationInput → Db → Result (CreateConversationResult × Db)
unfolding members_of direct_key_for insert_conversation upsert_participants
create_conversation uuid now input db =
    let members = members_of input in
    let key = if is_direct input.type then some (direct_key_for members) else none in
    if is_direct input.type && not (eqb (length members) 2)
    then err bad_input
    else if ltb (length members) 2
    then err bad_input
    else do
      (row, created, d) ← insert_conversation uuid now input key db
      (participants, d') ←
          upsert_participants now row.id members (if created then some input.owner_id else none) d
      ok (
        record {
          conversation = read_conversation row;
          participants = participants;
          created = created;
        },
        d',
      )

-- `leaveConversation`: whether a row was left, and the database after.
unfoldable pub leave_conversation : ℕ → String → String → Db → Bool × Db
leave_conversation now conversation_id owner_id db = (
  any (is_active_member conversation_id owner_id) db.participants,
  record db {
    participants =
        update (is_active_member conversation_id owner_id) (λ p. record p { left_at = some now })
          db.participants;
  },
)

-- `updateConversationTitle`
unfoldable pub update_conversation_title : String → Option String → Db → Option ConversationRow × Db
update_conversation_title conversation_id title db =
    let chosen = λ (c : ConversationRow).
      c.id == conversation_id && is_none c.deleted_at && not (is_direct c.type) in
    let rows = update chosen (λ c. record c { title = title }) db.conversations in
    (Option.map read_conversation (find chosen rows), record db { conversations = rows })
