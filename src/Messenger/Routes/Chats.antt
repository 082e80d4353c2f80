-- ===== src/Messenger/Routes/Chats.antt =====
-- messenger-service/src/routes/conversations.ts: the handlers of conversations.
use datha_platform.Base.{
  ℕ, suc, String, Bool, not, ◌&&◌, List, [], ◌∷◌, ◌++◌, map, Option, none, some, ltb, if◌then◌else◌,
  length,
}
use datha_platform.Base.Iso.{IsoDate}
use datha_platform.Messenger.Result.{bad_input, Result, ok, err}
use datha_platform.Messenger.Rows.{ConversationType, is_direct, ConversationRow, ParticipantRow, Db}
use datha_platform.Messenger.Wire.{Conversation, ConversationParticipant, to_participant}
use datha_platform.Messenger.Messages.{MarkReadResult, get_message, mark_read}
use datha_platform.Messenger.Authz.{AuthzAction, ConversationFacts, authorize_conversation}
use datha_platform.Messenger.Conversations.{
  CreateConversationResult, unique, create_conversation, upsert_participants, leave_conversation,
  update_conversation_title,
}
use datha_platform.Messenger.Inbox.{
  ListConversationsResult, list_conversations, get_conversation, get_unread_conversation_ids,
}
use datha_platform.Messenger.Routes.{RealtimeFrame, EventPayload, Handled, refuse, answer, Config}
use datha_platform.Messenger.Routes.Threads.{participants_of, others_of}

-- A body that `createBodySchema` lets through.
pub record CreateBody : Type 0 where
  pub type : ConversationType
  pub participant_owner_ids : List String
  pub title : Option String

-- The time now, as Postgres has it and as a `Date` of the read, and what else a reply is made with.
module _ (collate : String → String → Bool) (uuid : String → Option String) (lifetime read_at : ℕ)
    (iso : IsoDate) (config : Config) where
  -- The reply to a conversation that was created, or found.
  unfoldable pub on_created : String → CreateConversationResult → Db → Handled (Option Conversation)
  on_created owner_id result db =
      let shown =
        get_conversation collate uuid lifetime read_at iso result.conversation.id owner_id db in
      let owners = map (λ p. p.owner_id) result.participants in
      if result.created
      then record {
        status = 201;
        body = some shown;
        db = db;
        recorded =
            record {
              entity_id = result.conversation.id;
              owner_id = owner_id;
              payload =
                  EventPayload.conversation_made result.conversation.id result.conversation.type
                    owners;
            }
            ∷ [];
        announced =
            record {
              owner_ids = owners;
              frame = RealtimeFrame.conversation_created result.conversation.id;
            }
            ∷ [];
      }
      else answer 200 shown db

  unfoldable pub on_create :
      String → Db → Result (CreateConversationResult × Db) → Handled (Option Conversation)
  unfolding on_created
  on_create owner_id db (ok (result, db')) = on_created owner_id result db'
  on_create owner_id db (err bad_input) = refuse 400 db
  on_create owner_id db (err _) = refuse 500 db

  -- POST /conversations
  unfoldable pub post_conversation :
      String → ℕ → String → Option CreateBody → Db → Handled (Option Conversation)
  unfolding on_create
  post_conversation id now owner_id none db = refuse 400 db
  post_conversation id now owner_id (some body) db =
      if not (is_direct body.type)
        && ltb config.max_group_participants (suc (length body.participant_owner_ids))
      then refuse 400 db
      else on_create owner_id db (
          create_conversation id now
            (record {
              owner_id = owner_id;
              tenant_id = config.default_tenant_id;
              type = body.type;
              participant_owner_ids = body.participant_owner_ids;
              title = body.title;
            })
            db)

  abbrev on_list : Db → Result ListConversationsResult → Handled ListConversationsResult
  on_list db (ok page) = answer 200 page db
  on_list db (err e) = refuse 500 db

  -- GET /conversations
  unfoldable pub get_conversations :
      String → Option (ℕ × Option String) → Db → Handled ListConversationsResult
  get_conversations owner_id none db = refuse 400 db
  get_conversations owner_id (some (limit, cursor)) db =
      on_list db (list_conversations collate uuid lifetime read_at iso owner_id limit cursor db)

  -- GET /conversations/unread
  unfoldable pub get_unread : String → Db → Handled (List String)
  get_unread owner_id db = answer 200 (get_unread_conversation_ids owner_id db) db

  -- GET /conversations/:id
  unfoldable pub get_conversation_by_id :
      String → Option String → Db → Handled (Option Conversation)
  get_conversation_by_id owner_id none db = refuse 400 db
  get_conversation_by_id owner_id (some id) db =
      let auth =
        authorize_conversation db id owner_id config.default_tenant_id
          AuthzAction.conversation_read in
      if not auth.allowed
      then refuse 404 db
      else answer 200 (get_conversation collate uuid lifetime read_at iso id owner_id db) db

  -- The rest of the PATCH once the caller is an admin.
  unfoldable pub on_retitled :
      String → String → Db → Option ConversationRow × Db → Handled (Option Conversation)
  on_retitled owner_id id db (none, db') = refuse 400 db'
  on_retitled owner_id id db (some row, db') =
      answer 200 (get_conversation collate uuid lifetime read_at iso id owner_id db') db'

  -- PATCH /conversations/:id; the title may be null.
  unfoldable pub patch_conversation :
      String → Option String → Option (Option String) → Db → Handled (Option Conversation)
  unfolding on_retitled
  patch_conversation owner_id none body db = refuse 400 db
  patch_conversation owner_id (some id) none db = refuse 400 db
  patch_conversation owner_id (some id) (some title) db =
      let auth =
        authorize_conversation db id owner_id config.default_tenant_id
          AuthzAction.conversation_write in
      elim auth.facts [
        | none ↦ refuse 404 db
        | some facts ↦
            if not auth.allowed
            then refuse 403 db
            else on_retitled owner_id id db (update_conversation_title id title db)
      ]

-- The reply to an upsert of participants.
unfoldable pub on_joined :
    IsoDate → Db → Result (List ParticipantRow × Db) → Handled (List ConversationParticipant)
on_joined iso db (ok (rows, db')) = answer 200 (map (to_participant iso) rows) db'
on_joined iso db (err e) = refuse 500 db

-- The rest of the POST once the caller is an admin of the conversation.
unfoldable pub admit_participants :
    IsoDate
    → Config
    → ℕ
    → String
    → ConversationFacts
    → List String
    → Db
    → Handled (List ConversationParticipant)
unfolding on_joined
admit_participants iso config now id facts owner_ids db =
    if is_direct facts.type
    then refuse 400 db
    else if ltb config.max_group_participants (length (unique (facts.participants ++ owner_ids)))
    then refuse 400 db
    else on_joined iso db (upsert_participants now id owner_ids none db)

-- POST /conversations/:id/participants
unfoldable pub post_participants :
    IsoDate
    → Config
    → ℕ
    → String
    → Option String
    → Option (List String)
    → Db
    → Handled (List ConversationParticipant)
unfolding admit_participants
post_participants iso config now owner_id none body db = refuse 400 db
post_participants iso config now owner_id (some id) none db = refuse 400 db
post_participants iso config now owner_id (some id) (some owner_ids) db =
    let auth =
      authorize_conversation db id owner_id config.default_tenant_id
        AuthzAction.conversation_write in
    elim auth.facts [
      | none ↦ refuse 404 db
      | some facts ↦
          if not auth.allowed
          then refuse 403 db
          else admit_participants iso config now id facts owner_ids db
    ]

-- A reply without a body.
abbrev done_with : Db → Handled (Unit {0})
done_with db = record { status = 204; body = none; db = db; recorded = []; announced = [] }

-- DELETE /conversations/:id/participants/me
unfoldable pub delete_participant_me : ℕ → String → Option String → Db → Handled (Unit {0})
delete_participant_me now owner_id none db = refuse 400 db
delete_participant_me now owner_id (some id) db =
    let left = leave_conversation now id owner_id db in
    if not left.0 then refuse 404 left.1 else done_with left.1

-- The reply to an accepted mark, which announces only a mark that advanced.
unfoldable pub on_marked :
    IsoDate → String → String → List String → MarkReadResult → Db → Handled String
on_marked iso owner_id id participants result db =
    let at = iso.to_iso result.last_read_at in
    if result.advanced
    then record {
      status = 200;
      body = some at;
      db = db;
      recorded = [];
      announced =
          record { owner_ids = owner_id ∷ []; frame = RealtimeFrame.unread_cleared id }
          ∷ record {
            owner_ids = others_of owner_id participants;
            frame = RealtimeFrame.receipt_read id owner_id at;
          }
          ∷ [];
    }
    else answer 200 at db

-- POST /conversations/:id/read
unfoldable pub post_read :
    IsoDate → Config → String → Option String → Option String → Db → Handled String
unfolding on_marked
post_read iso config owner_id none body db = refuse 400 db
post_read iso config owner_id (some id) none db = refuse 400 db
post_read iso config owner_id (some id) (some message_id) db =
    let auth =
      authorize_conversation db id owner_id config.default_tenant_id AuthzAction.message_read in
    if not auth.allowed then refuse 404 db else elim (get_message id message_id db) [
      | none ↦ refuse 404 db
      | some m ↦ elim (mark_read id owner_id message_id db) [
        | none ↦ refuse 404 db
        | some (result, db') ↦ on_marked iso owner_id id (participants_of auth.facts) result db'
      ]
    ]
