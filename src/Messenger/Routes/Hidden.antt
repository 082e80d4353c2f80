-- ===== src/Messenger/Routes/Hidden.antt =====
-- Who is told that a conversation exists.
use datha_platform.Base.{ℕ, String, Bool, false, Option, none, some, arith, find, ◌≡◌, Option-cases}
use datha_platform.Base.Iso.{IsoDate}
use datha_platform.Messenger.Rows.{Db}
use datha_platform.Messenger.Messages.{is_active_member}
use datha_platform.Messenger.Authz.{
  AuthzAction, is_live, authorize_conversation, load_conversation_facts,
}
use datha_platform.Messenger.Authz.Decisions.{authorize_conversation-permits}
use datha_platform.Messenger.Routes.{refuse, Config}
use datha_platform.Messenger.Routes.Threads.{
  SendBody, Granted, post_message, get_messages, get_attachment,
}
use datha_platform.Messenger.Routes.Chats.{get_conversation_by_id, patch_conversation, post_read}
use datha_platform.Messenger.Routes.History.{get_conversation_calls}

-- Whoever is not in a conversation is denied every action in it.
outsider_denied :
    (db : Db) (id owner tenant : String) (action : AuthzAction)
    → find (is_active_member id owner) db.participants ≡ none
    → (authorize_conversation db id owner tenant action).allowed ≡ false
outsider_denied db id owner tenant action h = ground (
  arith,
  h,
  authorize_conversation-permits db id owner tenant action,
  Option-cases (find (is_live id) db.conversations),
)

module _ (collate : String → String → Bool) (uuid : String → Option String)
    (lifetime read_at now : ℕ) (iso : IsoDate) (config : Config) (fresh : String)
    (files : String → String → Granted) (owner id message_id : String) (send : SendBody) (limit : ℕ)
    (before : Option String) (calls : Option ℕ) (db : Db) where
  -- To somebody who is not in a conversation, the six handlers that read or write its thread give one
  -- reply, 404 with no effect, whether or not the conversation exists.
  pub outsider-not_found :
      find (is_active_member id owner) db.participants ≡ none
      → (post_message iso config fresh now owner (some id) (some send) db ≡ refuse 404 db)
        × (get_messages iso config owner (some id) (some (limit, before)) db ≡ refuse 404 db)
        × (get_attachment config files owner (some (id, message_id)) db ≡ refuse 404 db)
        × (post_read iso config owner (some id) (some message_id) db ≡ refuse 404 db)
        × (get_conversation_by_id collate uuid lifetime read_at iso config owner (some id) db
            ≡ refuse 404 db)
        × (get_conversation_calls collate lifetime read_at iso config owner
              (some id)
              (some calls)
              db
            ≡ refuse 404 db)
  unfolding post_message get_messages get_attachment post_read get_conversation_by_id
      get_conversation_calls
  outsider-not_found h = (
    ground (arith, outsider_denied db id owner config.default_tenant_id AuthzAction.message_send h),
    ground (arith, outsider_denied db id owner config.default_tenant_id AuthzAction.message_read h),
    ground (arith, outsider_denied db id owner config.default_tenant_id AuthzAction.message_read h),
    ground (arith, outsider_denied db id owner config.default_tenant_id AuthzAction.message_read h),
    ground (
      arith,
      outsider_denied db id owner config.default_tenant_id AuthzAction.conversation_read h,
    ),
    ground (
      arith,
      outsider_denied db id owner config.default_tenant_id AuthzAction.conversation_read h,
    ),
  )

-- Retitling is the exception: to the same caller it answers 403 exactly when the conversation
-- exists, and 404 when it does not.
pub patch_conversation-outsider :
    (collate : String → String → Bool) (uuid : String → Option String) (lifetime read_at : ℕ)
    (iso : IsoDate) (config : Config) (owner id : String) (title : Option String) (db : Db)
    → find (is_active_member id owner) db.participants ≡ none
    → patch_conversation collate uuid lifetime read_at iso config owner (some id) (some title) db
      ≡ refuse (elim (find (is_live id) db.conversations) [ none ↦ 404 | some c ↦ 403 ]) db
unfolding patch_conversation authorize_conversation load_conversation_facts
patch_conversation-outsider collate uuid lifetime read_at iso config owner id title db h = ground (
  arith,
  outsider_denied db id owner config.default_tenant_id AuthzAction.conversation_write h,
  Option-cases (find (is_live id) db.conversations),
)
