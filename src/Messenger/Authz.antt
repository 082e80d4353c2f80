-- ===== src/Messenger/Authz.antt =====
-- messenger-service/src/services/authz.ts: who may do what in a conversation.
pub mod Decisions
use mathlib.Core.Option
use datha_platform.Base.{
  String, Bool, true, false, not, ◌&&◌, ◌==◌, List, [], ◌∷◌, map, Option, none, some, if◌then◌else◌,
  is_none, find, filter,
}
use datha_platform.Messenger.Rows.{
  ConversationType, ParticipantRole, ConversationRow, ParticipantRow, Db, is_admin,
}
use datha_platform.Messenger.Calls.{contains}
use datha_platform.Messenger.Messages.{is_active_member}

pub data AuthzAction : Type 0 where
  conversation_read conversation_write message_send message_read call_invite call_join : AuthzAction

pub record AuthzSubject : Type 0 where
  pub owner_id : String
  pub tenant_id : String
  pub roles : List ParticipantRole

pub data ResourceType : Type 0 where
  conversation call : ResourceType

pub record AuthzResource : Type 0 where
  pub type : ResourceType
  pub id : String
  pub tenant_id : String
  pub participants : List String

pub record AuthzInput : Type 0 where
  pub subject : AuthzSubject
  pub action : AuthzAction
  pub resource : AuthzResource

abbrev pub includes_admin : List ParticipantRole → Bool
includes_admin [] = false
includes_admin (r ∷ rs) = if is_admin r then true else includes_admin rs

abbrev pub is_write : AuthzAction → Bool
is_write AuthzAction.conversation_write = true
is_write _ = false

unfoldable pub can : AuthzInput → Bool
can input =
    if not (input.subject.tenant_id == input.resource.tenant_id)
    then false
    else if not (contains input.resource.participants input.subject.owner_id)
    then false
    else if is_write input.action
    then includes_admin input.subject.roles
    else true

pub record ConversationFacts : Type 0 where
  pub tenant_id : String
  pub type : ConversationType
  pub participants : List String
  pub role : Option ParticipantRole

abbrev pub is_live : String → ConversationRow → Bool
is_live id c = c.id == id && is_none c.deleted_at

abbrev pub is_active_of : String → ParticipantRow → Bool
is_active_of id p = p.conversation_id == id && is_none p.left_at

-- The facts of one live conversation. The primary key leaves MAX(role) at most one row to look at.
unfoldable pub load_conversation_facts : Db → String → String → Option ConversationFacts
load_conversation_facts db conversation_id owner_id =
    Option.map
      (λ c. record {
        tenant_id = c.tenant_id;
        type = c.type;
        participants =
            map (λ p. p.owner_id) (filter (is_active_of conversation_id) db.participants);
        role =
            Option.map (λ p. p.role)
              (find (is_active_member conversation_id owner_id) db.participants);
      })
      (find (is_live conversation_id) db.conversations)

pub record AuthorizeResult : Type 0 where
  pub allowed : Bool
  pub facts : Option ConversationFacts

abbrev roles_of : Option ParticipantRole → List ParticipantRole
roles_of none = []
roles_of (some role) = role ∷ []

-- The decision on the facts of a conversation.
unfoldable pub decide_on : String → String → String → AuthzAction → ConversationFacts → Bool
unfolding can
decide_on conversation_id owner_id tenant_id action facts = can (record {
  subject = record { owner_id = owner_id; tenant_id = tenant_id; roles = roles_of facts.role };
  action = action;
  resource = record {
    type = ResourceType.conversation;
    id = conversation_id;
    tenant_id = facts.tenant_id;
    participants = facts.participants;
  };
})

unfoldable pub authorize_conversation :
    Db → String → String → String → AuthzAction → AuthorizeResult
unfolding load_conversation_facts decide_on
authorize_conversation db conversation_id owner_id tenant_id action =
    elim (load_conversation_facts db conversation_id owner_id) [
      | none ↦ record { allowed = false; facts = none }
      | some facts ↦ record {
        allowed = decide_on conversation_id owner_id tenant_id action facts;
        facts = some facts;
      }
    ]
