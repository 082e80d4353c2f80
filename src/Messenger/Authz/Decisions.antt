-- ===== src/Messenger/Authz/Decisions.antt =====
-- What `authorizeConversation` decides, against the policy read off the tables.
use datha_platform.Base.{
  ℕ, String, Bool, false, not, ◌&&◌, ◌||◌, ◌==◌, List, [], ◌∷◌, map, Option, some, arith, any, find,
  filter, ◌≡◌, refl, Option-cases, inl, inr, eq_iff,
}
use datha_platform.Base.Tables.{any-eq-is_some, find-eq-none, find-update_miss}
use datha_platform.Base.Queries.{any-update}
use datha_platform.Messenger.Rows.{ConversationRow, ParticipantRow, Db, is_admin}
use datha_platform.Messenger.Calls.{contains}
use datha_platform.Messenger.Messages.{is_active_member}
use datha_platform.Messenger.Authz.{
  AuthzAction, is_write, is_live, is_active_of, can, load_conversation_facts, decide_on,
  authorize_conversation,
}
use datha_platform.Messenger.Conversations.{leave_conversation}

-- The policy on the two rows: the conversation is the tenant's, the caller has not left it, and
-- a write is an admin's.
abbrev pub permits : String → AuthzAction → Option ConversationRow → Option ParticipantRow → Bool
permits tenant_id action (some c) (some p) =
    tenant_id == c.tenant_id && (not (is_write action) || is_admin p.role)
permits tenant_id action _ _ = false

pub contains-active :
    (id owner : String) (ps : List ParticipantRow)
    → contains (map (λ p. p.owner_id) (filter (is_active_of id) ps)) owner
      ≡ any (is_active_member id owner) ps
unfolding filter any
contains-active id owner [] = refl
contains-active id owner (p ∷ ps) = ground (arith, contains-active id owner ps)

-- A caller is allowed exactly when a live conversation with this id is of the caller's tenant, the
-- caller is in it and has not left, and, for `conversation.write`, has the role admin.
pub authorize_conversation-permits :
    (db : Db) (id owner tenant : String) (action : AuthzAction)
    → (authorize_conversation db id owner tenant action).allowed
      ≡ permits tenant action
          (find (is_live id) db.conversations)
          (find (is_active_member id owner) db.participants)
unfolding authorize_conversation load_conversation_facts decide_on can
authorize_conversation-permits db id owner tenant action =
    elim (Option-cases (find (is_live id) db.conversations)) [
      | inl e ↦ ground (arith, e)
      | inr (c, e) ↦ elim (Option-cases (find (is_active_member id owner) db.participants)) [
        | inl f ↦ ground (
          arith,
          e,
          f,
          contains-active id owner db.participants,
          any-eq-is_some (is_active_member id owner) db.participants,
        )
        | inr (p, f) ↦ ground (
          arith,
          e,
          f,
          contains-active id owner db.participants,
          any-eq-is_some (is_active_member id owner) db.participants,
        )
      ]
    ]

-- Once a caller has left, every action is denied, in every tenant, until the caller is added again.
pub authorize_conversation-leave_conversation :
    (db : Db) (now : ℕ) (id owner tenant : String) (action : AuthzAction)
    → (authorize_conversation (leave_conversation now id owner db).1 id owner tenant action).allowed
      ≡ false
unfolding leave_conversation
authorize_conversation-leave_conversation db now id owner tenant action =
    let left =
      find-eq-none (is_active_member id owner) (leave_conversation now id owner db).1.participants (
        any-update (is_active_member id owner) (is_active_member id owner)
          (λ p. record p { left_at = some now }) (λ p e. ground arith) (λ p e. e)
          db.participants) in
    ground (
      arith,
      left,
      authorize_conversation-permits (leave_conversation now id owner db).1 id owner tenant action,
      Option-cases (find (is_live id) db.conversations),
    )

-- One member's leaving changes no decision about anybody else.
pub authorize_conversation-leave_conversation_other :
    (db : Db) (now : ℕ) (id owner other tenant : String) (action : AuthzAction)
    → (other == owner) ≡ false
    → (authorize_conversation (leave_conversation now id owner db).1 id other tenant action).allowed
      ≡ (authorize_conversation db id other tenant action).allowed
unfolding leave_conversation
authorize_conversation-leave_conversation_other db now id owner other tenant action h =
    let same =
      find-update_miss (is_active_member id owner) (is_active_member id other)
        (λ p. record p { left_at = some now })
        (λ p e.
          ground
            (arith, h, e, eq_iff p.owner_id owner, eq_iff p.owner_id other, eq_iff other owner))
        (λ p e. ground arith) db.participants in
    ground (
      arith,
      same,
      authorize_conversation-permits db id other tenant action,
      authorize_conversation-permits (leave_conversation now id owner db).1 id other tenant action,
    )
