-- ===== src/Messenger/Routes/Groups.antt =====
-- The bound on a group's size, which only the handler enforces.
use datha_platform.Base.{
  ℕ, ◌≤◌, String, true, ◌||◌, List, ◌++◌, map, none, some, arith, any, filter, find, length, ltb,
  ◌≡◌, ap, subst, sym, ◌∙◌, Bool-cases, Option-cases, inl, inr,
}
use datha_platform.Base.Iso.{IsoDate}
use datha_platform.Messenger.Result.{ok, Result-cases}
use datha_platform.Messenger.Rows.{is_direct, ParticipantRow, Db}
use datha_platform.Messenger.Wire.{ConversationParticipant}
use datha_platform.Messenger.Calls.{contains}
use datha_platform.Messenger.Calls.View.{contains-append}
use datha_platform.Messenger.Messages.{is_active_member}
use datha_platform.Messenger.Authz.{
  AuthzAction, ConversationFacts, is_active_of, is_live, load_conversation_facts,
  authorize_conversation,
}
use datha_platform.Messenger.Authz.Decisions.{contains-active}
use datha_platform.Messenger.Conversations.{unique, upsert_participants, join_rows}
use datha_platform.Messenger.Conversations.Members.{has_duplicate-unique}
use datha_platform.Messenger.Conversations.Sizes.{length-subset, contains-unique, join_rows-only}
use datha_platform.Messenger.Routes.{Config}
use datha_platform.Messenger.Routes.Chats.{on_joined, admit_participants, post_participants}

-- Everybody who is in a conversation, named once.
abbrev pub members_in : Db → String → List String
members_in db id = unique (map (λ p. p.owner_id) (filter (is_active_of id) db.participants))

-- An upsert leaves no more members than the two lists, joined, name.
upsert_participants-size :
    (now : ℕ) (id : String) (owners : List String) (db db' : Db) (touched : List ParticipantRow)
    → upsert_participants now id owners none db ≡ ok (touched, db')
    → length (members_in db' id)
      ≤ length (unique (map (λ p. p.owner_id) (filter (is_active_of id) db.participants) ++ owners))
unfolding upsert_participants
upsert_participants-size now id owners db db' touched h =
    let before =
      map (λ (p : ParticipantRow). p.owner_id) (filter (is_active_of id) db.participants) in
    let after =
      map (λ (p : ParticipantRow). p.owner_id) (filter (is_active_of id) db'.participants) in
    let rows : db'.participants ≡ join_rows now id owners none db.participants =
      ground (arith, h) in
    length-subset (unique after) (unique (before ++ owners)) (has_duplicate-unique after) (λ x k.
      let old : any (is_active_member id x) db'.participants ≡ true =
        sym (contains-active id x db'.participants) ∙ sym (contains-unique after x) ∙ k in
      let new =
        join_rows-only now id owners none db.participants x
          (ap (any (is_active_member id x)) (sym rows) ∙ old) in
      contains-unique (before ++ owners) x
      ∙ contains-append before owners x
      ∙ ap (λ b. b || contains owners x) (contains-active id x db.participants)
      ∙ new)

admit_participants-size :
    (iso : IsoDate) (config : Config) (now : ℕ) (id : String) (facts : ConversationFacts)
    (owners : List String) (db : Db) (shown : List ConversationParticipant)
    → facts.participants ≡ map (λ p. p.owner_id) (filter (is_active_of id) db.participants)
    → (admit_participants iso config now id facts owners db).body ≡ some shown
    → length (members_in (admit_participants iso config now id facts owners db).db id)
      ≤ config.max_group_participants
unfolding admit_participants on_joined
admit_participants-size iso config now id facts owners db shown same h =
    elim (Bool-cases (is_direct facts.type)) [
      | inl e ↦ ground (arith, e, h)
      | inr e ↦ elim (Result-cases (upsert_participants now id owners none db)) [
        | inl ((touched, d), f) ↦
            let size = upsert_participants-size now id owners db d touched f in
            let total : length (unique (facts.participants ++ owners))
                ≡ length (
                    unique (
                      map (λ p. p.owner_id) (filter (is_active_of id) db.participants) ++ owners)) =
              ap (λ ps. length (unique (ps ++ owners))) same in
            elim (Bool-cases (
              ltb config.max_group_participants (length (unique (facts.participants ++ owners))))) [
                | inl g ↦ ground (arith, e, g, h)
                | inr g ↦
                    let after : (admit_participants iso config now id facts owners db).db ≡ d =
                      ground (arith, e, g, f) in
                    let fits : length (members_in d id) ≤ config.max_group_participants =
                      ground (arith, size, total, g) in
                    subst (λ x. length (members_in x id) ≤ config.max_group_participants)
                      (sym after) fits
              ]
        | inr (x, f) ↦ ground (arith, e, f, h)
      ]
    ]

facts-participants :
    (db : Db) (id owner : String) (facts : ConversationFacts)
    → load_conversation_facts db id owner ≡ some facts
    → facts.participants ≡ map (λ p. p.owner_id) (filter (is_active_of id) db.participants)
unfolding load_conversation_facts
facts-participants db id owner facts h =
    ground (arith, h, Option-cases (find (is_live id) db.conversations))

-- A request that is answered with data passed the checks of its caller.
post_participants-admits :
    (iso : IsoDate) (config : Config) (now : ℕ) (owner id : String) (owners : List String) (db : Db)
    (shown : List ConversationParticipant)
    → (post_participants iso config now owner (some id) (some owners) db).body ≡ some shown
    → (facts : ConversationFacts) × (facts.participants
        ≡ map (λ p. p.owner_id) (filter (is_active_of id) db.participants))
      × (post_participants iso config now owner (some id) (some owners) db
          ≡ admit_participants iso config now id facts owners db)
unfolding post_participants authorize_conversation
post_participants-admits iso config now owner id owners db shown h =
    elim (Option-cases (load_conversation_facts db id owner)) [
      | inl e ↦ ground (arith, e, h)
      | inr (facts, e) ↦
          elim (Bool-cases
            (authorize_conversation db id owner config.default_tenant_id
              AuthzAction.conversation_write).allowed) [
                | inl f ↦ (facts, facts-participants db id owner facts e, ground (arith, e, f))
                | inr f ↦ ground (arith, e, f, h)
              ]
    ]

-- A handled request to add people leaves at most MAX_GROUP_PARTICIPANTS in the conversation, however
-- many it names and whoever was in it, had left it or was new.
pub post_participants-size :
    (iso : IsoDate) (config : Config) (now : ℕ) (owner id : String) (owners : List String) (db : Db)
    (shown : List ConversationParticipant)
    → (post_participants iso config now owner (some id) (some owners) db).body ≡ some shown
    → length (members_in (post_participants iso config now owner (some id) (some owners) db).db id)
      ≤ config.max_group_participants
post_participants-size iso config now owner id owners db shown h =
    let (facts, same, is) = post_participants-admits iso config now owner id owners db shown h in
    subst (λ x. length (members_in x id) ≤ config.max_group_participants) (sym (ap (λ x. x.db) is))
      (admit_participants-size iso config now id facts owners db shown same
        (sym (ap (λ x. x.body) is) ∙ h))
