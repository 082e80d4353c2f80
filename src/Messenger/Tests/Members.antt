-- ===== src/Messenger/Tests/Members.antt =====
-- Creating conversations and adding people.
use datha_platform.Base.{
  inr, true, false, ◌≡◌, refl, List, [], ◌∷◌, none, find, any, filter, sort_by,
}
use datha_platform.Messenger.Result.{ok, err}
use datha_platform.Messenger.Rows.{direct, ParticipantRow, Db}
use datha_platform.Messenger.Messages.{is_active_member}
use datha_platform.Messenger.Conversations.{
  CreateConversationInput, CreateConversationResult, members_of, has_duplicate, upsert_participants,
  create_conversation, unique, insert_conversation,
}
use datha_platform.Messenger.Conversations.Members.{upsert_participants-active}
use datha_platform.Messenger.Conversations.Direct.{create_conversation-direct_again}
use datha_platform.Messenger.Tests.{db, chat}

abbrev asked : CreateConversationInput
asked = record {
  owner_id = "a1";
  tenant_id = "t1";
  type = direct;
  participant_owner_ids = "c3" ∷ "c3" ∷ [];
  title = none;
}

abbrev asked_back : CreateConversationInput
asked_back = record asked { owner_id = "c3"; participant_owner_ids = "a1" ∷ [] }

abbrev upserted : List ParticipantRow × Db
unfolding upsert_participants
upserted = elim (upsert_participants 9000 "c1" ("b2" ∷ "c3" ∷ []) none db) [
  | ok r ↦ r
  | err e ↦ ([], db)
]

upsert_participants-active_example : any (is_active_member "c1" "c3") upserted.1.participants ≡ true
unfolding upsert_participants upserted has_duplicate any
upsert_participants-active_example =
    upsert_participants-active 9000 "c1" ("b2" ∷ "c3" ∷ []) none db upserted.1 upserted.0 "c3" refl
      refl

abbrev created : CreateConversationResult × Db
unfolding create_conversation
created = elim (create_conversation "n1" 9000 asked db) [
  | ok r ↦ r
  | err e ↦ (record { conversation = chat; participants = []; created = false }, db)
]

create_conversation-direct_again_example :
    (s : CreateConversationResult) × (d : Db) × (create_conversation "n2" 9500 asked_back created.1
      ≡ ok (s, d))
    × (s.conversation ≡ created.0.conversation)
    × (s.created ≡ false)
unfolding create_conversation created members_of unique filter insert_conversation
    upsert_participants has_duplicate any find sort_by
create_conversation-direct_again_example =
    create_conversation-direct_again "n1" "n2" 9000 9500 asked asked_back "a1" "c3" db created.1
      created.0 refl refl refl (inr refl) refl
