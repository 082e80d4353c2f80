-- ===== src/Messenger/Conversations/Direct.antt =====
-- The direct conversation of two people: its key does not depend on who asks, so that the second to
-- ask gets the conversation of the first.
use datha_platform.Base.{
  ◌⊎◌, ℕ, String, Bool, true, false, List, [], ◌∷◌, Option, none, some, arith, if◌then◌else◌, find,
  ◌≡◌, refl, ap, sym, subst, ◌∙◌, Bool-cases, Option-cases, inl, inr, eq_refl, find-append, sort_by,
  insert_by,
}
use datha_platform.Base.Texts.{text_le, text_le-total, text_le-antisym}
use datha_platform.Messenger.Result.{ok, Result-cases}
use datha_platform.Messenger.Calls.{has_conversation}
use datha_platform.Messenger.Conversations.Members.{has_duplicate-members_of}
use datha_platform.Messenger.Rows.{direct, ConversationRow, ParticipantRow, Db, read_conversation}
use datha_platform.Messenger.Conversations.{
  direct_key_for, has_duplicate, CreateConversationInput, CreateConversationResult, members_of,
  has_direct_key, new_conversation, insert_conversation, upsert_participants, create_conversation,
}

-- The key of a pair, in either order.
pub direct_key_for_swap : (a b : String) → direct_key_for (a ∷ b ∷ []) ≡ direct_key_for (b ∷ a ∷ [])
unfolding direct_key_for sort_by insert_by
direct_key_for_swap a b = elim (Bool-cases (text_le a b)) [
  | inl e ↦ elim (Bool-cases (text_le b a)) [
    | inl f ↦ rw (text_le-antisym a b e f) refl
    | inr f ↦ ground (arith, e, f)
  ]
  | inr e ↦ ground (arith, e, text_le-total a b e)
]

-- The row of the first statement is the one that its key finds from then on.
insert_conversation-found :
    (uuid : String) (now : ℕ) (input : CreateConversationInput) (key : String) (db d : Db)
    (row : ConversationRow) (created : Bool)
    → insert_conversation uuid now input (some key) db ≡ ok (row, created, d)
    → find (has_direct_key (some key)) d.conversations ≡ some row
unfolding insert_conversation find
insert_conversation-found uuid now input key db d row created h = ground (
  arith,
  Option-cases (find (has_direct_key (some key)) db.conversations),
  Bool-cases (has_conversation uuid db.conversations),
  eq_refl key,
  find-append (has_direct_key (some key)) db.conversations
      (new_conversation uuid now input (some key) ∷ []),
)

insert_conversation-hit :
    (uuid : String) (now : ℕ) (input : CreateConversationInput) (key : String) (db : Db)
    (row : ConversationRow)
    → find (has_direct_key (some key)) db.conversations ≡ some row
    → insert_conversation uuid now input (some key) db ≡ ok (row, false, db)
unfolding insert_conversation
insert_conversation-hit uuid now input key db row h = ground (arith, h)

-- What an accepted upsert says of the conversation, and when one is accepted.
upsert_participants-keeps :
    (now : ℕ) (id : String) (owners : List String) (admin : Option String) (db db' : Db)
    (touched : List ParticipantRow)
    → upsert_participants now id owners admin db ≡ ok (touched, db')
    → (db'.conversations ≡ db.conversations) × (has_conversation id db.conversations ≡ true)
unfolding upsert_participants
upsert_participants-keeps now id owners admin db db' touched h = (ground arith, ground arith)

upsert_participants-accepts :
    (now : ℕ) (id : String) (owners : List String) (admin : Option String) (db : Db)
    → has_duplicate owners ≡ false
    → has_conversation id db.conversations ≡ true
    → (x : List ParticipantRow × Db) × (upsert_participants now id owners admin db ≡ ok x)
unfolding upsert_participants
upsert_participants-accepts now id owners admin db h k =
    elim (Result-cases (upsert_participants now id owners admin db)) [
      | inl e ↦ e
      | inr (e, f) ↦ ground (arith, h, k, f)
    ]

abbrev admin_of : Bool → CreateConversationInput → Option String
admin_of created input = if created then some input.owner_id else none

-- The three steps of an accepted request for a direct conversation.
record Created (uuid : String) (now : ℕ) (input : CreateConversationInput) (db db' : Db)
    (r : CreateConversationResult) : Type 0 where
  row : ConversationRow
  created : Bool
  middle : Db
  touched : List ParticipantRow
  inserted :
      insert_conversation uuid now input (some (direct_key_for (members_of input))) db
      ≡ ok (row, created, middle)
  joined :
      upsert_participants now row.id (members_of input) (admin_of created input) middle
      ≡ ok (touched, db')
  shown : r.conversation ≡ read_conversation row

create_conversation-Created :
    (uuid : String) (now : ℕ) (input : CreateConversationInput) (db db' : Db)
    (r : CreateConversationResult)
    → input.type ≡ direct
    → create_conversation uuid now input db ≡ ok (r, db')
    → Created uuid now input db db' r
unfolding create_conversation
create_conversation-Created uuid now input db db' r kind h =
    elim (Result-cases
      (insert_conversation uuid now input (some (direct_key_for (members_of input))) db)) [
        | inl ((row, created, middle), e) ↦
            elim (Result-cases
              (upsert_participants now row.id (members_of input) (admin_of created input) middle)) [
                | inl ((touched, d), f) ↦
                    let same : d ≡ db' = ground (arith, kind, e, f, h) in
                    record {
                      row = row;
                      created = created;
                      middle = middle;
                      touched = touched;
                      inserted = e;
                      joined = f ∙ ap (λ x. ok (touched, x)) same;
                      shown = ground (arith, kind, e, f, h);
                    }
                | inr (x, f) ↦ ground (arith, kind, e, f, h)
              ]
        | inr (x, e) ↦ ground (arith, kind, e, h)
      ]

-- A request for a direct conversation of `a` and `b` that was accepted is answered the next time,
-- whichever of the two asks, with the conversation of the first request, and creates none.
pub create_conversation-direct_again :
    (uuid uuid' : String) (now later : ℕ) (input again : CreateConversationInput) (a b : String)
    (db db' : Db) (r : CreateConversationResult)
    → input.type ≡ direct
    → again.type ≡ direct
    → members_of input ≡ a ∷ b ∷ []
    → (members_of again ≡ a ∷ b ∷ []) ⊎ (members_of again ≡ b ∷ a ∷ [])
    → create_conversation uuid now input db ≡ ok (r, db')
    → (s : CreateConversationResult) × (d : Db) × (create_conversation uuid' later again db'
        ≡ ok (s, d))
      × (s.conversation ≡ r.conversation)
      × (s.created ≡ false)
unfolding create_conversation
create_conversation-direct_again uuid uuid' now later input again a b db db' r kind kind' pair pair'
      h =
    let c = create_conversation-Created uuid now input db db' r kind h in
    let (keeps, has) =
      upsert_participants-keeps now c.row.id (members_of input) (admin_of c.created input) c.middle
        db' c.touched c.joined in
    let key : direct_key_for (members_of input) ≡ direct_key_for (members_of again) = elim pair' [
      | inl e ↦ ap direct_key_for (pair ∙ sym e)
      | inr e ↦ ap direct_key_for pair ∙ direct_key_for_swap a b ∙ ap direct_key_for (sym e)
    ] in
    let found : find (has_direct_key (some (direct_key_for (members_of again)))) db'.conversations
        ≡ some c.row =
      subst (λ k. find (has_direct_key (some k)) db'.conversations ≡ some c.row) key
        (ap (find (has_direct_key (some (direct_key_for (members_of input))))) keeps
          ∙ insert_conversation-found uuid now input (direct_key_for (members_of input)) db c.middle
              c.row c.created c.inserted) in
    let hit =
      insert_conversation-hit uuid' later again (direct_key_for (members_of again)) db' c.row
        found in
    let ((touched, d), accepted) =
      upsert_participants-accepts later c.row.id (members_of again) none db'
        (has_duplicate-members_of again) (ap (has_conversation c.row.id) keeps ∙ has) in
    (
      record { conversation = read_conversation c.row; participants = touched; created = false },
      d,
      ground (arith, kind', pair', hit, accepted),
      sym c.shown,
      refl,
    )
