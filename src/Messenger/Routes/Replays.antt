-- ===== src/Messenger/Routes/Replays.antt =====
-- A message that a client sends again.
use datha_platform.Base.{
  ℕ, String, Bool, true, false, ◌==◌, List, Option, none, some, arith, find, update, ◌≡◌, refl,
  Option-cases, Bool-cases, inl, inr, if◌then◌else◌, find-update, ap, ◌⊎◌, sym, ◌∙◌,
}
use datha_platform.Base.Iso.{IsoDate}
use datha_platform.Messenger.Result.{ok, Result-cases}
use datha_platform.Messenger.Rows.{ConversationRow, ParticipantRow, Db, bind_date, read_message}
use datha_platform.Messenger.Wire.{Message, to_message}
use datha_platform.Messenger.Messages.{
  SendMessageInput, SendMessageResult, key_of, send_message, new_message, bump_conversation,
  is_active_member,
}
use datha_platform.Messenger.Messages.Sending.{send_message_retry}
use datha_platform.Messenger.Authz.{AuthzAction, is_live, authorize_conversation}
use datha_platform.Messenger.Authz.Decisions.{permits, authorize_conversation-permits}
use datha_platform.Messenger.Routes.{answer, Config}
use datha_platform.Messenger.Routes.Threads.{
  SendBody, send_input, on_sent, on_send, post_message, participants_of,
}

-- The instant that the second statement of a send writes.
abbrev sent_at : String → ℕ → SendMessageInput → ℕ
sent_at uuid now input = bind_date (read_message (new_message uuid now input)).created_at

send_message-tables :
    (uuid : String) (now : ℕ) (input : SendMessageInput) (db db' : Db) (r : SendMessageResult)
    → send_message uuid now input db ≡ ok (r, db')
    → (db'.participants ≡ db.participants)
      × ((db'.conversations ≡ db.conversations)
          ⊎ (db'.conversations
              ≡ update
                  (λ c. c.id == input.conversation_id)
                  (bump_conversation (sent_at uuid now input))
                  db.conversations))
unfolding send_message
send_message-tables uuid now input db db' r h =
    elim (Option-cases (find (key_of input) db.messages)) [
      | inl e ↦ (ground (arith, h, e), inr (ground (arith, h, e)))
      | inr (row, e) ↦ (ground (arith, h, e), inl (ground (arith, h, e)))
    ]

permits_bumped :
    (p : ConversationRow → Bool) (at : ℕ) (tenant : String) (action : AuthzAction)
    (c : Option ConversationRow) (seat : Option ParticipantRow)
    → permits tenant action
        (elim c [ none ↦ none | some row ↦ some (if p row then bump_conversation at row else row) ])
        seat
      ≡ permits tenant action c seat
unfolding bump_conversation
permits_bumped p at tenant action none seat = refl
permits_bumped p at tenant action (some c) none = refl
permits_bumped p at tenant action (some c) (some seat) = ground (arith, Bool-cases (p c))

is_live-bump :
    (id : String) (at : ℕ) (c : ConversationRow)
    → is_live id (bump_conversation at c) ≡ is_live id c
unfolding bump_conversation
is_live-bump id at c = refl

-- Where a decision looks does not change under a send: the participants, and of the conversation all
-- but its two timestamps.
send_message-allowed :
    (uuid : String) (now : ℕ) (input : SendMessageInput) (db db' : Db) (r : SendMessageResult)
    (id owner tenant : String) (action : AuthzAction)
    → send_message uuid now input db ≡ ok (r, db')
    → (authorize_conversation db' id owner tenant action).allowed
      ≡ (authorize_conversation db id owner tenant action).allowed
send_message-allowed uuid now input db db' r id owner tenant action h =
    let (people, chats) = send_message-tables uuid now input db db' r h in
    let seats : find (is_active_member id owner) db'.participants
        ≡ find (is_active_member id owner) db.participants =
      ap (find (is_active_member id owner)) people in
    let same : permits tenant action (find (is_live id) db'.conversations)
          (find (is_active_member id owner) db.participants)
        ≡ permits tenant action (find (is_live id) db.conversations)
            (find (is_active_member id owner) db.participants) =
      elim chats [
        | inl e ↦
            ap
              (λ cs.
                permits tenant action (find (is_live id) cs)
                  (find (is_active_member id owner) db.participants))
              e
        | inr e ↦
            ap
              (λ cs.
                permits tenant action (find (is_live id) cs)
                  (find (is_active_member id owner) db.participants))
              e
            ∙ ap (λ c. permits tenant action c (find (is_active_member id owner) db.participants))
                (find-update (λ c. c.id == input.conversation_id) (is_live id)
                  (bump_conversation (sent_at uuid now input))
                  (is_live-bump id (sent_at uuid now input)) db.conversations)
            ∙ permits_bumped (λ c. c.id == input.conversation_id) (sent_at uuid now input) tenant
                action (find (is_live id) db.conversations)
                (find (is_active_member id owner) db.participants)
      ] in
    authorize_conversation-permits db' id owner tenant action
    ∙ ap (permits tenant action (find (is_live id) db'.conversations)) seats
    ∙ same
    ∙ sym (authorize_conversation-permits db id owner tenant action)

-- An answered POST of a message, whose caller was let in and whose send returned.
record Sent (iso : IsoDate) (config : Config) (uuid : String) (now : ℕ) (owner id : String)
    (body : SendBody) (db : Db) (m : Message) (after : Db) : Type 0 where
  result : SendMessageResult
  allowed :
      (authorize_conversation db id owner config.default_tenant_id AuthzAction.message_send).allowed
      ≡ true
  sends : send_message uuid now (send_input id owner body) db ≡ ok (result, after)
  shown : to_message iso result.message ≡ m

on_sent-body :
    (iso : IsoDate) (id owner : String) (people : List String) (r : SendMessageResult) (db : Db)
    (m : Message)
    → (on_sent iso id owner people r db).body ≡ some m
    → (to_message iso r.message ≡ m) × ((on_sent iso id owner people r db).db ≡ db)
unfolding on_sent
on_sent-body iso id owner people r db m h = elim (Bool-cases r.created) [
  | inl e ↦ (ground (arith, e, h), ground (arith, e))
  | inr e ↦ (ground (arith, e, h), ground (arith, e))
]

-- The reply to a caller who was let in and whose send returned.
post_message-on_sent :
    (iso : IsoDate) (config : Config) (uuid : String) (now : ℕ) (owner id : String)
    (body : SendBody) (db d : Db) (r : SendMessageResult)
    → (authorize_conversation db id owner config.default_tenant_id AuthzAction.message_send).allowed
      ≡ true
    → send_message uuid now (send_input id owner body) db ≡ ok (r, d)
    → post_message iso config uuid now owner (some id) (some body) db
      ≡ on_sent iso id owner
          (participants_of
            (authorize_conversation db id owner config.default_tenant_id
              AuthzAction.message_send).facts)
          r
          d
unfolding post_message on_send
post_message-on_sent iso config uuid now owner id body db d r e f = ground (arith, e, f)

post_message-Sent :
    (iso : IsoDate) (config : Config) (uuid : String) (now : ℕ) (owner id : String)
    (body : SendBody) (db : Db) (m : Message)
    → (post_message iso config uuid now owner (some id) (some body) db).body ≡ some m
    → Sent iso config uuid now owner id body db m
        (post_message iso config uuid now owner (some id) (some body) db).db
unfolding post_message on_send
post_message-Sent iso config uuid now owner id body db m h =
    elim (Bool-cases
      (authorize_conversation db id owner config.default_tenant_id
        AuthzAction.message_send).allowed) [
          | inl e ↦ elim (Result-cases (send_message uuid now (send_input id owner body) db)) [
            | inl ((r, d), f) ↦
                let is = post_message-on_sent iso config uuid now owner id body db d r e f in
                let people =
                  participants_of
                    (authorize_conversation db id owner config.default_tenant_id
                      AuthzAction.message_send).facts in
                let (shown, kept) =
                  on_sent-body iso id owner people r d m (sym (ap (λ x. x.body) is) ∙ h) in
                record {
                  result = r;
                  allowed = e;
                  sends = f ∙ ap (λ x. ok (r, x)) (sym (ap (λ x. x.db) is ∙ kept));
                  shown = shown;
                }
            | inr (x, f) ↦ ground (arith, e, f, h)
          ]
          | inr e ↦ ground (arith, e, h)
        ]

-- The next request of the sender of an accepted message that carries its client_message_id, in the
-- same conversation, is answered with that message and status 200; it records and announces nothing
-- and writes nothing.
pub post_message_replay :
    (iso : IsoDate) (config : Config) (uuid uuid' : String) (now later : ℕ) (owner id : String)
    (body retry : SendBody) (db : Db) (m : Message)
    → body.client_message_id ≡ retry.client_message_id
    → (post_message iso config uuid now owner (some id) (some body) db).body ≡ some m
    → post_message iso config uuid' later owner
        (some id)
        (some retry)
        (post_message iso config uuid now owner (some id) (some body) db).db
      ≡ answer 200 m (post_message iso config uuid now owner (some id) (some body) db).db
unfolding on_sent
post_message_replay iso config uuid uuid' now later owner id body retry db m key h =
    let after = (post_message iso config uuid now owner (some id) (some body) db).db in
    let s = post_message-Sent iso config uuid now owner id body db m h in
    let again =
      send_message_retry uuid uuid' now later (send_input id owner body) (send_input id owner retry)
        db after s.result
        (record { conversation_id = refl; sender_owner_id = refl; client_message_id = key })
        s.sends in
    let allowed =
      send_message-allowed uuid now (send_input id owner body) db after s.result id owner
        config.default_tenant_id AuthzAction.message_send s.sends
      ∙ s.allowed in
    post_message-on_sent iso config uuid' later owner id retry after after
      (record { message = s.result.message; created = false }) allowed again
    ∙ ap (λ x. answer 200 x after) s.shown
