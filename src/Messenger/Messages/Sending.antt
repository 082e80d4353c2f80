-- ===== src/Messenger/Messages/Sending.antt =====
-- Retries of a send, the unique index, and the two timestamps that a send advances.
use datha_platform.Base.{
  ap, sym, ◌∙◌, ℕ, String, true, false, [], ◌∷◌, some, arith, find, ◌≡◌, find-append, eq_refl,
  Option-cases, inl, inr,
}
use datha_platform.Messenger.Result.{ok}
use datha_platform.Messenger.Rows.{MessageRow, Db, read_message}
use datha_platform.Messenger.Messages.{
  SendMessageInput, SendMessageResult, has_key, key_of, new_message, send_message,
}

key_of-new_message :
    (uuid : String) (now : ℕ) (input : SendMessageInput)
    → key_of input (new_message uuid now input) ≡ true
key_of-new_message uuid now input = simp eq_refl

-- The row that the accepted send reports is the one that its key finds from then on.
send_message-found :
    (uuid : String) (now : ℕ) (input : SendMessageInput) (db db' : Db) (r : SendMessageResult)
    → send_message uuid now input db ≡ ok (r, db')
    → (row : MessageRow) × (find (key_of input) db'.messages ≡ some row)
      × (r.message ≡ read_message row)
unfolding send_message find
send_message-found uuid now input db db' r h =
    elim (Option-cases (find (key_of input) db.messages)) [
      | inl e ↦ (
        new_message uuid now input,
        ground (
          arith,
          e,
          find-append (key_of input) db.messages (new_message uuid now input ∷ []),
          key_of-new_message uuid now input,
        ),
        ground (arith, e),
      )
      | inr (row, e) ↦ (row, ground (arith, e), ground (arith, e))
    ]

-- Two inputs with the same idempotency key.
pub record IsRetryOf (input retry : SendMessageInput) : Type 0 where
  pub conversation_id : input.conversation_id ≡ retry.conversation_id
  pub sender_owner_id : input.sender_owner_id ≡ retry.sender_owner_id
  pub client_message_id : input.client_message_id ≡ retry.client_message_id

key_of_retry :
    (input retry : SendMessageInput) → IsRetryOf input retry → key_of input ≡ key_of retry
key_of_retry input retry s =
    λ i. has_key (s.conversation_id i) (s.sender_owner_id i) (s.client_message_id i)

-- A retry of an accepted send, at any time, with any fresh id and whatever its other fields, returns
-- the row of the first send, reports that nothing was created, and leaves the database as it is.
pub send_message_retry :
    (uuid uuid' : String) (now later : ℕ) (input retry : SendMessageInput) (db db' : Db)
    (r : SendMessageResult)
    → IsRetryOf input retry
    → send_message uuid now input db ≡ ok (r, db')
    → send_message uuid' later retry db' ≡ ok (record { message = r.message; created = false }, db')
unfolding send_message
send_message_retry uuid uuid' now later input retry db db' r same_key h =
    let (row, found, same) = send_message-found uuid now input db db' r h in
    let found' : find (key_of retry) db'.messages ≡ some row =
      ap (λ p. find p db'.messages) (sym (key_of_retry input retry same_key)) ∙ found in
    rw (found', send_message) (ground (arith, same))
