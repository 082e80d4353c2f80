-- ===== src/Messenger/CallsConsumer/Outcomes.antt =====
-- How each delivery ends, on every branch of `handleMessage`.
use datha_platform.Base.{
  ℕ, ◌⊎◌, inl, inr, false, ◌≤◌, ◌<◌, Bool, Option, none, some, ◌≡◌, ◌≢◌, refl, arith, or_default,
}
use datha_platform.Base.Iso.{IsoDate}
use datha_platform.Base.Json.{Json}
use datha_platform.Messenger.Rows.{Db}
use datha_platform.Messenger.Envelope.{PlatformEvent, valid, parse_envelope}
use datha_platform.Messenger.CallsConsumer.{
  Outcome, ack, nak, unsettled, projected, ignored, handle_message,
}
use datha_platform.Messenger.CallsConsumer.Ends.{
  Ends, not_an_event, other_event, stored, conversation_gone, failed, given_up, stuck,
  on_envelope-Ends,
}

-- What holds of a delivery, the `count`-th of its message, that found the database `db`.
pub record IsSound (iso : IsoDate) (max_deliver count : ℕ) (published : Bool) (raw : Option Json)
    (db : Db) (o : Outcome) : Type 0 where
  -- its end follows from what was read and what the database did
  pub ends : Ends iso max_deliver count published raw db o
  -- what is acknowledged was projected, is none of the consumer's, or has a dead letter
  pub kept :
      (o.settled ≢ ack)
      ⊎ (o.counted ≡ projected)
      ⊎ (o.counted ≡ ignored)
      ⊎ ((e : PlatformEvent) × (o.dead_letter ≡ some e) × (parse_envelope iso raw ≡ valid e))
  -- only a projected event changes the database
  pub unchanged : (o.counted ≡ projected) ⊎ (o.db ≡ db)
  -- it is settled, unless the dead letter could not be published
  pub settles : (published ≡ false) ⊎ (o.settled ≢ unsettled)
  -- a dead letter is written, and the message acknowledged, only on the last delivery
  pub gives_up : (o.dead_letter ≡ none) ⊎ ((max_deliver ≤ count) × (o.settled ≡ ack))
  -- a message is handed back only while deliveries are left, and without a dead letter
  pub retries : (o.settled ≢ nak) ⊎ ((count < max_deliver) × (o.dead_letter ≡ none))

module _ (iso : IsoDate) (max_deliver count : ℕ) (published : Bool) (raw : Option Json)
    (db : Db) where
  Ends-unchanged :
      (o : Outcome)
      → Ends iso max_deliver count published raw db o
      → (o.counted ≡ projected) ⊎ (o.db ≡ db)
  Ends-unchanged _ (not_an_event e read) = inr refl
  Ends-unchanged _ (other_event e read made) = inr refl
  Ends-unchanged _ (stored e p after read made ran) = inl refl
  Ends-unchanged _ (conversation_gone e p read made ran) = inr refl
  Ends-unchanged _ (failed e p x read made ran other more) = inr refl
  Ends-unchanged _ (given_up e p x read made ran other last sent) = inr refl
  Ends-unchanged _ (stuck e p x read made ran other last lost) = inr refl

  Ends-settles :
      (o : Outcome)
      → Ends iso max_deliver count published raw db o
      → (published ≡ false) ⊎ (o.settled ≢ unsettled)
  Ends-settles _ (not_an_event e read) = inr (λ h. ground arith)
  Ends-settles _ (other_event e read made) = inr (λ h. ground arith)
  Ends-settles _ (stored e p after read made ran) = inr (λ h. ground arith)
  Ends-settles _ (conversation_gone e p read made ran) = inr (λ h. ground arith)
  Ends-settles _ (failed e p x read made ran other more) = inr (λ h. ground arith)
  Ends-settles _ (given_up e p x read made ran other last sent) = inr (λ h. ground arith)
  Ends-settles _ (stuck e p x read made ran other last lost) = inl lost

  Ends-gives_up :
      (o : Outcome)
      → Ends iso max_deliver count published raw db o
      → (o.dead_letter ≡ none) ⊎ ((max_deliver ≤ count) × (o.settled ≡ ack))
  Ends-gives_up _ (not_an_event e read) = inl refl
  Ends-gives_up _ (other_event e read made) = inl refl
  Ends-gives_up _ (stored e p after read made ran) = inl refl
  Ends-gives_up _ (conversation_gone e p read made ran) = inl refl
  Ends-gives_up _ (failed e p x read made ran other more) = inl refl
  Ends-gives_up _ (given_up e p x read made ran other last sent) = inr (last, refl)
  Ends-gives_up _ (stuck e p x read made ran other last lost) = inl refl

  Ends-retries :
      (o : Outcome)
      → Ends iso max_deliver count published raw db o
      → (o.settled ≢ nak) ⊎ ((count < max_deliver) × (o.dead_letter ≡ none))
  Ends-retries _ (not_an_event e read) = inl (λ h. ground arith)
  Ends-retries _ (other_event e read made) = inl (λ h. ground arith)
  Ends-retries _ (stored e p after read made ran) = inl (λ h. ground arith)
  Ends-retries _ (conversation_gone e p read made ran) = inl (λ h. ground arith)
  Ends-retries _ (failed e p x read made ran other more) = inr (more, refl)
  Ends-retries _ (given_up e p x read made ran other last sent) = inl (λ h. ground arith)
  Ends-retries _ (stuck e p x read made ran other last lost) = inl (λ h. ground arith)

  Ends-kept :
      (o : Outcome)
      → Ends iso max_deliver count published raw db o
      → (o.settled ≢ ack)
        ⊎ (o.counted ≡ projected)
        ⊎ (o.counted ≡ ignored)
        ⊎ ((e : PlatformEvent) × (o.dead_letter ≡ some e) × (parse_envelope iso raw ≡ valid e))
  Ends-kept _ (not_an_event e read) = inl (λ h. ground arith)
  Ends-kept _ (other_event e read made) = inr (inr (inl refl))
  Ends-kept _ (stored e p after read made ran) = inr (inl refl)
  Ends-kept _ (conversation_gone e p read made ran) = inl (λ h. ground arith)
  Ends-kept _ (failed e p x read made ran other more) = inl (λ h. ground arith)
  Ends-kept _ (given_up e p x read made ran other last sent) = inr (inr (inr (e, refl, read)))
  Ends-kept _ (stuck e p x read made ran other last lost) = inl (λ h. ground arith)

  Ends-IsSound :
      (o : Outcome)
      → Ends iso max_deliver count published raw db o
      → IsSound iso max_deliver count published raw db o
  Ends-IsSound o why = record {
    ends = why;
    kept = Ends-kept o why;
    unchanged = Ends-unchanged o why;
    settles = Ends-settles o why;
    gives_up = Ends-gives_up o why;
    retries = Ends-retries o why;
  }

-- Whatever is delivered ends for one of seven reasons. What is no event is terminated; an event that
-- is none of the consumer's is acknowledged; an event that is projected is acknowledged, and the
-- database is what `projectCall` made of it; one whose conversation is gone is terminated; and where
-- the database fails otherwise, the message is handed back while deliveries are left, and on the last
-- one it is acknowledged with a dead letter of the event, or left unsettled if the dead letter cannot
-- be published. So nothing is acknowledged that was neither projected, nor ignored, nor dead-lettered.
pub handle_message-IsSound :
    (iso : IsoDate) (max_deliver : ℕ) (info : Option ℕ) (published : Bool) (raw : Option Json)
    (db : Db)
    → IsSound iso max_deliver
        (or_default info 1)
        published
        raw
        db
        (handle_message iso max_deliver info published raw db)
unfolding handle_message
handle_message-IsSound iso max_deliver info published raw db =
    Ends-IsSound iso max_deliver (or_default info 1) published raw db _ (
      on_envelope-Ends iso max_deliver (or_default info 1) published raw db (parse_envelope iso raw)
        refl)
