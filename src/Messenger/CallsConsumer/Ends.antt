-- ===== src/Messenger/CallsConsumer/Ends.antt =====
-- Why a delivery ends as it does: the branches of `handleMessage` as a relation.
use datha_platform.Base.{
  ℕ, inl, inr, true, false, ◌≤◌, ◌<◌, Bool, Bool-cases, leb, Option, none, some, ◌≡◌, ◌≢◌, refl,
  arith,
}
use datha_platform.Base.Iso.{IsoDate}
use datha_platform.Base.Json.{Json}
use datha_platform.Messenger.Result.{DbError, fk_violation, other_error, bad_input, Result, ok, err}
use datha_platform.Messenger.Rows.{Db}
use datha_platform.Messenger.Calls.{CallProjection, project_call}
use datha_platform.Messenger.Envelope.{
  PlatformEvent, EnvelopeError, Checked, valid, invalid, parse_envelope,
}
use datha_platform.Messenger.CallsConsumer.{
  Outcome, ack, nak, term, unsettled, projected, ignored, invalid_event, orphaned, uncounted, dlq,
  to_projection, on_failure, on_result, on_projection, on_envelope,
}

-- Why a delivery ends as it does: what was read, what the projection did, and which delivery it was.
pub data Ends (iso : IsoDate) (max_deliver count : ℕ) (published : Bool) (raw : Option Json)
    (db : Db) : Outcome → Type 0 where
  not_an_event :
      (e : EnvelopeError)
      → parse_envelope iso raw ≡ invalid e
      → Ends iso max_deliver count published raw db
          (record { db = db; settled = term; counted = invalid_event; dead_letter = none })
  other_event :
      (e : PlatformEvent)
      → parse_envelope iso raw ≡ valid e
      → to_projection iso e ≡ none
      → Ends iso max_deliver count published raw db
          (record { db = db; settled = ack; counted = ignored; dead_letter = none })
  stored :
      (e : PlatformEvent) (p : CallProjection) (after : Db)
      → parse_envelope iso raw ≡ valid e
      → to_projection iso e ≡ some p
      → project_call iso p db ≡ ok after
      → Ends iso max_deliver count published raw db
          (record { db = after; settled = ack; counted = projected; dead_letter = none })
  conversation_gone :
      (e : PlatformEvent) (p : CallProjection)
      → parse_envelope iso raw ≡ valid e
      → to_projection iso e ≡ some p
      → project_call iso p db ≡ err fk_violation
      → Ends iso max_deliver count published raw db
          (record { db = db; settled = term; counted = orphaned; dead_letter = none })
  failed :
      (e : PlatformEvent) (p : CallProjection) (x : DbError)
      → parse_envelope iso raw ≡ valid e
      → to_projection iso e ≡ some p
      → project_call iso p db ≡ err x
      → x ≢ fk_violation
      → count < max_deliver
      → Ends iso max_deliver count published raw db
          (record { db = db; settled = nak; counted = uncounted; dead_letter = none })
  given_up :
      (e : PlatformEvent) (p : CallProjection) (x : DbError)
      → parse_envelope iso raw ≡ valid e
      → to_projection iso e ≡ some p
      → project_call iso p db ≡ err x
      → x ≢ fk_violation
      → max_deliver ≤ count
      → published ≡ true
      → Ends iso max_deliver count published raw db
          (record { db = db; settled = ack; counted = dlq; dead_letter = some e })
  stuck :
      (e : PlatformEvent) (p : CallProjection) (x : DbError)
      → parse_envelope iso raw ≡ valid e
      → to_projection iso e ≡ some p
      → project_call iso p db ≡ err x
      → x ≢ fk_violation
      → max_deliver ≤ count
      → published ≡ false
      → Ends iso max_deliver count published raw db
          (record { db = db; settled = unsettled; counted = uncounted; dead_letter = none })

module _ (iso : IsoDate) (max_deliver count : ℕ) (published : Bool) (raw : Option Json)
    (db : Db) where
  on_other_failure-Ends :
      (e : PlatformEvent) (p : CallProjection) (x : DbError)
      → x ≢ fk_violation
      → parse_envelope iso raw ≡ valid e
      → to_projection iso e ≡ some p
      → project_call iso p db ≡ err x
      → Ends iso max_deliver count published raw db
          (on_failure max_deliver count published e db other_error)
  unfolding on_failure
  on_other_failure-Ends e p x other read made thrown = elim (Bool-cases (leb max_deliver count)) [
    | inl last ↦ elim (Bool-cases published) [
      | inl sent ↦ rw (last, sent) (given_up e p x read made thrown other (ground arith) refl)
      | inr lost ↦ rw (last, lost) (stuck e p x read made thrown other (ground arith) refl)
    ]
    | inr more ↦ rw more (failed e p x read made thrown other (ground arith))
  ]

  on_failure-Ends :
      (e : PlatformEvent) (p : CallProjection) (x : DbError)
      → parse_envelope iso raw ≡ valid e
      → to_projection iso e ≡ some p
      → project_call iso p db ≡ err x
      → Ends iso max_deliver count published raw db (on_failure max_deliver count published e db x)
  unfolding on_failure
  on_failure-Ends e p fk_violation read made thrown = conversation_gone e p read made thrown
  on_failure-Ends e p other_error read made thrown =
      on_other_failure-Ends e p other_error (λ h. ground arith) read made thrown
  on_failure-Ends e p bad_input read made thrown =
      on_other_failure-Ends e p bad_input (λ h. ground arith) read made thrown

  on_result-Ends :
      (e : PlatformEvent) (p : CallProjection) (r : Result Db)
      → parse_envelope iso raw ≡ valid e
      → to_projection iso e ≡ some p
      → project_call iso p db ≡ r
      → Ends iso max_deliver count published raw db
          (on_result iso max_deliver count published db e r)
  unfolding on_result
  on_result-Ends e p (ok after) read made done = stored e p after read made done
  on_result-Ends e p (err x) read made thrown = on_failure-Ends e p x read made thrown

  on_projection-Ends :
      (e : PlatformEvent) (p : Option CallProjection)
      → parse_envelope iso raw ≡ valid e
      → to_projection iso e ≡ p
      → Ends iso max_deliver count published raw db
          (on_projection iso max_deliver count published db e p)
  unfolding on_projection
  on_projection-Ends e none read made = other_event e read made
  on_projection-Ends e (some p) read made =
      on_result-Ends e p (project_call iso p db) read made refl

  pub on_envelope-Ends :
      (c : Checked PlatformEvent)
      → parse_envelope iso raw ≡ c
      → Ends iso max_deliver count published raw db
          (on_envelope iso max_deliver count published db c)
  unfolding on_envelope
  on_envelope-Ends (invalid e) read = not_an_event e read
  on_envelope-Ends (valid e) read = on_projection-Ends e (to_projection iso e) read refl
