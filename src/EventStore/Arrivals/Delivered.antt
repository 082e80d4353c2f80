-- ===== src/EventStore/Arrivals/Delivered.antt =====
-- At-least-once delivery, and a table that has each event once.
use datha_platform.Base.{
  ℕ, String, Bool, true, false, List, [], ◌∷◌, Option, none, leb, any, or_default, ◌≡◌, refl, arith,
  Bool-cases, inl, inr, eq_refl, subst,
}
use datha_platform.Base.Iso.{IsoDate}
use datha_platform.Base.Json.{Json}
use datha_platform.Base.Queries.{any-append, any-last}
use datha_platform.Messenger.Result.{ok, Result-cases, bind_ok}
use datha_platform.Messenger.Envelope.{PlatformEvent, Checked, valid, invalid, parse_envelope}
use datha_platform.Messenger.CallsConsumer.{ack}
use datha_platform.EventStore.Rows.{EventRow, has_event_key}
use datha_platform.EventStore.Arrivals.{
  insert_event, event_row, ingest_event, on_ingest, on_event, handle_event,
}

-- An event with this key is in the table.
abbrev pub Stores : EventRow → List EventRow → Type 0
Stores row events = any (has_event_key row.id row.timestamp) events ≡ true

insert_event-Stores :
    (row : EventRow) (events : List EventRow) → Stores row (insert_event row events)
unfolding insert_event
insert_event-Stores row events =
    elim (Bool-cases (any (has_event_key row.id row.timestamp) events)) [
      | inl e ↦ rw e e
      | inr e ↦ rw e (
          any-last (has_event_key row.id row.timestamp) events row (ground (arith, eq_refl row.id)))
    ]

insert_event-keeps :
    (row other : EventRow) (events : List EventRow)
    → Stores other events
    → Stores other (insert_event row events)
unfolding insert_event
insert_event-keeps row other events h =
    elim (Bool-cases (any (has_event_key row.id row.timestamp) events)) [
      | inl e ↦ rw e h
      | inr e ↦ rw e (any-append (has_event_key other.id other.timestamp) events (row ∷ []) h)
    ]

module _ (uuid : String → Option String) (iso : IsoDate) where
  -- The table after some deliveries, whatever they were and however they ended.
  pub data Delivers : List EventRow → List EventRow → Type 0 where
    settled : (events : List EventRow) → Delivers events events
    delivered :
        (max_deliver : ℕ) (info : Option ℕ) (published down : Bool) (subject message : String)
        (raw : Option Json) (before after : List EventRow)
        → Delivers
            (handle_event uuid iso max_deliver info published down subject message raw
              before).events
            after
        → Delivers before after

  on_event-keeps :
      (max_deliver count : ℕ) (published down : Bool) (subject message : String)
      (c : Checked PlatformEvent) (events : List EventRow) (row : EventRow)
      → Stores row events
      → Stores row
          (on_event uuid iso max_deliver count published down subject message events c).events
  unfolding on_event on_ingest ingest_event
  on_event-keeps max_deliver count published down subject message (invalid e) events row h = h
  on_event-keeps max_deliver count published true subject message (valid e) events row h =
      elim (Bool-cases (leb max_deliver count)) [
        | inl f ↦ elim (Bool-cases published) [ inl g ↦ rw (f, g) h | inr g ↦ rw (f, g) h ]
        | inr f ↦ rw f h
      ]
  on_event-keeps max_deliver count published false subject message (valid e) events row h =
      elim (Result-cases (event_row uuid iso e)) [
        | inl (added, f) ↦ rw f (insert_event-keeps added row events h)
        | inr (thrown, f) ↦ rw f (elim (Bool-cases (leb max_deliver count)) [
          | inl k ↦ elim (Bool-cases published) [ inl g ↦ rw (k, g) h | inr g ↦ rw (k, g) h ]
          | inr k ↦ rw k h
        ])
      ]

  Delivers-keeps :
      (before after : List EventRow) (row : EventRow)
      → Delivers before after
      → Stores row before
      → Stores row after
  unfolding handle_event
  Delivers-keeps before after row (settled events) h = h
  Delivers-keeps before after row
        (delivered max_deliver info published down subject message raw _ _ rest) h =
      Delivers-keeps _ after row rest (
        on_event-keeps max_deliver (or_default info 1) published down subject message
          (parse_envelope iso raw) before row h)

  pub ingest_event-Stores :
      (e : PlatformEvent) (before stored : List EventRow)
      → ingest_event uuid iso false e before ≡ ok stored
      → (row : EventRow) × (event_row uuid iso e ≡ ok row) × Stores row stored
  unfolding ingest_event
  ingest_event-Stores e before stored h =
      let (row, read, inserted) =
        bind_ok (event_row uuid iso e) (λ r. ok (insert_event r before)) h in
      let same : insert_event row before ≡ stored = cc in
      (row, read, subst (Stores row) same (insert_event-Stores row before))

  -- An event that was stored once changes nothing however late it is delivered again, with any
  -- deliveries between, to a database that is up, and that delivery is acknowledged.
  pub handle_event-redelivered :
      (max_deliver : ℕ) (info : Option ℕ) (published : Bool) (subject message : String)
      (raw : Option Json) (e : PlatformEvent) (before stored later : List EventRow)
      → parse_envelope iso raw ≡ valid e
      → ingest_event uuid iso false e before ≡ ok stored
      → Delivers stored later
      → handle_event uuid iso max_deliver info published false subject message raw later
        ≡ record { events = later; settled = ack; dead_letter = none }
  unfolding handle_event on_event on_ingest ingest_event insert_event
  handle_event-redelivered max_deliver info published subject message raw e before stored later
        parsed ingested since =
      let (row, read, held) = ingest_event-Stores e before stored ingested in
      let still = Delivers-keeps stored later row since held in rw (parsed, read, still) refl
