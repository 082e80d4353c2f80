-- ===== src/Messenger/Messages/Watermark.antt =====
-- The read watermark of `markRead`: GREATEST in the UPDATE, "advance, never rewind".
use datha_platform.Base.{
  ℕ, ◌≤◌, leb, String, Bool, true, false, ◌&&◌, ◌==◌, Option, none, some, arith, greatest,
  or_default, find, find-update, update, ◌≡◌, refl, sym, Option-cases, inl, inr, find-IsTrue,
}
use datha_platform.Base.Queries.{update-update}
use datha_platform.Messenger.Rows.{ParticipantRow, MessageRow, Db, read_date}
use datha_platform.Messenger.Messages.{MarkReadResult, is_active_member, mark_at, mark_read}

-- The message that the statement joins.
abbrev pub is_message : String → String → MessageRow → Bool
is_message conversation_id message_id m = m.id == message_id && m.conversation_id == conversation_id

keeps_active :
    (c o : String) (at : ℕ) (p : ParticipantRow)
    → is_active_member c o (mark_at at p) ≡ is_active_member c o p
keeps_active c o at p = refl

mark_at-mark_at : (at : ℕ) (p : ParticipantRow) → mark_at at (mark_at at p) ≡ mark_at at p
mark_at-mark_at at p = ground arith

-- What an accepted call did: the message it named, the row it advanced.
pub record Marked (c o message_id : String) (db db' : Db) (r : MarkReadResult) : Type 0 where
  pub message : MessageRow
  pub row : ParticipantRow
  pub named : find (is_message c message_id) db.messages ≡ some message
  pub found : find (is_active_member c o) db.participants ≡ some row
  pub after : db' ≡ record db {
    participants = update (is_active_member c o) (mark_at message.created_at) db.participants;
  }
  pub reported :
      r.last_read_at
      ≡ read_date (greatest (or_default row.last_read_at message.created_at) message.created_at)

pub mark_read-Marked :
    (c o message_id : String) (db db' : Db) (r : MarkReadResult)
    → mark_read c o message_id db ≡ some (r, db')
    → Marked c o message_id db db' r
unfolding mark_read
mark_read-Marked c o message_id db db' r h =
    elim (Option-cases (find (is_message c message_id) db.messages)) [
      | inl e ↦ ground (arith, e)
      | inr (m, e) ↦ elim (Option-cases (find (is_active_member c o) db.participants)) [
        | inl f ↦ ground (arith, e, f)
        | inr (p, f) ↦ record {
          message = m;
          row = p;
          named = e;
          found = f;
          after = ground (arith, e, f);
          reported = ground (arith, e, f);
        }
      ]
    ]

pub Marked-found :
    (c o message_id : String) (db db' : Db) (r : MarkReadResult)
    (k : Marked c o message_id db db' r)
    → find (is_active_member c o) db'.participants ≡ some (mark_at k.message.created_at k.row)
Marked-found c o message_id db db' r k = rw k.after (
    ground (
      arith,
      k.found,
      find-IsTrue (is_active_member c o) db.participants k.row k.found,
      find-update (is_active_member c o) (is_active_member c o) (mark_at k.message.created_at)
          (keeps_active c o k.message.created_at) db.participants,
    ))

-- How far a participant who is in the conversation has read, in the table.
abbrev pub watermark : Db → String → String → Option ℕ
watermark db c o = elim (find (is_active_member c o) db.participants) [
  | none ↦ none
  | some p ↦ p.last_read_at
]

-- The order of watermarks: null is before every time.
abbrev pub not_after : Option ℕ → Option ℕ → Bool
not_after none t = true
not_after (some s) none = false
not_after (some s) (some t) = leb s t

-- No accepted call moves any participant's watermark back.
pub mark_read-not_after :
    (c o message_id c' o' : String) (db db' : Db) (r : MarkReadResult)
    → mark_read c o message_id db ≡ some (r, db')
    → not_after (watermark db c' o') (watermark db' c' o') ≡ true
mark_read-not_after c o message_id c' o' db db' r h =
    let m = mark_read-Marked c o message_id db db' r h in
    rw m.after (
      ground (
        arith,
        find-update (is_active_member c o) (is_active_member c' o') (mark_at m.message.created_at)
            (keeps_active c' o' m.message.created_at) db.participants,
        Option-cases (find (is_active_member c' o') db.participants),
      ))

-- After an accepted call the caller's watermark covers the message it named, and the response
-- carries that watermark, by the millisecond.
pub mark_read-covers :
    (c o message_id : String) (db db' : Db) (r : MarkReadResult) (m : MessageRow)
    → mark_read c o message_id db ≡ some (r, db')
    → find (is_message c message_id) db.messages ≡ some m
    → (t : ℕ) × (watermark db' c o ≡ some t) × (m.created_at ≤ t) × (r.last_read_at ≡ read_date t)
mark_read-covers c o message_id db db' r m h named =
    let k = mark_read-Marked c o message_id db db' r h in
    let after = Marked-found c o message_id db db' r k in
    (
      greatest (or_default k.row.last_read_at k.message.created_at) k.message.created_at,
      ground (arith, after),
      ground (arith, named, k.named),
      k.reported,
    )

-- The same call again, at any later time, reports the same watermark, that nothing advanced, and
-- leaves the database as it is.
pub mark_read_repeat :
    (c o message_id : String) (db db' : Db) (r : MarkReadResult)
    → mark_read c o message_id db ≡ some (r, db')
    → mark_read c o message_id db'
      ≡ some (record { last_read_at = r.last_read_at; advanced = false }, db')
unfolding mark_read
mark_read_repeat c o message_id db db' r h =
    let k = mark_read-Marked c o message_id db db' r h in
    let after = Marked-found c o message_id db db' r k in
    let named : find (is_message c message_id) db'.messages ≡ some k.message = rw k.after k.named in
    let again : db'.participants
        ≡ update (is_active_member c o) (mark_at k.message.created_at) db'.participants =
      rw k.after (
        sym (
          update-update (is_active_member c o) (mark_at k.message.created_at)
            (keeps_active c o k.message.created_at) (mark_at-mark_at k.message.created_at)
            db.participants)) in
    ground (arith, named, after, again, k.reported)
