-- ===== src/Messenger/Calls/Delivery.antt =====
-- `projectCall` under JetStream's redelivery and reordering.
use datha_platform.Base.{ℕ, String, Option, none, some, true, or_default, sym, ◌≡◌, refl, ap, arith}
use datha_platform.Base.Iso.{IsoDate}
use datha_platform.Messenger.Result.{ok, ◌>>=◌, cast_result, cast_nullable, bind_ok}
use datha_platform.Messenger.Rows.{CallRow, Db}
use datha_platform.Messenger.Calls.{
  CallProjection, project_row, project_call, cast_row, cast_integer, cast_call,
}
use datha_platform.Messenger.Calls.Refines.{project_row-Projected}
use datha_platform.Messenger.Calls.Again.{project_row_again}
use datha_platform.Messenger.Calls.Converges.{
  SameView, Agree, SameCallRow, writable, ok_of_writable, writable_of_ok, writable_after,
  swap-SameView,
}

-- Two events of one call, as they are handed to `projectCall`.
pub record SameCall (a b : CallProjection) : Type 0 where
  pub call_id : a.call_id ≡ b.call_id
  pub conversation_id : a.conversation_id ≡ b.conversation_id
  pub caller_owner_id : a.caller_owner_id ≡ b.caller_owner_id
  pub callee_owner_id : a.callee_owner_id ≡ b.callee_owner_id
  pub media : a.media ≡ b.media
  pub started_at : a.started_at ≡ b.started_at
  pub answered_at : Agree a.answered_at b.answered_at
  pub ended_at : Agree a.ended_at b.ended_at
  pub end_reason : Agree a.end_reason b.end_reason

record Cast (iso : IsoDate) (input : CallProjection) (row : CallRow) (at : ℕ) : Type 0 where
  started : ℕ
  answered : Option ℕ
  ended : Option ℕ
  starts : cast_result (iso.cast input.started_at) ≡ ok started
  answers : cast_nullable iso.cast input.answered_at ≡ ok answered
  ends : cast_nullable iso.cast input.ended_at ≡ ok ended
  is_row : cast_row input started answered ended ≡ row

cast_call-Cast :
    (iso : IsoDate) (input : CallProjection) (row : CallRow) (at : ℕ)
    → cast_call iso input ≡ ok (row, at)
    → Cast iso input row at
unfolding cast_call
cast_call-Cast iso input row at h =
    let (started, starts, h₁) = bind_ok (cast_result (iso.cast input.started_at)) _ h in
    let (answered, answers, h₂) = bind_ok (cast_nullable iso.cast input.answered_at) _ h₁ in
    let (ended, ends, h₃) = bind_ok (cast_nullable iso.cast input.ended_at) _ h₂ in
    let (seconds, _, h₅) = bind_ok (cast_integer input.duration_seconds) _ h₃ in
    let (t, _, h₄) =
      bind_ok (cast_result (iso.cast (or_default input.ended_at input.started_at))) _ h₅ in
    record {
      started = started;
      answered = answered;
      ended = ended;
      starts = starts;
      answers = answers;
      ends = ends;
      is_row = cc h₄;
    }

Agree-cast :
    (cast : String → Option ℕ) (a b : Option String) (x y : Option ℕ)
    → cast_nullable cast a ≡ ok x
    → cast_nullable cast b ≡ ok y
    → Agree a b
    → Agree x y
Agree-cast cast a b none y p q h = tt
Agree-cast cast a b (some x) none p q h = tt
Agree-cast cast none b (some x) (some y) p q h = cc
Agree-cast cast (some s) none (some x) (some y) p q h = cc
Agree-cast cast (some s) (some t) (some x) (some y) p q h = ground (arith, ap cast h)

SameCall-SameCallRow :
    (iso : IsoDate) (a b : CallProjection) (ra rb : CallRow) (ta tb : ℕ)
    → SameCall a b
    → Cast iso a ra ta
    → Cast iso b rb tb
    → SameCallRow ra rb
SameCall-SameCallRow iso a b ra rb ta tb s ca cb =
    let starts = ap iso.cast s.started_at in
    rw (← ca.is_row, ← cb.is_row)
      (record {
        id = s.call_id;
        conversation_id = s.conversation_id;
        caller_owner_id = s.caller_owner_id;
        callee_owner_id = s.callee_owner_id;
        media = s.media;
        started_at = ground (arith, starts, ca.starts, cb.starts);
        participant_owner_ids = refl;
        joined_owner_ids = refl;
        answered_at =
            Agree-cast iso.cast _ _ ca.answered cb.answered ca.answers cb.answers s.answered_at;
        ended_at = Agree-cast iso.cast _ _ ca.ended cb.ended ca.ends cb.ends s.ended_at;
        end_reason = s.end_reason;
      })

writable_same :
    (a b : CallRow) (db : Db) → SameCallRow a b → writable a db ≡ true → writable b db ≡ true
writable_same a b db s h = rw (← s.id, ← s.conversation_id) h

-- The transaction that an accepted projection ran.
record Ran (iso : IsoDate) (input : CallProjection) (db db' : Db) : Type 0 where
  row : CallRow
  at : ℕ
  casts : cast_call iso input ≡ ok (row, at)
  runs : project_row row input.participant_owner_ids input.joined_owner_ids at db ≡ ok db'

project_call-Ran :
    (iso : IsoDate) (input : CallProjection) (db db' : Db)
    → project_call iso input db ≡ ok db'
    → Ran iso input db db'
unfolding project_call
project_call-Ran iso input db db' h =
    let (p, casts, runs) = bind_ok (cast_call iso input) _ h in
    record { row = p.0; at = p.1; casts = casts; runs = runs }

-- The same casts on any other database in which the row can be written.
project_call_again :
    (iso : IsoDate) (input : CallProjection) (db db' d : Db) (r : Ran iso input db db')
    → writable r.row d ≡ true
    → (d' : Db) × (project_call iso input d ≡ ok d')
      × (project_row r.row input.participant_owner_ids input.joined_owner_ids r.at d ≡ ok d')
unfolding project_call
project_call_again iso input db db' d r h =
    let (d', runs) =
      ok_of_writable r.row input.participant_owner_ids input.joined_owner_ids r.at d h in
    (d', rw r.casts runs, runs)

-- A call event that has been projected is accepted again, and leaves every table as it is.
pub project_call_redelivered :
    (iso : IsoDate) (input : CallProjection) (db d1 : Db)
    → project_call iso input db ≡ ok d1
    → project_call iso input d1 ≡ ok d1
unfolding project_call
project_call_redelivered iso input db d1 h =
    let r = project_call-Ran iso input db d1 h in
    rw r.casts
      (project_row_again r.row input.participant_owner_ids input.joined_owner_ids r.at db d1 r.runs)

-- Two events of one call have the same conversation, caller, callee, media and start, and the same
-- answer, end and reason where both give one: an end that overtakes its start is the case. If they
-- are accepted in one order, they are accepted in the other, and leave the same rows: conversations,
-- messages and participants are equal tables, and each call and each person's part in a call is found
-- by its key as the same row, and has as many rows. Two ends that differ in time or reason are not
-- covered.
pub project_call_reordered :
    (iso : IsoDate) (a b : CallProjection) (db d12 : Db)
    → SameCall a b
    → (project_call iso a db >>= project_call iso b) ≡ ok d12
    → (d21 : Db) × ((project_call iso b db >>= project_call iso a) ≡ ok d21) × SameView d12 d21
project_call_reordered iso a b db d12 s h =
    let (d1, ha, hb) = bind_ok (project_call iso a db) (project_call iso b) h in
    let ra = project_call-Ran iso a db d1 ha in
    let rb = project_call-Ran iso b d1 d12 hb in
    let rows =
      SameCall-SameCallRow iso a b ra.row rb.row ra.at rb.at s
        (cast_call-Cast iso a ra.row ra.at ra.casts) (cast_call-Cast iso b rb.row rb.at rb.casts) in
    let here =
      writable_of_ok ra.row a.participant_owner_ids a.joined_owner_ids ra.at db d1 ra.runs in
    let (d2, accepted_b, runs_b) =
      project_call_again iso b d1 d12 db rb (writable_same ra.row rb.row db rows here) in
    let first_b =
      project_row-Projected rb.row b.participant_owner_ids b.joined_owner_ids rb.at db d2 runs_b in
    let (d21, accepted_a, runs_a) = project_call_again iso a db d1 d2 ra (
      writable_after rb.row ra.row b.participant_owner_ids b.joined_owner_ids rb.at db d2
        (sym rows.id) first_b) in
    (
      d21,
      rw accepted_b accepted_a,
      swap-SameView ra.row a.participant_owner_ids a.joined_owner_ids ra.at db d1
          (project_row-Projected ra.row a.participant_owner_ids a.joined_owner_ids ra.at db d1
            ra.runs)
          rb.row b.participant_owner_ids b.joined_owner_ids rb.at d12 d2 d21 rows
          (project_row-Projected rb.row b.participant_owner_ids b.joined_owner_ids rb.at d1 d12
            rb.runs)
          first_b
          (project_row-Projected ra.row a.participant_owner_ids a.joined_owner_ids ra.at d2 d21
            runs_a),
    )
