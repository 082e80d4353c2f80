-- ===== src/EventStore/Replay/Again.antt =====
-- A replay that was answered with 202 is not repeated.
use datha_platform.Base.{
  ℕ, String, Bool, true, ◌==◌, List, [], Option, none, some, is_none, ◌≡◌, refl, ap, arith,
  find-update, find-IsTrue,
}
use datha_platform.Base.Iso.{IsoDate}
use datha_platform.Base.Json.{Json, null, boolean, number, string, array, object}
use datha_platform.EventStore.Rows.{DlqRecordRow}
use datha_platform.EventStore.Replay.{
  Checks, Published, Replayed, passed, refused, already_replayed, is_open, check_row, check_replay,
  check_envelope, finish_replay, get_dlq_record_row_by_id, mark_dlq_replayed, replay_dlq_record,
}

module _ (iso : IsoDate) (id : String) where
  -- A row that passes the checks, once it is marked, fails them.
  check_envelope-marked :
      (row : DlqRecordRow) (o : Option Json) (message : Published) (now : ℕ)
      → check_envelope iso row o ≡ passed message
      → (is_none row.replayed_at ≡ true)
        × (check_envelope iso (record row { replayed_at = some now }) o ≡ refused already_replayed)
  unfolding check_envelope
  check_envelope-marked row (some (object m)) message now h = (ground arith, refl)
  check_envelope-marked row none message now h = cc
  check_envelope-marked row (some null) message now h = cc
  check_envelope-marked row (some (boolean b)) message now h = cc
  check_envelope-marked row (some (number n)) message now h = cc
  check_envelope-marked row (some (string s)) message now h = cc
  check_envelope-marked row (some (array xs)) message now h = cc

  check_replay-marked :
      (records : List DlqRecordRow) (found : Option DlqRecordRow) (message : Published) (now : ℕ)
      → get_dlq_record_row_by_id id records ≡ found
      → check_row iso found ≡ passed message
      → check_replay iso id (mark_dlq_replayed now id records).1 ≡ refused already_replayed
  unfolding check_replay get_dlq_record_row_by_id mark_dlq_replayed
  check_replay-marked records none message now h k = cc
  check_replay-marked records (some row) message now h k =
      let named = find-IsTrue (λ r. r.id == id) records row h in
      let (unmarked, refused_then) = check_envelope-marked row row.envelope message now k in
      let moved =
        find-update (is_open id) (λ r. r.id == id) (λ r. record r { replayed_at = some now })
          (λ r. refl) records in
      rw (moved, h, named, unmarked) refused_then

  check_replay-again :
      (records : List DlqRecordRow) (message : Published) (now : ℕ)
      → check_replay iso id records ≡ passed message
      → check_replay iso id (mark_dlq_replayed now id records).1 ≡ refused already_replayed
  unfolding check_replay
  check_replay-again records message now h =
      check_replay-marked records (get_dlq_record_row_by_id id records) message now refl h

  on_checked :
      (now later : ℕ) (up : Bool) (records : List DlqRecordRow) (checked : Checks Published)
      (answer : Replayed)
      → check_replay iso id records ≡ checked
      → (finish_replay iso now id true records checked).reply ≡ passed answer
      → replay_dlq_record iso later id up (finish_replay iso now id true records checked).records
        ≡ record {
          reply = refused already_replayed;
          published = [];
          records = (finish_replay iso now id true records checked).records;
        }
  unfolding finish_replay replay_dlq_record mark_dlq_replayed
  on_checked now later up records (refused e) answer h k = cc
  on_checked now later up records (passed message) answer h k =
      ap (finish_replay iso later id up (mark_dlq_replayed now id records).1)
        (check_replay-again records message now h)

-- A replay that was answered as done is done: the next one for the record, sooner or later, is refused
-- as already replayed, and publishes and changes nothing.
pub replay_dlq_record-again :
    (iso : IsoDate) (id : String) (now later : ℕ) (up : Bool) (records : List DlqRecordRow)
    (answer : Replayed)
    → (replay_dlq_record iso now id true records).reply ≡ passed answer
    → replay_dlq_record iso later id up (replay_dlq_record iso now id true records).records
      ≡ record {
        reply = refused already_replayed;
        published = [];
        records = (replay_dlq_record iso now id true records).records;
      }
unfolding replay_dlq_record
replay_dlq_record-again iso id now later up records answer h =
    on_checked iso id now later up records (check_replay iso id records) answer refl h
