-- ===== src/EventStore/Replay.antt =====
-- event-store/src/services/dlq-replay.ts and the row access of dlq-query.ts: a dead letter published again.
pub mod Again
pub mod Once
pub mod Restores
use mathlib.Core.Option
use datha_platform.Base.{
  ℕ, String, Bool, true, false, ◌&&◌, ◌==◌, List, [], ◌∷◌, map, Option, none, some, if◌then◌else◌,
  is_none, any, find, update,
}
use datha_platform.Base.Iso.{IsoDate}
use datha_platform.Base.Json.{Json, null, boolean, number, string, array, object}
use datha_platform.Messenger.Envelope.{PlatformEvent, Checked, valid, invalid, parse_envelope}
use datha_platform.Messenger.Rows.{read_date}
use datha_platform.EventStore.Rows.{DlqRecordRow}

-- A DlqReplayError with its status, and the failure that the route answers with 500.
pub data ReplayError : Type 0 where
  record_not_found no_envelope already_replayed invalid_envelope publish_failed : ReplayError

unfoldable pub status_code : ReplayError → ℕ
status_code record_not_found = 404
status_code no_envelope = 400
status_code already_replayed = 409
status_code invalid_envelope = 400
status_code publish_failed = 500

pub data Checks {ℓ} (A : Type ℓ) : Type ℓ where
  refused : ReplayError → Checks A
  passed : A → Checks A

-- A message of the EVENTS stream.
pub record Published : Type 0 where
  pub subject : String
  pub envelope : PlatformEvent

pub record Replayed : Type 0 where
  pub id : String
  pub original_subject : String
  pub replayed_at : String

unfoldable pub get_dlq_record_row_by_id : String → List DlqRecordRow → Option DlqRecordRow
get_dlq_record_row_by_id id records = find (λ r. r.id == id) records

-- WHERE id = $1 AND replayed_at IS NULL
abbrev pub is_open : String → DlqRecordRow → Bool
is_open id r = r.id == id && is_none r.replayed_at

unfoldable pub mark_dlq_replayed : ℕ → String → List DlqRecordRow → Option ℕ × List DlqRecordRow
unfolding read_date
mark_dlq_replayed now id records = (
  if any (is_open id) records then some (read_date now) else none,
  update (is_open id) (λ r. record r { replayed_at = some now }) records,
)

abbrev pub on_stored : DlqRecordRow → Checked PlatformEvent → Checks Published
on_stored row (invalid e) = refused invalid_envelope
on_stored row (valid envelope) =
    passed (record { subject = row.original_subject; envelope = envelope })

-- The checks of `replayDlqRecord` on a row that was found, up to the publish.
unfoldable pub check_envelope : IsoDate → DlqRecordRow → Option Json → Checks Published
check_envelope iso row (some (object m)) =
    if is_none row.replayed_at
    then on_stored row (parse_envelope iso (some (object m)))
    else refused already_replayed
check_envelope iso row _ = refused no_envelope

abbrev pub check_row : IsoDate → Option DlqRecordRow → Checks Published
check_row iso none = refused record_not_found
check_row iso (some row) = check_envelope iso row row.envelope

unfoldable pub check_replay : IsoDate → String → List DlqRecordRow → Checks Published
unfolding get_dlq_record_row_by_id check_envelope
check_replay iso id records = check_row iso (get_dlq_record_row_by_id id records)

-- What follows the publish.
abbrev pub on_marked : IsoDate → String → Published → Option ℕ → Checks Replayed
on_marked iso id message none = refused already_replayed
on_marked iso id message (some at) =
    passed (record { id = id; original_subject = message.subject; replayed_at = iso.to_iso at })

-- A request's answer, what was published for it, and the records it leaves.
pub record Answer : Type 0 where
  pub reply : Checks Replayed
  pub published : List Published
  pub records : List DlqRecordRow

module _ (iso : IsoDate) (now : ℕ) (id : String) where
  unfoldable pub finish_replay : Bool → List DlqRecordRow → Checks Published → Answer
  unfolding mark_dlq_replayed
  finish_replay up records (refused e) = record {
    reply = refused e;
    published = [];
    records = records;
  }
  finish_replay false records (passed message) = record {
    reply = refused publish_failed;
    published = [];
    records = records;
  }
  finish_replay true records (passed message) =
      let marked = mark_dlq_replayed now id records in
      record {
        reply = on_marked iso id message marked.0;
        published = message ∷ [];
        records = marked.1;
      }

  -- `replayDlqRecord` with nothing between its statements. `up` tells that the broker takes the message.
  unfoldable pub replay_dlq_record : Bool → List DlqRecordRow → Answer
  unfolding check_replay finish_replay
  replay_dlq_record up records = finish_replay up records (check_replay iso id records)
