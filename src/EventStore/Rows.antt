-- ===== src/EventStore/Rows.antt =====
-- Rows of event-store/src/types and the tables of its migrations. Times in a row are a timestamptz, in
-- microseconds; `read_event` is the row as the driver returns it, in milliseconds.
use datha_platform.Base.{ℕ, String, Bool, ◌&&◌, ◌==◌, eqb, Option}
use datha_platform.Base.Json.{Json, Members}
use datha_platform.Messenger.Rows.{read_date}

pub record EventRow : Type 0 where
  pub id : String
  pub type : String
  pub service : String
  pub entity_id : Option String
  pub owner_id : Option String
  pub correlation_id : Option String
  pub timestamp : ℕ
  pub payload : Members

pub record DlqRecordRow : Type 0 where
  pub id : String
  pub subject : String
  pub sink : String
  pub jetstream_stream : String
  pub jetstream_sequence : ℕ
  pub original_subject : String
  pub owner_id : Option String
  pub correlation_id : Option String
  pub last_error : String
  pub failed_at : ℕ
  pub payload : Option Json
  pub envelope : Option Json
  pub ingested_at : ℕ
  pub replayed_at : Option ℕ

unfoldable pub read_event : EventRow → EventRow
unfolding read_date
read_event r = record r { timestamp = read_date r.timestamp }

-- The primary key (id, timestamp) of a partitioned table.
abbrev pub has_event_key : String → ℕ → EventRow → Bool
has_event_key id at r = r.id == id && eqb r.timestamp at
