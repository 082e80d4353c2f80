-- ===== src/EventStore/DlqListing.antt =====
-- event-store/src/services/dlq-query.ts: the filtered, paged list of dead letters, and one by its id.
use mathlib.Core.Option
use datha_platform.Base.{ℕ, String, Bool, ◌&&◌, List, map, Option, some, ltb, filter, take}
use datha_platform.Base.Iso.{IsoDate}
use datha_platform.Base.Json.{Json}
use datha_platform.Base.Keyset.{drop, order_by}
use datha_platform.Messenger.Rows.{read_date}
use datha_platform.EventStore.Rows.{DlqRecordRow}
use datha_platform.EventStore.Listing.{
  count_capped, Order, asc, is_value, is_one_of, is_from, is_to,
}
use datha_platform.EventStore.Replay.{get_dlq_record_row_by_id}

pub record DlqQueryParams : Type 0 where
  pub owner_id : Option String
  pub sinks : List String
  pub correlation_id : Option String
  pub since : Option ℕ
  pub until : Option ℕ
  pub limit : ℕ
  pub offset : ℕ
  pub order : Option Order
  pub count_cap : ℕ

pub record DlqRecord : Type 0 where
  pub id : String
  pub subject : String
  pub sink : String
  pub original_subject : String
  pub owner_id : Option String
  pub correlation_id : Option String
  pub last_error : String
  pub failed_at : String
  pub payload : Option Json
  pub envelope : Option Json
  pub ingested_at : String
  pub replayed_at : Option String
  pub jetstream_stream : String
  pub jetstream_sequence : ℕ

unfoldable pub row_to_dlq : IsoDate → DlqRecordRow → DlqRecord
unfolding read_date
row_to_dlq iso row = record {
  id = row.id;
  subject = row.subject;
  sink = row.sink;
  original_subject = row.original_subject;
  owner_id = row.owner_id;
  correlation_id = row.correlation_id;
  last_error = row.last_error;
  failed_at = iso.to_iso (read_date row.failed_at);
  payload = row.payload;
  envelope = row.envelope;
  ingested_at = iso.to_iso (read_date row.ingested_at);
  replayed_at = Option.map (λ t. iso.to_iso (read_date t)) row.replayed_at;
  jetstream_stream = row.jetstream_stream;
  jetstream_sequence = row.jetstream_sequence;
}

-- The conditions of `queryDlqRecords`, in order.
unfoldable pub selects_record : DlqQueryParams → DlqRecordRow → Bool
selects_record params r =
    is_value params.owner_id r.owner_id
    && is_one_of params.sinks r.sink
    && is_value params.correlation_id r.correlation_id
    && is_from params.since r.failed_at
    && is_to params.until r.failed_at

-- ORDER BY failed_at: of rows that tie, the earlier in the table first, which the database does not
-- promise.
abbrev pub failed_first : Option Order → DlqRecordRow → DlqRecordRow → Bool
failed_first (some asc) a b = ltb a.failed_at b.failed_at
failed_first _ a b = ltb b.failed_at a.failed_at

pub record DlqPage : Type 0 where
  pub records : List DlqRecord
  pub total : ℕ
  pub total_capped : Bool

unfoldable pub query_dlq_records : IsoDate → DlqQueryParams → List DlqRecordRow → DlqPage
unfolding selects_record count_capped row_to_dlq
query_dlq_records iso params records =
    let counted = count_capped (filter (selects_record params) records) params.count_cap in
    record {
      records = map (row_to_dlq iso) (
          take params.limit (
            drop params.offset
              (order_by (failed_first params.order) (filter (selects_record params) records))));
      total = counted.total;
      total_capped = counted.capped;
    }

unfoldable pub get_dlq_record_by_id : IsoDate → String → List DlqRecordRow → Option DlqRecord
unfolding get_dlq_record_row_by_id row_to_dlq
get_dlq_record_by_id iso id records =
    Option.map (row_to_dlq iso) (get_dlq_record_row_by_id id records)
