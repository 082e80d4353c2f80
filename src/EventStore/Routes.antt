-- ===== src/EventStore/Routes.antt =====
-- event-store/src/routes/events.ts and dlq.ts: what a handler answers. A query or params that `safeParse`
-- refuses are `none`.
use datha_platform.Base.{ℕ, String, Bool, List, Option, none, some}
use datha_platform.Base.Iso.{IsoDate}
use datha_platform.Messenger.Result.{Result, ok, err}
use datha_platform.EventStore.Rows.{EventRow, DlqRecordRow}
use datha_platform.EventStore.Cursors.{Base64url, EventCursor, decode_cursor}
use datha_platform.EventStore.Listing.{
  Jsonb, Order, EventQueryParams, EventPage, Event, query_events, get_event_by_id,
}
use datha_platform.EventStore.DlqListing.{
  DlqQueryParams, DlqPage, DlqRecord, query_dlq_records, get_dlq_record_by_id,
}
use datha_platform.EventStore.Replay.{
  Checks, passed, refused, Replayed, status_code, replay_dlq_record,
}
use datha_platform.EventStore.Requests.{
  QueryValue, PayloadFilters, accepted, rejected, parse_payload_filters,
}

pub record Reply {ℓ} (A : Type ℓ) : Type ℓ where
  pub status : ℕ
  pub body : Option A

abbrev pub refuse {ℓ} : {A : Type ℓ} → ℕ → Reply A
refuse status = record { status = status; body = none }

abbrev pub answer {ℓ} : {A : Type ℓ} → ℕ → A → Reply A
answer status a = record { status = status; body = some a }

abbrev pub found_or_404 {ℓ} : {A : Type ℓ} → Option A → Reply A
found_or_404 none = refuse 404
found_or_404 (some a) = answer 200 a

-- A query that `querySchema` lets through, its dates as `new Date` reads them.
pub record EventsQuery : Type 0 where
  pub type : List String
  pub service : List String
  pub entity_id : Option String
  pub owner_id : Option String
  pub correlation_id : Option String
  pub since : Option ℕ
  pub until : Option ℕ
  pub limit : ℕ
  pub offset : ℕ
  pub order : Option Order
  -- `min(1)`, so a cursor that is given is not empty
  pub after : Option String

abbrev pub events_params :
    ℕ → EventsQuery → Option EventCursor → List (String × String) → EventQueryParams
events_params count_cap q after payload = record {
  owner_id = q.owner_id;
  types = q.type;
  services = q.service;
  entity_id = q.entity_id;
  correlation_id = q.correlation_id;
  since = q.since;
  until = q.until;
  limit = q.limit;
  offset = q.offset;
  order = q.order;
  payload = payload;
  count_cap = count_cap;
  after = after;
}

-- `count_cap` is LIST_COUNT_CAP, and `request` the entries of the query string.
module _ (base64url : Base64url) (jsonb : Jsonb) (uuid : String → Option String) (iso : IsoDate)
    (count_cap : ℕ) (request : List (String × QueryValue)) (events : List EventRow) where
  abbrev pub on_listed : Result EventPage → Reply EventPage
  on_listed (err e) = refuse 500
  on_listed (ok page) = answer 200 page

  abbrev pub on_filters : EventsQuery → Option EventCursor → PayloadFilters → Reply EventPage
  on_filters q after (rejected raw) = refuse 400
  on_filters q after (accepted payload) =
      on_listed
        (query_events base64url jsonb uuid iso (events_params count_cap q after payload) events)

  abbrev pub on_cursor : EventsQuery → Option EventCursor → Reply EventPage
  on_cursor q none = refuse 400
  on_cursor q (some cursor) = on_filters q (some cursor) (parse_payload_filters request)

  abbrev pub on_after : EventsQuery → Option String → Reply EventPage
  on_after q none = on_filters q none (parse_payload_filters request)
  on_after q (some raw) = on_cursor q (decode_cursor base64url iso raw)

  -- GET /events
  unfoldable pub get_events : Option EventsQuery → Reply EventPage
  unfolding query_events decode_cursor parse_payload_filters
  get_events none = refuse 400
  get_events (some q) = on_after q q.after

-- GET /events/:id
unfoldable pub get_event : IsoDate → List EventRow → Option String → Reply Event
unfolding get_event_by_id
get_event iso events none = refuse 400
get_event iso events (some id) = found_or_404 (get_event_by_id iso id events)

-- GET /dlq, with `listQuerySchema`'s fields as the parameters of the query.
unfoldable pub get_dlq : IsoDate → List DlqRecordRow → Option DlqQueryParams → Reply DlqPage
unfolding query_dlq_records
get_dlq iso records none = refuse 400
get_dlq iso records (some q) = answer 200 (query_dlq_records iso q records)

-- GET /dlq/:id
unfoldable pub get_dlq_record : IsoDate → List DlqRecordRow → Option String → Reply DlqRecord
unfolding get_dlq_record_by_id
get_dlq_record iso records none = refuse 400
get_dlq_record iso records (some id) = found_or_404 (get_dlq_record_by_id iso id records)

-- POST /dlq/:id/replay
abbrev pub on_replayed : Checks Replayed → Reply Replayed
on_replayed (refused e) = refuse (status_code e)
on_replayed (passed replayed) = answer 202 replayed

unfoldable pub post_replay :
    IsoDate → ℕ → Bool → List DlqRecordRow → Option String → Reply Replayed × List DlqRecordRow
unfolding replay_dlq_record status_code
post_replay iso now up records none = (refuse 400, records)
post_replay iso now up records (some id) =
    let answered = replay_dlq_record iso now id up records in
    (on_replayed answered.reply, answered.records)
