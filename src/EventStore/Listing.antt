-- ===== src/EventStore/Listing.antt =====
-- event-store/src/services/query.ts: the filtered, paged list of events and its capped count.
pub mod Counts
pub mod Keys
pub mod Pages
use mathlib.Core.Option
use Prim.Native.Char.{code}
use datha_platform.Base.{
  ℕ, suc, ◌+◌, ◌*◌, String, Bool, true, false, not, ◌&&◌, ◌||◌, ◌==◌, List, [], ◌∷◌, map, Option,
  none, some, ltb, leb, eqb, if◌then◌else◌, is_none, any, filter, find, take, length, last?,
}
use datha_platform.Base.Iso.{IsoDate}
use datha_platform.Base.Json.{Json, null, boolean, number, string, Number, Members}
use datha_platform.Base.Keyset.{drop, order_by}
use datha_platform.Base.Texts.{text_lt}
use datha_platform.Messenger.Result.{Result, ok, err, other_error, ◌>>=◌, cast_result}
use datha_platform.Messenger.Rows.{bind_date}
use datha_platform.EventStore.Rows.{EventRow, read_event}
use datha_platform.EventStore.Cursors.{Base64url, EventCursor, encode_cursor}

-- The total that `countCapped` reports.
pub record Counted : Type 0 where
  pub total : ℕ
  pub capped : Bool

-- COUNT(*) over the rows under LIMIT cap + 1.
unfoldable pub count_capped {ℓ} : {A : Type ℓ} → List A → ℕ → Counted
count_capped rows cap =
    let counted = length (take (suc cap) rows) in
    record { total = if leb counted cap then counted else cap; capped = ltb cap counted }

pub data Order : Type 0 where
  asc desc : Order

pub record EventQueryParams : Type 0 where
  pub owner_id : Option String
  pub types : List String
  pub services : List String
  pub entity_id : Option String
  pub correlation_id : Option String
  pub since : Option ℕ
  pub until : Option ℕ
  pub limit : ℕ
  pub offset : ℕ
  pub order : Option Order
  pub payload : List (String × String)
  pub count_cap : ℕ
  pub after : Option EventCursor

-- What Postgres and JavaScript decide about values: `payload @> {key: value}`, and `Number(text)`.
pub record Jsonb : Type 0 where
  pub contains : Members → String → Json → Bool
  pub to_number : String → Number

-- /^-?\d+(\.\d+)?$/, from the state after the sign: how far the text has been read.
pub data Reading : Type 0 where
  start whole point fraction : Reading

abbrev pub is_digit : ℕ → Bool
is_digit c = leb 48 c && leb c 57

unfoldable pub is_numeric_from : Reading → String → Bool
is_numeric_from whole String.[] = true
is_numeric_from fraction String.[] = true
is_numeric_from _ String.[] = false
is_numeric_from start (String.◌∷◌ x s) = is_digit (code x) && is_numeric_from whole s
is_numeric_from whole (String.◌∷◌ x s) =
    is_digit (code x) && is_numeric_from whole s || eqb (code x) 46 && is_numeric_from point s
is_numeric_from point (String.◌∷◌ x s) = is_digit (code x) && is_numeric_from fraction s
is_numeric_from fraction (String.◌∷◌ x s) = is_digit (code x) && is_numeric_from fraction s

unfoldable pub is_numeric : String → Bool
unfolding is_numeric_from
is_numeric String.[] = false
is_numeric (String.◌∷◌ x s) =
    if eqb (code x) 45 then is_numeric_from start s else is_numeric_from start (String.◌∷◌ x s)

unfoldable pub json_scalar : Jsonb → String → Option Json
unfolding is_numeric
json_scalar jsonb value =
    if value == "true"
    then some (boolean true)
    else if value == "false"
    then some (boolean false)
    else if value == "null"
    then some null
    else if is_numeric value
    then some (number (jsonb.to_number value))
    else none

-- One condition on the payload.
unfoldable pub has_pair : Jsonb → Members → String × String → Bool
unfolding json_scalar
has_pair jsonb payload (key, value) = elim (json_scalar jsonb value) [
  | none ↦ jsonb.contains payload key (string value)
  | some typed ↦ jsonb.contains payload key (string value) || jsonb.contains payload key typed
]

abbrev pub has_pairs : Jsonb → Members → List (String × String) → Bool
has_pairs jsonb payload [] = true
has_pairs jsonb payload (p ∷ ps) = has_pair jsonb payload p && has_pairs jsonb payload ps

-- `if (value) conditions.push(column = value)` on a nullable column.
abbrev pub is_value : Option String → Option String → Bool
is_value none column = true
is_value (some value) none = value == ""
is_value (some value) (some c) = value == "" || c == value

-- `if (values?.length) conditions.push(column = ANY(values))`
abbrev pub is_one_of : List String → String → Bool
is_one_of [] c = true
is_one_of (v ∷ vs) c = any (λ w. w == c) (v ∷ vs)

abbrev pub is_from : Option ℕ → ℕ → Bool
is_from none t = true
is_from (some d) t = leb (bind_date d) t

abbrev pub is_to : Option ℕ → ℕ → Bool
is_to none t = true
is_to (some d) t = leb t (bind_date d)

-- The conditions of `queryEvents`, in order, without the cursor's.
unfoldable pub selects : Jsonb → EventQueryParams → EventRow → Bool
unfolding has_pair bind_date
selects jsonb params r =
    is_value params.owner_id r.owner_id
    && is_one_of params.types r.type
    && is_one_of params.services r.service
    && is_value params.entity_id r.entity_id
    && is_value params.correlation_id r.correlation_id
    && is_from params.since r.timestamp
    && is_to params.until r.timestamp
    && has_pairs jsonb r.payload params.payload

-- (timestamp, id) < (timestamp, id), and which of two rows the order puts first.
unfoldable pub key_lt : ℕ × String → ℕ × String → Bool
unfolding text_lt
key_lt (t, i) (u, j) = ltb t u || eqb t u && text_lt i j

abbrev pub key_of : EventRow → ℕ × String
key_of r = (r.timestamp, r.id)

abbrev pub key_first : Option Order → ℕ × String → ℕ × String → Bool
key_first (some asc) k l = key_lt k l
key_first _ k l = key_lt l k

abbrev pub comes_first : Option Order → EventRow → EventRow → Bool
comes_first order a b = key_first order (key_of a) (key_of b)

abbrev pub is_past : Option Order → Option (ℕ × String) → EventRow → Bool
is_past order none r = true
is_past order (some cut) r = key_first order cut (key_of r)

pub record Event : Type 0 where
  pub id : String
  pub type : String
  pub service : String
  pub entity_id : Option String
  pub owner_id : Option String
  pub correlation_id : Option String
  pub timestamp : String
  pub payload : Members

unfoldable pub row_to_event : IsoDate → EventRow → Event
row_to_event iso row = record {
  id = row.id;
  type = row.type;
  service = row.service;
  entity_id = row.entity_id;
  owner_id = row.owner_id;
  correlation_id = row.correlation_id;
  timestamp = iso.to_iso row.timestamp;
  payload = row.payload;
}

pub record EventPage : Type 0 where
  pub events : List Event
  pub total : ℕ
  pub total_capped : Bool
  pub next_cursor : Option String

-- OFFSET, which only a query without a cursor has.
abbrev pub offset_of : EventQueryParams → ℕ
offset_of params = if is_none params.after then params.offset else 0

module _ (base64url : Base64url) (jsonb : Jsonb) (uuid : String → Option String)
    (iso : IsoDate) where
  abbrev cast_id : String → Result String
  cast_id s = elim (uuid s) [ none ↦ err other_error | some i ↦ ok i ]

  -- The casts of the cursor's two halves.
  unfoldable pub cast_after : Option EventCursor → Result (Option (ℕ × String))
  cast_after none = ok none
  cast_after (some cursor) = do
    t ← cast_result (iso.cast cursor.timestamp)
    i ← cast_id cursor.id
    ok (some (t, i))

  -- The rows of the list query, one more than the limit, as the driver returns them.
  unfoldable pub select_page :
      EventQueryParams → Option (ℕ × String) → List EventRow → List EventRow
  unfolding selects
  select_page params cut events = map read_event (
      take (suc params.limit) (
        drop (offset_of params) (
          order_by (comes_first params.order)
            (filter (is_past params.order cut) (filter (selects jsonb params) events)))))

  unfoldable pub page_of : EventQueryParams → Counted → List EventRow → EventPage
  unfolding encode_cursor
  page_of params counted found =
      let has_more = ltb params.limit (length found) in
      let rows = if has_more then take params.limit found else found in
      record {
        events = map (row_to_event iso) rows;
        total = counted.total;
        total_capped = counted.capped;
        next_cursor =
            if has_more
            then Option.map
                (λ last.
                  encode_cursor base64url iso
                    (record { timestamp = iso.to_iso last.timestamp; id = last.id }))
                (last? rows)
            else none;
      }

  unfoldable pub query_events : EventQueryParams → List EventRow → Result EventPage
  unfolding cast_after select_page page_of count_capped
  query_events params events = do
    cut ← cast_after params.after
    ok (
        page_of params (count_capped (filter (selects jsonb params) events) params.count_cap)
          (select_page params cut events))

-- `getEventById`
unfoldable pub get_event_by_id : IsoDate → String → List EventRow → Option Event
unfolding row_to_event
get_event_by_id iso id events =
    Option.map (λ r. row_to_event iso (read_event r)) (find (λ r. r.id == id) events)
