-- ===== src/EventStore/Retention.antt =====
-- event-store/src/services/retention.ts: expired partitions are dropped, and expired rows deleted.
pub mod Keeps
pub mod Accounts
use mathlib.Core.Option
use Prim.Native.Char.{code}
use datha_platform.Base.{
  ℕ, ◌+◌, ◌*◌, ◌-◌, String, Bool, true, false, not, ◌&&◌, ◌==◌, List, [], ◌∷◌, ◌++◌, map, Option,
  none, some, ltb, leb, eqb, if◌then◌else◌, filter, find, length,
}
use datha_platform.Base.Texts.{strip_prefix}
use datha_platform.Messenger.Rows.{bind_date}
use datha_platform.EventStore.Rows.{EventRow, DlqRecordRow}
use datha_platform.EventStore.Listing.{is_digit}

pub record Partition : Type 0 where
  pub relname : String
  pub rows : List EventRow

-- The partitions of `events`, as the query of `eventsPartitionNames` lists them, with events_default apart.
pub record Tables : Type 0 where
  pub partitions : List Partition
  pub events_default : List EventRow
  pub dlq_records : List DlqRecordRow

pub record RetentionStats : Type 0 where
  pub events_candidates : ℕ
  pub events_deleted : ℕ
  pub events_partitions_dropped : List String
  pub dlq_candidates : ℕ
  pub dlq_deleted : ℕ

pub record RetentionOptions : Type 0 where
  pub events_retention_days : ℕ
  pub dlq_retention_days : ℕ
  pub execute : Bool

abbrev digit : ℕ → ℕ
digit c = c - 48

-- (\d{4})m(\d{2})$
unfoldable pub year_month : String → Option (ℕ × ℕ)
year_month
      (String.◌∷◌ a (
        String.◌∷◌ b
          (String.◌∷◌ c (String.◌∷◌ d (String.◌∷◌ m (String.◌∷◌ e (String.◌∷◌ f String.[]))))))) =
    if is_digit (code a)
      && is_digit (code b)
      && is_digit (code c)
      && is_digit (code d)
      && eqb (code m) 109
      && is_digit (code e)
      && is_digit (code f)
    then some (
      digit (code a) * 1000 + digit (code b) * 100 + digit (code c) * 10 + digit (code d),
      digit (code e) * 10 + digit (code f),
    )
    else none
year_month _ = none

-- `utc year month` is `Date.UTC(year, month, 1)`.
module _ (utc : ℕ → ℕ → ℕ) where
  unfoldable pub partition_ends_at : String → Option ℕ
  unfolding year_month strip_prefix
  partition_ends_at name = elim (strip_prefix "events_y" name) [
    | none ↦ none
    | some rest ↦ Option.map (λ p. utc p.0 p.1) (year_month rest)
  ]

  unfoldable pub is_expired : ℕ → String → Bool
  unfolding partition_ends_at
  is_expired before name = elim (partition_ends_at name) [
    | none ↦ false
    | some ends_at ↦ leb ends_at before
  ]

  unfoldable pub expired_event_partitions : ℕ → List Partition → List String
  unfolding is_expired
  expired_event_partitions before partitions =
      filter (is_expired before) (map (λ p. p.relname) partitions)

-- `cutoff(days)`, a day of the calendar being 86400000 milliseconds of UTC.
abbrev pub cutoff : ℕ → ℕ → ℕ
cutoff now days = now - days * 86400000

-- timestamp < $1
abbrev pub is_before : ℕ → EventRow → Bool
is_before before r = ltb r.timestamp (bind_date before)

abbrev pub has_failed_before : ℕ → DlqRecordRow → Bool
has_failed_before before r = ltb r.failed_at (bind_date before)

abbrev pub rows_of : List Partition → List EventRow
rows_of [] = []
rows_of (p ∷ ps) = p.rows ++ rows_of ps

-- The table `events`.
abbrev pub events_of : Tables → List EventRow
events_of tables = rows_of tables.partitions ++ tables.events_default

-- SELECT COUNT(*) FROM "name"
abbrev pub count_of : String → List Partition → ℕ
count_of name partitions = elim (find (λ p. p.relname == name) partitions) [
  | none ↦ 0
  | some p ↦ length p.rows
]

-- DROP TABLE IF EXISTS "name"
abbrev pub drop_table : String → List Partition → List Partition
drop_table name partitions = filter (λ p. not (p.relname == name)) partitions

-- The two loops over the expired names.
unfoldable pub dropped_rows : List String → List Partition → ℕ
dropped_rows [] partitions = 0
dropped_rows (name ∷ names) partitions = count_of name partitions + dropped_rows names partitions

unfoldable pub drop_tables : List String → List Partition → List Partition
drop_tables [] partitions = partitions
drop_tables (name ∷ names) partitions = drop_tables names (drop_table name partitions)

-- `utc year month` is `Date.UTC(year, month, 1)`, and `now` the clock, in milliseconds.
unfoldable pub run_retention : (ℕ → ℕ → ℕ) → ℕ → RetentionOptions → Tables → RetentionStats × Tables
unfolding expired_event_partitions dropped_rows drop_tables bind_date
run_retention utc now options tables =
    let events_before = cutoff now options.events_retention_days in
    let dlq_before = cutoff now options.dlq_retention_days in
    let expired = expired_event_partitions utc events_before tables.partitions in
    let expired_default = filter (is_before events_before) tables.events_default in
    let expired_dlq = filter (has_failed_before dlq_before) tables.dlq_records in
    if options.execute
    then (
      record {
        events_candidates = length (filter (is_before events_before) (events_of tables));
        events_deleted = dropped_rows expired tables.partitions + length expired_default;
        events_partitions_dropped = expired;
        dlq_candidates = length expired_dlq;
        dlq_deleted = length expired_dlq;
      },
      record {
        partitions = drop_tables expired tables.partitions;
        events_default = filter (λ r. not (is_before events_before r)) tables.events_default;
        dlq_records = filter (λ r. not (has_failed_before dlq_before r)) tables.dlq_records;
      },
    )
    else (
      record {
        events_candidates = length (filter (is_before events_before) (events_of tables));
        events_deleted = 0;
        events_partitions_dropped = expired;
        dlq_candidates = length expired_dlq;
        dlq_deleted = 0;
      },
      tables,
    )
