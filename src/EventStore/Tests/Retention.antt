-- ===== src/EventStore/Tests/Retention.antt =====
-- A month's partition that has expired, and a query string.
use datha_platform.Base.{
  ℕ, suc, inr, ◌-◌, ◌+◌, ◌*◌, ◌⊎◌, String, true, List, [], ◌∷◌, arith, refl, ◌≡◌, filter, length,
  All, any,
}
use datha_platform.Base.Texts.{concat, strip_prefix}
use datha_platform.EventStore.Retention.{Tables, RetentionOptions, events_of, run_retention}
use datha_platform.EventStore.Retention.Keeps.{
  IsPartition, live_events, live_records, run_retention-live,
}
use datha_platform.EventStore.Retention.Accounts.{run_retention-accounts}
use datha_platform.EventStore.Requests.{
  QueryValue, text, accepted, parse_payload_filters, parse_from, is_payload_key, all_key_codes,
  assign,
}
use datha_platform.EventStore.Requests.Filters.{IsApplied, parse_payload_filters-IsApplied}
use datha_platform.EventStore.Tests.{two_events, event, dead}

abbrev tables : Tables
tables = record {
  partitions = record { relname = "events_y2026m05"; rows = two_events } ∷ [];
  events_default = event "e3" 5000 ∷ [];
  dlq_records = dead ∷ [];
}

-- A calendar whose months are 5 milliseconds long, from May 2026 on.
abbrev month_start : ℕ → ℕ → ℕ
month_start year month = (year * 12 + month - 24317) * 5

abbrev utc : ℕ → ℕ → ℕ
utc year month = (year * 12 + suc month - 24317) * 5

abbrev options : RetentionOptions
options = record { events_retention_days = 0; dlq_retention_days = 0; execute = true }

partitioned : All (IsPartition month_start) tables.partitions
unfolding concat
partitioned = (
  inr (record {
    a = "2";
    b = "0";
    c = "2";
    d = "6";
    e = "0";
    f = "5";
    digits = refl;
    named = refl;
    year = 2026;
    month = 5;
    is_year = refl;
    is_month = refl;
    is_first = omega arith;
    is_last = omega arith;
    from_start = omega arith;
    to_end = omega arith;
  }),
  tt,
)

run_retention-live_example :
    (live_events 6 0 (run_retention utc 6 options tables).1 ≡ live_events 6 0 tables)
    × (live_records 6 0 (run_retention utc 6 options tables).1 ≡ live_records 6 0 tables)
run_retention-live_example =
    run_retention-live month_start utc 6 options tables
      (record { within = λ y m h. omega arith; across = λ y. omega arith }) partitioned

run_retention-accounts_example :
    (length (events_of (run_retention utc 6 options tables).1)
        + (run_retention utc 6 options tables).0.events_deleted
      ≡ 3)
    × (length (run_retention utc 6 options tables).1.dlq_records
          + (run_retention utc 6 options tables).0.dlq_deleted
        ≡ 1)
    × ((true ≡ true) ⊎ ((run_retention utc 6 options tables).1 ≡ tables))
unfolding any
run_retention-accounts_example = run_retention-accounts utc 6 options tables (refl, tt)

abbrev request : List (String × QueryValue)
request = ("payload.origin", text "messenger") ∷ ("limit", text "5") ∷ []

accepts : parse_payload_filters request ≡ accepted (("origin", "messenger") ∷ [])
unfolding parse_payload_filters parse_from strip_prefix is_payload_key all_key_codes assign filter
accepts = refl

parse_payload_filters-IsApplied_example : All (IsApplied (("origin", "messenger") ∷ [])) request
parse_payload_filters-IsApplied_example =
    parse_payload_filters-IsApplied request (("origin", "messenger") ∷ []) accepts
