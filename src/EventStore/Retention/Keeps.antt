-- ===== src/EventStore/Retention/Keeps.antt =====
-- What retention may not touch: an event or a dead letter that is not past its cutoff.
use Prim.Native.Char.{Char, code}
use datha_platform.Base.Texts.{concat, strip_prefix}
use datha_platform.EventStore.Listing.{is_digit}
use datha_platform.Base.{
  ℕ, suc, ◌+◌, ◌*◌, ◌-◌, ◌≤◌, ◌⊎◌, none, ltb, ◌&&◌, if◌then◌else◌, ◌<◌, String, Bool, true, not,
  ◌==◌, List, [], ◌∷◌, ◌++◌, map, some, leb, filter, All, All-map, ◌≡◌, refl, sym, ap, ◌∙◌, subst,
  arith, Bool-cases, inl, inr, eq_iff,
}
use datha_platform.Base.Queries.{filter-append, filter_none, filter_idem, All-filter, filter-All}
use datha_platform.Messenger.Rows.{bind_date}
use datha_platform.EventStore.Rows.{EventRow, DlqRecordRow}
use datha_platform.EventStore.Retention.{
  Partition, Tables, RetentionOptions, partition_ends_at, year_month, is_expired,
  expired_event_partitions, cutoff, is_before, has_failed_before, rows_of, events_of, drop_table,
  drop_tables, run_retention,
}

-- The calendar, in milliseconds: `month_start y m` is the first instant of the month `m`, from 1 to 12,
-- of the year `y`, in UTC. `Date.UTC` counts months from 0, and its month 12 is the next January.
pub record Calendar (month_start utc : ℕ → ℕ → ℕ) : Type 0 where
  pub within : (y m : ℕ) → m < 12 → utc y m ≡ month_start y (suc m)
  pub across : (y : ℕ) → utc y 12 ≡ month_start (suc y) 1

-- The start of the month after this one, which ends the range of its partition.
abbrev pub next_month_start : (ℕ → ℕ → ℕ) → ℕ → ℕ → ℕ
next_month_start month_start y m = if ltb m 12 then month_start y (suc m) else month_start (suc y) 1

-- A partition that `events_ensure_partition` made of a month: events_y, the year in four digits, m and
-- the month in two, with the rows from the month's start to the next month's.
pub record IsMonth (month_start : ℕ → ℕ → ℕ) (p : Partition) : Type 0 where
  pub a : Char
  pub b : Char
  pub c : Char
  pub d : Char
  pub e : Char
  pub f : Char
  pub digits :
      (is_digit (code a)
        && is_digit (code b)
        && is_digit (code c)
        && is_digit (code d)
        && is_digit (code e)
        && is_digit (code f))
      ≡ true
  pub named :
      p.relname
      ≡ concat "events_y" (
          String.◌∷◌ a (
            String.◌∷◌ b
              (String.◌∷◌ c (String.◌∷◌ d (concat "m" (String.◌∷◌ e (String.◌∷◌ f String.[])))))))
  pub year : ℕ
  pub month : ℕ
  pub is_year :
      (code a - 48) * 1000 + (code b - 48) * 100 + (code c - 48) * 10 + (code d - 48) ≡ year
  pub is_month : (code e - 48) * 10 + (code f - 48) ≡ month
  pub is_first : 1 ≤ month
  pub is_last : month ≤ 12
  pub from_start : All (λ r. month_start year month * 1000 ≤ r.timestamp) p.rows
  pub to_end : All (λ r. r.timestamp < next_month_start month_start year month * 1000) p.rows

-- A table that is attached by hand has another name.
abbrev pub IsPartition : (ℕ → ℕ → ℕ) → Partition → Type 0
IsPartition month_start p = (strip_prefix "events_y" p.relname ≡ none) ⊎ IsMonth month_start p

ends_at :
    (month_start utc : ℕ → ℕ → ℕ) (p : Partition)
    → Calendar month_start utc
    → (h : IsMonth month_start p)
    → partition_ends_at utc p.relname ≡ some (next_month_start month_start h.year h.month)
unfolding partition_ends_at year_month strip_prefix concat
ends_at month_start utc p calendar h =
    let ends : utc h.year h.month ≡ next_month_start month_start h.year h.month =
      elim (Bool-cases (ltb h.month 12)) [
        | inl k ↦ rw k (calendar.within h.year h.month (ground arith))
        | inr k ↦
            let twelve : h.month ≡ 12 = ground (arith, k, h.is_last) in
            rw k (rw twelve (calendar.across h.year))
      ] in
    rw h.named (ground (arith, h.digits, h.is_year, h.is_month, ends, ap (utc h.year) h.is_month))

module _ (month_start utc : ℕ → ℕ → ℕ) (calendar : Calendar month_start utc) (before : ℕ) where
  abbrev live : EventRow → Bool
  live r = not (is_before before r)

  no_live :
      (p : Partition)
      → IsPartition month_start p
      → is_expired utc before p.relname ≡ true
      → filter live p.rows ≡ []
  unfolding is_expired partition_ends_at bind_date
  no_live p (inl foreign) e = ground (arith, foreign, e)
  no_live p (inr h) e =
      let ends = ends_at month_start utc p calendar h in
      let early : leb (next_month_start month_start h.year h.month) before ≡ true =
        ground (arith, ends, e) in
      filter_none live p.rows (All-map (λ r f. ground (arith, f, early)) p.rows h.to_end)

  drop_table-live :
      (name : String) (partitions : List Partition)
      → All (IsPartition month_start) partitions
      → is_expired utc before name ≡ true
      → filter live (rows_of (drop_table name partitions)) ≡ filter live (rows_of partitions)
  unfolding filter
  drop_table-live name [] h e = refl
  drop_table-live name (p ∷ partitions) h e = elim (Bool-cases (p.relname == name)) [
    | inl f ↦
        let gone =
          no_live p h.0
            (subst (λ w. is_expired utc before w ≡ true) (sym ((eq_iff p.relname name).0 f)) e) in
        rw f (
          drop_table-live name partitions h.1 e
          ∙ sym (
              filter-append live p.rows (rows_of partitions)
              ∙ ap (λ l. l ++ filter live (rows_of partitions)) gone))
    | inr f ↦ rw f (
        filter-append live p.rows (rows_of (drop_table name partitions))
        ∙ ap (λ l. filter live p.rows ++ l) (drop_table-live name partitions h.1 e)
        ∙ sym (filter-append live p.rows (rows_of partitions)))
  ]

  drop_table-All :
      (P : Partition → Type 0) (name : String) (partitions : List Partition)
      → All P partitions
      → All P (drop_table name partitions)
  drop_table-All P name partitions h = All-filter P (λ p. not (p.relname == name)) partitions h

  drop_tables-live :
      (names : List String) (partitions : List Partition)
      → All (IsPartition month_start) partitions
      → All (λ n. is_expired utc before n ≡ true) names
      → filter live (rows_of (drop_tables names partitions)) ≡ filter live (rows_of partitions)
  unfolding drop_tables
  drop_tables-live [] partitions h e = refl
  drop_tables-live (name ∷ names) partitions h e =
      drop_tables-live names (drop_table name partitions)
        (drop_table-All (IsPartition month_start) name partitions h) e.1
      ∙ drop_table-live name partitions h e.0

-- What the DELETE statements keep.
abbrev kept_events : ℕ → Tables → List EventRow
kept_events before tables = filter (λ r. not (is_before before r)) (events_of tables)

abbrev kept_records : ℕ → Tables → List DlqRecordRow
kept_records before tables = filter (λ r. not (has_failed_before before r)) tables.dlq_records

run_retention-kept :
    (month_start utc : ℕ → ℕ → ℕ) (now : ℕ) (options : RetentionOptions) (tables : Tables)
    → Calendar month_start utc
    → All (IsPartition month_start) tables.partitions
    → (kept_events
          (cutoff now options.events_retention_days)
          (run_retention utc now options tables).1
        ≡ kept_events (cutoff now options.events_retention_days) tables)
      × (kept_records
            (cutoff now options.dlq_retention_days)
            (run_retention utc now options tables).1
          ≡ kept_records (cutoff now options.dlq_retention_days) tables)
unfolding run_retention expired_event_partitions
run_retention-kept month_start utc now options tables calendar h =
    elim (Bool-cases options.execute) [
      | inr e ↦ rw e (refl, refl)
      | inl e ↦
          let before = cutoff now options.events_retention_days in
          let expired = expired_event_partitions utc before tables.partitions in
          let dropped =
            drop_tables-live month_start utc calendar before expired tables.partitions h
              (filter-All (is_expired utc before) (map (λ p. p.relname) tables.partitions)) in
          rw e (
            filter-append (live month_start utc calendar before)
                  (rows_of (drop_tables expired tables.partitions))
                  (filter (live month_start utc calendar before) tables.events_default)
                ∙ ap
                    (λ l.
                      l
                      ++ filter (live month_start utc calendar before)
                          (filter (live month_start utc calendar before) tables.events_default))
                    dropped
                ∙ ap
                    (λ l.
                      filter (live month_start utc calendar before) (rows_of tables.partitions)
                      ++ l)
                    (filter_idem (live month_start utc calendar before) tables.events_default)
                ∙ sym (
                    filter-append (live month_start utc calendar before) (rows_of tables.partitions)
                      tables.events_default),
            filter_idem (λ r. not (has_failed_before (cutoff now options.dlq_retention_days) r))
                tables.dlq_records,
          )
    ]

filter_same {ℓ} :
    {A : Type ℓ} (p q : A → Bool)
    → ((x : A) → p x ≡ q x)
    → (xs : List A) → filter p xs ≡ filter q xs
unfolding filter
filter_same p q same [] = refl
filter_same p q same (x ∷ xs) = ground (arith, same x, filter_same p q same xs)

-- The events at or after the instant this many days before now, and the dead letters that failed then;
-- the clock is in milliseconds and the columns in microseconds.
abbrev pub live_events : ℕ → ℕ → Tables → List EventRow
live_events now days tables =
    filter (λ r. leb ((now - days * 86400000) * 1000) r.timestamp) (events_of tables)

abbrev pub live_records : ℕ → ℕ → Tables → List DlqRecordRow
live_records now days tables =
    filter (λ r. leb ((now - days * 86400000) * 1000) r.failed_at) tables.dlq_records

live_events-kept :
    (now days : ℕ) (tables : Tables)
    → live_events now days tables ≡ kept_events (cutoff now days) tables
unfolding bind_date
live_events-kept now days tables = filter_same _ _ (λ r. ground arith) (events_of tables)

live_records-kept :
    (now days : ℕ) (tables : Tables)
    → live_records now days tables ≡ kept_records (cutoff now days) tables
unfolding bind_date
live_records-kept now days tables = filter_same _ _ (λ r. ground arith) tables.dlq_records

-- Where `Date.UTC` gives the starts of the months, and each partition is that of the month in its name,
-- with the rows of that month alone, or has a name that does not begin with events_y, retention
-- removes no event and no dead letter of the retention days, counted back from now, whichever
-- partitions it drops.
pub run_retention-live :
    (month_start utc : ℕ → ℕ → ℕ) (now : ℕ) (options : RetentionOptions) (tables : Tables)
    → Calendar month_start utc
    → All (IsPartition month_start) tables.partitions
    → (live_events now options.events_retention_days (run_retention utc now options tables).1
        ≡ live_events now options.events_retention_days tables)
      × (live_records now options.dlq_retention_days (run_retention utc now options tables).1
          ≡ live_records now options.dlq_retention_days tables)
run_retention-live month_start utc now options tables calendar h =
    let after = (run_retention utc now options tables).1 in
    let (events, records) = run_retention-kept month_start utc now options tables calendar h in
    (
      live_events-kept now options.events_retention_days after
          ∙ events
          ∙ sym (live_events-kept now options.events_retention_days tables),
      live_records-kept now options.dlq_retention_days after
          ∙ records
          ∙ sym (live_records-kept now options.dlq_retention_days tables),
    )
