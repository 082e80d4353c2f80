-- ===== src/EventStore/Retention/Accounts.antt =====
-- The numbers that retention reports are what it did.
use datha_platform.Base.{
  ℕ, ◌+◌, String, Bool, true, false, not, ◌==◌, List, [], ◌∷◌, ◌++◌, map, filter, find, length, any,
  ◌≡◌, refl, sym, subst, arith, Bool-cases, inl, inr, ◌⊎◌, eq_iff,
}
use datha_platform.Messenger.Calls.{contains}
use datha_platform.EventStore.Retention.{
  cutoff, is_before, has_failed_before, Partition, Tables, RetentionOptions, is_expired,
  expired_event_partitions, rows_of, events_of, count_of, drop_table, dropped_rows, drop_tables,
  run_retention,
}

-- The catalogue has no relation twice.
abbrev pub Unique : List String → Type 0
Unique [] = Unit
Unique (x ∷ xs) = (contains xs x ≡ false) × Unique xs

abbrev names_of : List Partition → List String
names_of partitions = map (λ p. p.relname) partitions

length-append : {A : Type 0} (xs ys : List A) → length (xs ++ ys) ≡ length xs + length ys
length-append [] ys = omega arith
length-append (x ∷ xs) ys = omega (arith, length-append xs ys)

length-split :
    {A : Type 0} (p : A → Bool) (xs : List A)
    → length (filter (λ x. not (p x)) xs) + length (filter p xs) ≡ length xs
unfolding filter
length-split p [] = refl
length-split p (x ∷ xs) = ground (arith, length-split p xs, Bool-cases (p x))

drop_table-absent :
    (name : String) (ps : List Partition)
    → contains (names_of ps) name ≡ false
    → drop_table name ps ≡ ps
unfolding filter any
drop_table-absent name [] h = refl
drop_table-absent name (p ∷ ps) h =
    ground (arith, drop_table-absent name ps, Bool-cases (p.relname == name))

count_of-absent :
    (name : String) (ps : List Partition)
    → contains (names_of ps) name ≡ false
    → count_of name ps ≡ 0
unfolding find any
count_of-absent name [] h = refl
count_of-absent name (p ∷ ps) h =
    ground (arith, count_of-absent name ps, Bool-cases (p.relname == name))

length-drop_table :
    (name : String) (ps : List Partition)
    → Unique (names_of ps)
    → length (rows_of (drop_table name ps)) + count_of name ps ≡ length (rows_of ps)
unfolding filter find
length-drop_table name [] h = refl
length-drop_table name (p ∷ ps) h = elim (Bool-cases (p.relname == name)) [
  | inl e ↦
      let absent =
        subst (λ w. contains (names_of ps) w ≡ false) ((eq_iff p.relname name).0 e) h.0 in
      ground (arith, e, drop_table-absent name ps absent, length-append p.rows (rows_of ps))
  | inr e ↦ ground (
    arith,
    e,
    length-append p.rows (rows_of ps),
    length-append p.rows (rows_of (drop_table name ps)),
    length-drop_table name ps h.1,
  )
]

apart_sym : (a b : String) → (a == b) ≡ false → (b == a) ≡ false
apart_sym a b h = elim (Bool-cases (b == a)) [
  | inl e ↦
      let same : (a == b) ≡ true = (eq_iff a b).1 (sym ((eq_iff b a).0 e)) in
      ground (arith, same, h)
  | inr e ↦ e
]

count_of-drop_table :
    (name other : String) (ps : List Partition)
    → (name == other) ≡ false
    → count_of other (drop_table name ps) ≡ count_of other ps
unfolding filter find
count_of-drop_table name other [] h = refl
count_of-drop_table name other (p ∷ ps) h = elim (Bool-cases (p.relname == name)) [
  | inl e ↦
      let apart : (p.relname == other) ≡ false =
        subst (λ w. (w == other) ≡ false) (sym ((eq_iff p.relname name).0 e)) h in
      ground (arith, e, apart, count_of-drop_table name other ps h)
  | inr e ↦ ground (arith, e, count_of-drop_table name other ps h, Bool-cases (p.relname == other))
]

dropped_rows-drop_table :
    (name : String) (names : List String) (ps : List Partition)
    → contains names name ≡ false
    → dropped_rows names (drop_table name ps) ≡ dropped_rows names ps
unfolding dropped_rows any
dropped_rows-drop_table name [] ps h = refl
dropped_rows-drop_table name (n ∷ names) ps h =
    let apart : (name == n) ≡ false = apart_sym n name (ground arith) in
    omega (
      arith,
      count_of-drop_table name n ps apart,
      dropped_rows-drop_table name names ps (ground arith),
    )

contains-drop_table :
    (other name : String) (ps : List Partition)
    → contains (names_of ps) other ≡ false
    → contains (names_of (drop_table name ps)) other ≡ false
unfolding filter any
contains-drop_table other name [] h = refl
contains-drop_table other name (p ∷ ps) h =
    ground (arith, contains-drop_table other name ps, Bool-cases (p.relname == name))

Unique-drop_table :
    (name : String) (ps : List Partition)
    → Unique (names_of ps)
    → Unique (names_of (drop_table name ps))
unfolding filter
Unique-drop_table name [] h = tt
Unique-drop_table name (p ∷ ps) h = elim (Bool-cases (p.relname == name)) [
  | inl e ↦ rw e (Unique-drop_table name ps h.1)
  | inr e ↦ rw e (contains-drop_table p.relname name ps h.0, Unique-drop_table name ps h.1)
]

length-drop_tables :
    (names : List String) (ps : List Partition)
    → Unique names
    → Unique (names_of ps)
    → length (rows_of (drop_tables names ps)) + dropped_rows names ps ≡ length (rows_of ps)
unfolding drop_tables dropped_rows
length-drop_tables [] ps h k = omega arith
length-drop_tables (name ∷ names) ps h k = omega (
  arith,
  length-drop_tables names (drop_table name ps) h.1 (Unique-drop_table name ps k),
  dropped_rows-drop_table name names ps h.0,
  length-drop_table name ps k,
)

contains-filter :
    (p : String → Bool) (other : String) (xs : List String)
    → contains xs other ≡ false
    → contains (filter p xs) other ≡ false
unfolding filter any
contains-filter p other [] h = refl
contains-filter p other (x ∷ xs) h = ground (arith, contains-filter p other xs, Bool-cases (p x))

Unique-filter : (p : String → Bool) (xs : List String) → Unique xs → Unique (filter p xs)
unfolding filter
Unique-filter p [] h = tt
Unique-filter p (x ∷ xs) h = elim (Bool-cases (p x)) [
  | inl e ↦ rw e (contains-filter p x xs h.0, Unique-filter p xs h.1)
  | inr e ↦ rw e (Unique-filter p xs h.1)
]

-- Where no partition is listed twice: what a run reports as deleted is what is missing afterwards, of events and of dead letters; and a
-- run without --execute leaves the tables as they are.
pub run_retention-accounts :
    (utc : ℕ → ℕ → ℕ) (now : ℕ) (options : RetentionOptions) (tables : Tables)
    → Unique (map (λ p. p.relname) tables.partitions)
    → (length (events_of (run_retention utc now options tables).1)
          + (run_retention utc now options tables).0.events_deleted
        ≡ length (events_of tables))
      × (length (run_retention utc now options tables).1.dlq_records
            + (run_retention utc now options tables).0.dlq_deleted
          ≡ length tables.dlq_records)
      × ((options.execute ≡ true) ⊎ ((run_retention utc now options tables).1 ≡ tables))
unfolding run_retention expired_event_partitions
run_retention-accounts utc now options tables h = elim (Bool-cases options.execute) [
  | inr e ↦ rw e (omega arith, omega arith, inr refl)
  | inl e ↦
      let before = cutoff now options.events_retention_days in
      let expired = expired_event_partitions utc before tables.partitions in
      let unique = Unique-filter (is_expired utc before) (names_of tables.partitions) h in
      rw e (
        omega (
          arith,
          length-drop_tables expired tables.partitions unique h,
          length-append (rows_of (drop_tables expired tables.partitions))
              (filter (λ r. not (is_before before r)) tables.events_default),
          length-split (is_before before) tables.events_default,
          length-append (rows_of tables.partitions) tables.events_default,
        ),
        length-split (has_failed_before (cutoff now options.dlq_retention_days)) tables.dlq_records,
        inl refl,
      )
]
