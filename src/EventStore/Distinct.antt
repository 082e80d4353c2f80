-- ===== src/EventStore/Distinct.antt =====
-- The loose index scan of event-store/src/services/query.ts and dlq-query.ts: the distinct values of a
-- column, one probe of the index for each.
use mathlib.Core.Option
use datha_platform.Base.{
  ℕ, zero, suc, ◌<◌, String, Bool, true, false, ◌&&◌, ◌||◌, ◌==◌, List, [], ◌∷◌, map, Option, none,
  some, arith, if◌then◌else◌, any, filter, length, All, All-map, ◌≡◌, refl, sym, ap, ◌∙◌,
  Bool-cases, Option-cases, inl, inr, eq_iff, eq_refl, subst,
}
use datha_platform.Base.Keyset.{Strict, Ordered}
use datha_platform.Base.Queries.{length-filter-le, filter-All}
use datha_platform.Messenger.Calls.{contains}
use datha_platform.EventStore.Rows.{EventRow, DlqRecordRow}

-- The database's order of texts.
pub record Collation : Type 0 where
  pub lt : String → String → Bool
  pub strict : Strict lt
  pub total : (s t : String) → lt s t ≡ false → lt t s ≡ false → s ≡ t

module _ (collation : Collation) where
  open collation use {lt}

  -- ORDER BY column LIMIT 1
  unfoldable pub smallest : List String → Option String
  smallest [] = none
  smallest (x ∷ xs) = elim (smallest xs) [ none ↦ some x | some m ↦ some (if lt m x then m else x) ]

  -- The recursive term: from one value to the next above it, until there is none. `none` means that
  -- the fuel ran out, which the query does not know.
  unfoldable pub scan_from : ℕ → List String → Option String → Option (List String)
  unfolding smallest
  scan_from zero column d = none
  scan_from (suc fuel) column none = some []
  scan_from (suc fuel) column (some d) =
      Option.map (λ rest. d ∷ rest) (scan_from fuel column (smallest (filter (lt d) column)))

  unfoldable pub list_distinct : ℕ → List String → Option (List String)
  unfolding scan_from smallest
  list_distinct fuel column = scan_from fuel column (smallest column)

  -- `listEventServices`, `listEventTypes` and `listDlqSinks`
  unfoldable pub list_event_services : ℕ → List EventRow → Option (List String)
  unfolding list_distinct
  list_event_services fuel events = list_distinct fuel (map (λ r. r.service) events)

  unfoldable pub list_event_types : ℕ → List EventRow → Option (List String)
  unfolding list_distinct
  list_event_types fuel events = list_distinct fuel (map (λ r. r.type) events)

  unfoldable pub list_dlq_sinks : ℕ → List DlqRecordRow → Option (List String)
  unfolding list_distinct
  list_dlq_sinks fuel records = list_distinct fuel (map (λ r. r.sink) records)

  irrefl : (s : String) → lt s s ≡ false
  irrefl s = elim (Bool-cases (lt s s)) [ inl e ↦ collation.strict.asym s s e | inr e ↦ e ]

  smallest-none : (xs : List String) → smallest xs ≡ none → xs ≡ []
  unfolding smallest
  smallest-none [] h = refl
  smallest-none (x ∷ xs) h = ground (arith, Option-cases (smallest xs))

  not_below : (k x y : String) → lt k x ≡ false → lt y k ≡ false → lt y x ≡ false
  not_below k x y f g = elim (Bool-cases (lt x k)) [
    | inl e ↦ ground (arith, collation.strict.trans y x k, Bool-cases (lt y x))
    | inr e ↦ subst (λ w. lt y w ≡ false) (collation.total k x f e) g
  ]

  smallest-some :
      (xs : List String) (m : String) (h : smallest xs ≡ some m)
      → (contains xs m ≡ true) × All (λ y. lt y m ≡ false) xs
  unfolding smallest any
  smallest-some [] m h = ground arith
  smallest-some (x ∷ xs) m h = elim (Option-cases (smallest xs)) [
    | inl e ↦
        let same : x ≡ m = ground (arith, e, h) in
        let empty = smallest-none xs e in
        subst (λ w. (contains (x ∷ xs) w ≡ true) × All (λ y. lt y w ≡ false) (x ∷ xs)) same
          (rw (eq_refl x) refl, (irrefl x, subst (λ l. All (λ y. lt y x ≡ false) l) (sym empty) tt))
    | inr (k, e) ↦
        let rest = smallest-some xs k e in
        elim (Bool-cases (lt k x)) [
          | inl f ↦
              let same : k ≡ m = ground (arith, e, h, f) in
              subst (λ w. (contains (x ∷ xs) w ≡ true) × All (λ y. lt y w ≡ false) (x ∷ xs)) same
                (ground (arith, rest.0), (collation.strict.asym k x f, rest.1))
          | inr f ↦
              let same : x ≡ m = ground (arith, e, h, f) in
              subst (λ w. (contains (x ∷ xs) w ≡ true) × All (λ y. lt y w ≡ false) (x ∷ xs)) same
                (rw (eq_refl x) refl, (irrefl x, All-map (λ y g. not_below k x y f g) xs rest.1))
        ]
  ]

  All-contains :
      (P : String → Type 0) (xs : List String) (s : String) → All P xs → contains xs s ≡ true → P s
  unfolding any
  All-contains P [] s h e = ground arith
  All-contains P (x ∷ xs) s h e = elim (Bool-cases (x == s)) [
    | inl f ↦ subst P ((eq_iff _ _).0 f) h.0
    | inr f ↦ All-contains P xs s h.1 (ground arith)
  ]

  contains-filter :
      (p : String → Bool) (xs : List String) (s : String)
      → contains (filter p xs) s ≡ (p s && contains xs s)
  unfolding filter any
  contains-filter p [] s = ground arith
  contains-filter p (x ∷ xs) s = elim (Bool-cases (x == s)) [
    | inl f ↦
        let same = ap p ((eq_iff _ _).0 f) in
        ground (arith, contains-filter p xs s, f, same, Bool-cases (p x))
    | inr f ↦ ground (arith, contains-filter p xs s, f, Bool-cases (p x))
  ]

  filter-shorter :
      (k : String) (xs : List String) → contains xs k ≡ true → length (filter (lt k) xs) < length xs
  unfolding filter any
  filter-shorter k [] h = ground arith
  filter-shorter k (x ∷ xs) h = elim (Bool-cases (x == k)) [
    | inl f ↦
        let self : lt k x ≡ false = subst (λ w. lt w x ≡ false) ((eq_iff _ _).0 f) (irrefl x) in
        ground (arith, self, length-filter-le (lt k) xs)
    | inr f ↦ ground (arith, filter-shorter k xs, length-filter-le (lt k) xs, Bool-cases (lt k x))
  ]

  filter-filter :
      (m k : String) (xs : List String)
      → lt m k ≡ true
      → filter (lt k) (filter (lt m) xs) ≡ filter (lt k) xs
  unfolding filter
  filter-filter m k [] h = refl
  filter-filter m k (x ∷ xs) h = ground (
    arith,
    filter-filter m k xs h,
    collation.strict.trans m k x h,
    Bool-cases (lt m x),
    Bool-cases (lt k x),
  )

  abbrev Scans : List String → Option (List String) → Type 0
  Scans column found =
      (ys : List String) × (found ≡ some ys)
      × Ordered lt ys
      × ((s : String) → contains ys s ≡ contains column s)

  least-step :
      (k : String) (column : List String) (h : smallest column ≡ some k) (s : String)
      → ((k == s) || contains (filter (lt k) column) s) ≡ contains column s
  least-step k column h s =
      let least = smallest-some column k h in
      elim (Bool-cases (k == s)) [
        | inl f ↦ rw f (sym (subst (λ w. contains column w ≡ true) ((eq_iff k s).0 f) least.0))
        | inr f ↦ elim (Bool-cases (contains column s)) [
          | inl g ↦
              let no_less = All-contains (λ y. lt y k ≡ false) column s least.1 g in
              let higher : lt k s ≡ true =
                ground (arith, f, no_less, collation.total k s, eq_iff k s) in
              ground (arith, f, g, higher, contains-filter (lt k) column s)
          | inr g ↦ ground (arith, f, g, contains-filter (lt k) column s)
        ]
      ]

  All-of-contains :
      (P : String → Type 0) (xs : List String)
      → ((s : String) → contains xs s ≡ true → P s)
      → All P xs
  unfolding any
  All-of-contains P [] f = tt
  All-of-contains P (x ∷ xs) f =
      (f x (ground (arith, eq_refl x)), All-of-contains P xs (λ s c. f s (ground arith)))

  -- The step of the scan: a value in front of a scan of what is above it.
  grow :
      (k : String) (column rest : List String) (found : Option (List String))
      → All (λ y. lt k y ≡ true) rest
      → ((s : String) → ((k == s) || contains rest s) ≡ contains column s)
      → Scans rest found
      → Scans column (Option.map (λ ys. k ∷ ys) found)
  unfolding any
  grow k column rest found above step (ys, e, ordered, same) =
      let higher =
        All-of-contains (λ y. lt k y ≡ true) ys
          (λ s c. All-contains (λ y. lt k y ≡ true) rest s above (sym (same s) ∙ c)) in
      (
        k ∷ ys,
        ap (Option.map (λ l. k ∷ l)) e,
        (higher, ordered),
        λ s. ap (λ b. (k == s) || b) (same s) ∙ step s,
      )

  scan_from-Scans :
      (fuel : ℕ) (m : String) (column : List String)
      → length (filter (lt m) column) < fuel
      → Scans (filter (lt m) column) (scan_from fuel column (smallest (filter (lt m) column)))
  unfolding scan_from
  scan_from-Scans zero m column h = ground arith
  scan_from-Scans (suc fuel) m column h = elim (Option-cases (smallest (filter (lt m) column))) [
    | inl e ↦
        let empty = smallest-none (filter (lt m) column) e in
        rw e ([], refl, tt, λ s. ap (λ l. contains l s) (sym empty))
    | inr (k, e) ↦
        let least = smallest-some (filter (lt m) column) k e in
        let above =
          All-contains (λ y. lt m y ≡ true) (filter (lt m) column) k (filter-All (lt m) column)
            least.0 in
        let shorter : length (filter (lt k) column) < length (filter (lt m) column) =
          subst (λ l. length l < length (filter (lt m) column)) (filter-filter m k column above)
            (filter-shorter k (filter (lt m) column) least.0) in
        rw e (
          grow k (filter (lt m) column) (filter (lt k) column)
            (scan_from fuel column (smallest (filter (lt k) column))) (filter-All (lt k) column)
            (subst
              (λ l. (s : String) → ((k == s) || contains l s) ≡ contains (filter (lt m) column) s)
              (filter-filter m k column above) (least-step k (filter (lt m) column) e))
            (scan_from-Scans fuel k column (omega arith)))
  ]

  -- With one step for each row and one more, the scan ends, and gives each value of the column once,
  -- in ascending order, and no other.
  pub list_distinct-Scans :
      (column : List String)
      → (ys : List String) × (list_distinct (suc (length column)) column ≡ some ys)
        × Ordered lt ys
        × ((s : String) → contains ys s ≡ contains column s)
  unfolding list_distinct scan_from
  list_distinct-Scans column = elim (Option-cases (smallest column)) [
    | inl e ↦ rw e ([], refl, tt, λ s. ap (λ l. contains l s) (sym (smallest-none column e)))
    | inr (k, e) ↦ rw e (
        grow k column (filter (lt k) column)
          (scan_from (length column) column (smallest (filter (lt k) column)))
          (filter-All (lt k) column) (least-step k column e)
          (scan_from-Scans (length column) k column
            (filter-shorter k column (smallest-some column k e).0)))
  ]
