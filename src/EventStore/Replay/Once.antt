-- ===== src/EventStore/Replay/Once.antt =====
-- Replays that interleave: every request is answered in two steps, and other requests run between.
use datha_platform.Base.{
  ℕ, String, Bool, true, false, ◌&&◌, ◌==◌, List, [], ◌∷◌, ◌++◌, Option, none, some, if◌then◌else◌,
  is_none, any, update, ◌≡◌, refl, arith, All, Bool-cases, inl, inr, eq_iff, subst, sym,
}
use datha_platform.Base.Iso.{IsoDate}
use datha_platform.Messenger.Calls.{contains}
use datha_platform.EventStore.Rows.{DlqRecordRow}
use datha_platform.EventStore.Replay.{Published, passed, is_open, mark_dlq_replayed, check_replay}

-- The requests that have published and not yet marked, by record and message, and the records that
-- some request has been told it replayed, latest first.
pub record Requests : Type 0 where
  pub records : List DlqRecordRow
  pub in_flight : List (String × Published)
  pub answered : List String

-- A 202 is noted; a 409 is not.
abbrev pub credit : String → Option ℕ → List String → List String
credit id none answered = answered
credit id (some at) answered = id ∷ answered

-- A request has passed its checks and published; then, in any order, each of these marks and is
-- answered.
pub data Step (iso : IsoDate) : Requests → Requests → Type 0 where
  publish :
      (id : String) (message : Published) (s : Requests)
      → check_replay iso id s.records ≡ passed message
      → Step iso s (record s { in_flight = (id, message) ∷ s.in_flight })
  mark :
      (now : ℕ) (id : String) (message : Published) (before after : List (String × Published))
      (s : Requests)
      → s.in_flight ≡ before ++ (id, message) ∷ after
      → Step iso s (record {
        records = (mark_dlq_replayed now id s.records).1;
        in_flight = before ++ after;
        answered = credit id (mark_dlq_replayed now id s.records).0 s.answered;
      })

pub data Steps (iso : IsoDate) : Requests → Requests → Type 0 where
  stop : (s : Requests) → Steps iso s s
  step : (s t u : Requests) → Step iso s t → Steps iso t u → Steps iso s u

-- No record is there twice.
abbrev pub Distinct : List String → Type 0
Distinct [] = Unit
Distinct (x ∷ xs) = (contains xs x ≡ false) × Distinct xs

-- An answered record is marked in the table.
abbrev pub IsMarked : List String → DlqRecordRow → Type 0
IsMarked answered r = (is_none r.replayed_at && contains answered r.id) ≡ false

pub record IsConsistent (s : Requests) : Type 0 where
  pub once : Distinct s.answered
  pub marked : All (IsMarked s.answered) s.records

open_fresh :
    (id : String) (answered : List String) (records : List DlqRecordRow)
    → All (IsMarked answered) records
    → any (is_open id) records ≡ true
    → contains answered id ≡ false
unfolding any
open_fresh id answered [] h k = ground arith
open_fresh id answered (r ∷ records) h k = elim (Bool-cases (r.id == id)) [
  | inl e ↦ elim (Bool-cases (is_none r.replayed_at)) [
    | inl f ↦
        subst (λ w. contains answered w ≡ false) ((eq_iff r.id id).0 e) (ground (arith, f, h.0))
    | inr f ↦ open_fresh id answered records h.1 (ground arith)
  ]
  | inr e ↦ open_fresh id answered records h.1 (ground arith)
]

unmarked :
    (id : String) (answered : List String) (r : DlqRecordRow)
    → IsMarked answered r
    → is_open id r ≡ false
    → IsMarked (id ∷ answered) r
unfolding any
unmarked id answered r h e = elim (Bool-cases (id == r.id)) [
  | inl f ↦
      let same : (r.id == id) ≡ true = (eq_iff r.id id).1 (sym ((eq_iff id r.id).0 f)) in
      ground (arith, same, e)
  | inr f ↦ ground (arith, f, h)
]

marked_row :
    (now : ℕ) (id : String) (answered : List String) (r : DlqRecordRow) (b : Bool)
    → IsMarked answered r
    → is_open id r ≡ b
    → IsMarked (id ∷ answered) (if b then record r { replayed_at = some now } else r)
marked_row now id answered r true h e = refl
marked_row now id answered r false h e = unmarked id answered r h e

marks :
    (now : ℕ) (id : String) (answered : List String) (records : List DlqRecordRow)
    → All (IsMarked answered) records
    → All
        (IsMarked (id ∷ answered))
        (update (is_open id) (λ r. record r { replayed_at = some now }) records)
unfolding update
marks now id answered [] h = tt
marks now id answered (r ∷ records) h =
    (marked_row now id answered r (is_open id r) h.0 refl, marks now id answered records h.1)

update_closed :
    (f : DlqRecordRow → DlqRecordRow) (id : String) (records : List DlqRecordRow)
    → any (is_open id) records ≡ false
    → update (is_open id) f records ≡ records
unfolding update any
update_closed f id [] h = refl
update_closed f id (r ∷ records) h =
    ground (arith, update_closed f id records, Bool-cases (is_open id r))

module _ (iso : IsoDate) where
  Step-IsConsistent : (s t : Requests) → Step iso s t → IsConsistent s → IsConsistent t
  unfolding mark_dlq_replayed
  Step-IsConsistent s _ (publish id message _ checked) c = record {
    once = c.once;
    marked = c.marked;
  }
  Step-IsConsistent s _ (mark now id message before after _ running) c =
      elim (Bool-cases (any (is_open id) s.records)) [
        | inl e ↦ rw e (record {
          once = (open_fresh id s.answered s.records c.marked e, c.once);
          marked = marks now id s.answered s.records c.marked;
        })
        | inr e ↦ rw e (record {
          once = c.once;
          marked =
              subst (All (IsMarked s.answered))
                (sym (update_closed (λ r. record r { replayed_at = some now }) id s.records e))
                c.marked;
        })
      ]

  -- However the requests interleave, no record is answered as replayed twice, and one that was is
  -- marked in the table for good.
  pub Steps-IsConsistent : (s t : Requests) → Steps iso s t → IsConsistent s → IsConsistent t
  Steps-IsConsistent s t (stop _) c = c
  Steps-IsConsistent s u (step _ t _ one rest) c =
      Steps-IsConsistent t u rest (Step-IsConsistent s t one c)
