-- ===== src/Messenger/Calls/View.antt =====
-- What a reader can ask of the call tables, and the effect of one projected event on it.
use mathlib.Core.Option
use datha_platform.Base.{
  ℕ, String, Bool, true, not, ◌&&◌, ◌||◌, ◌==◌, List, [], ◌∷◌, ◌++◌, map, Option, none, some, arith,
  if◌then◌else◌, is_some, coalesce, greatest, any, filter, find, update, ◌≡◌, refl, eq_iff,
  Bool-cases, Option-cases, inl, inr, find-update, find-append, find-IsTrue, and-eq-true, ap,
}
use datha_platform.Base.Tables.{any-eq-is_some, find-eq-none, find-update_key}
use datha_platform.Messenger.Result.{ok}
use datha_platform.Messenger.Rows.{CallRow, CallParticipantRow, Db}
use datha_platform.Messenger.Calls.{
  merge_call, upsert_call, contains, distinct, is_row_of, upsert_call_participants,
}

abbrev pub call_of : Db → String → Option CallRow
call_of db id = find (λ c. c.id == id) db.calls

-- Whether the owner is recorded on the call, and if so whether as joined.
abbrev pub joined_of : Db → String → String → Option Bool
joined_of db call owner =
    Option.map (λ r. r.joined) (find (is_row_of call owner) db.call_participants)

abbrev pub activity_of : Db → String → Option ℕ
activity_of db id = Option.map (λ c. c.last_activity_at) (find (λ c. c.id == id) db.conversations)

-- The same three, after an event.
abbrev pub call_after : CallRow → Option CallRow → Option CallRow
call_after row none = some row
call_after row (some old) = some (record old {
  answered_at = coalesce old.answered_at row.answered_at;
  ended_at = coalesce old.ended_at row.ended_at;
  end_reason = coalesce old.end_reason row.end_reason;
  duration_seconds = greatest old.duration_seconds row.duration_seconds;
})

abbrev pub joined_after : Bool → Option Bool → Option Bool
joined_after now none = some now
joined_after now (some before) = some (before || now)

abbrev pub activity_after : ℕ → Option ℕ → Option ℕ
activity_after at none = none
activity_after at (some t) = some (greatest t at)

pub contains-append :
    (xs ys : List String) (o : String) → contains (xs ++ ys) o ≡ (contains xs o || contains ys o)
unfolding any
contains-append [] ys o = refl
contains-append (x ∷ xs) ys o = ground (arith, contains-append xs ys o)

pub contains-distinct : (xs : List String) (o : String) → contains (distinct xs) o ≡ contains xs o
unfolding any distinct
contains-distinct [] o = refl
contains-distinct (x ∷ xs) o = elim (Bool-cases (x == o)) [
  | inl e ↦
      let same : x ≡ o = (eq_iff x o).0 e in
      ground (arith, contains-distinct xs o, ap (contains xs) same)
  | inr e ↦ ground (arith, contains-distinct xs o)
]

call_after-map :
    (row : CallRow) (o : Option CallRow)
    → is_some o ≡ true
    → Option.map (λ c. merge_call c row) o ≡ call_after row o
unfolding merge_call
call_after-map row none h = cc
call_after-map row (some c) h = refl

module _ (row : CallRow) (db db' : Db) (upserted : upsert_call row db ≡ ok db') where
  pub call_of-upsert_call :
      (k : String)
      → call_of db' k ≡ (if row.id == k then call_after row (call_of db k) else call_of db k)
  unfolding upsert_call find
  call_of-upsert_call k = elim (Bool-cases (any (λ c. c.id == row.id) db.calls)) [
    | inl old ↦ ground (
      arith,
      find-update_key (λ (c : CallRow). c.id) (λ c. merge_call c row)
          (λ c. unfold merge_call in refl) row.id k db.calls,
      any-eq-is_some (λ (c : CallRow). c.id == row.id) db.calls,
      eq_iff row.id k,
      call_after-map row (call_of db row.id),
    )
    | inr new ↦ ground (
      arith,
      find-append (λ (c : CallRow). c.id == k) db.calls (row ∷ []),
      find-eq-none (λ (c : CallRow). c.id == row.id) db.calls,
      eq_iff row.id k,
    )
  ]

abbrev pub inserted : String → List String → String → CallParticipantRow
inserted call joined o = record { call_id = call; owner_id = o; joined = contains joined o }

contains-filter :
    (p : String → Bool) (xs : List String) (o : String)
    → contains (filter p xs) o ≡ (contains xs o && p o)
unfolding any filter
contains-filter p [] o = refl
contains-filter p (x ∷ xs) o = elim (Bool-cases (x == o)) [
  | inl e ↦ let same : x ≡ o = (eq_iff x o).0 e in ground (arith, contains-filter p xs o, ap p same)
  | inr e ↦ ground (arith, contains-filter p xs o)
]

find-inserted :
    (call c o : String) (joined os : List String)
    → find (is_row_of c o) (map (inserted call joined) os)
      ≡ (if call == c && contains os o then some (inserted call joined o) else none)
unfolding find any
find-inserted call c o joined [] = ground arith
find-inserted call c o joined (x ∷ os) = elim (Bool-cases (x == o)) [
  | inl e ↦
      let same : x ≡ o = (eq_iff x o).0 e in
      ground (arith, find-inserted call c o joined os, ap (contains joined) same)
  | inr e ↦ ground (arith, find-inserted call c o joined os)
]

module _ (call : String) (invited joined : List String) (rows : List CallParticipantRow)
    (c o : String) where
  abbrev ids : List String
  ids = distinct (invited ++ joined)

  abbrev is_hit : CallParticipantRow → Bool
  is_hit r = r.call_id == call && contains ids r.owner_id

  abbrev rejoin : CallParticipantRow → CallParticipantRow
  rejoin r = record r { joined = r.joined || contains joined r.owner_id }

  joined_of-known :
      (r : CallParticipantRow)
      → is_row_of c o r ≡ true
      → (if is_hit r then rejoin r else r).joined ≡ (
          if call == c && contains (invited ++ joined) o
          then r.joined || contains joined o
          else r.joined)
  joined_of-known r h =
      let (is_call, is_owner) = and-eq-true (r.call_id == c) (r.owner_id == o) h in
      let same_call : r.call_id ≡ c = (eq_iff _ _).0 is_call in
      let same_owner : r.owner_id ≡ o = (eq_iff _ _).0 is_owner in
      ground (
        arith,
        ap (contains joined) same_owner,
        ap (contains ids) same_owner,
        contains-distinct (invited ++ joined) o,
        eq_iff r.call_id call,
        eq_iff call c,
      )

  pub joined_of-upsert :
      Option.map
        (λ r. r.joined)
        (find (is_row_of c o) (upsert_call_participants call invited joined rows))
      ≡ (if call == c && contains (invited ++ joined) o
          then joined_after
              (contains joined o)
              (Option.map (λ r. r.joined) (find (is_row_of c o) rows))
          else Option.map (λ r. r.joined) (find (is_row_of c o) rows))
  unfolding upsert_call_participants
  joined_of-upsert = elim (Option-cases (find (is_row_of c o) rows)) [
    | inl missing ↦ ground (
      arith,
      missing,
      find-append (is_row_of c o) (update is_hit rejoin rows)
          (map (inserted call joined) (filter (λ x. not (any (is_row_of call x) rows)) ids)),
      find-update is_hit (is_row_of c o) rejoin (λ x. refl) rows,
      find-inserted call c o joined (filter (λ x. not (any (is_row_of call x) rows)) ids),
      contains-filter (λ x. not (any (is_row_of call x) rows)) ids o,
      contains-distinct (invited ++ joined) o,
      any-eq-is_some (is_row_of c o) rows,
      eq_iff call c,
    )
    | inr (r, found) ↦ ground (
      arith,
      found,
      find-append (is_row_of c o) (update is_hit rejoin rows)
          (map (inserted call joined) (filter (λ x. not (any (is_row_of call x) rows)) ids)),
      find-update is_hit (is_row_of c o) rejoin (λ x. refl) rows,
      joined_of-known r (find-IsTrue (is_row_of c o) rows r found),
    )
  ]
