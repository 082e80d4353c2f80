-- ===== src/Messenger/Calls/Counts.antt =====
-- How many rows of the call tables have a key, before and after one projected event.
use datha_platform.Base.{
  ℕ, ◌+◌, String, Bool, true, false, not, ◌&&◌, ◌||◌, ◌==◌, List, [], ◌∷◌, ◌++◌, map, arith,
  if◌then◌else◌, greatest, any, filter, update, length, ◌≡◌, refl, eq_iff, Bool-cases, inl, inr, ap,
}
use datha_platform.Messenger.Result.{ok}
use datha_platform.Messenger.Rows.{CallRow, CallParticipantRow, Db}
use datha_platform.Messenger.Calls.{
  upsert_call, merge_call, contains, distinct, is_row_of, upsert_call_participants,
}
use datha_platform.Messenger.Calls.View.{contains-distinct, inserted}

abbrev pub rows_with {ℓ} : {A : Type ℓ} → (A → Bool) → List A → ℕ
rows_with p xs = length (filter p xs)

rows_with-append {ℓ} :
    {A : Type ℓ} (p : A → Bool) (xs ys : List A)
    → rows_with p (xs ++ ys) ≡ rows_with p xs + rows_with p ys
unfolding filter
rows_with-append p [] ys = ground arith
rows_with-append p (x ∷ xs) ys = ground (arith, rows_with-append p xs ys)

rows_with-update {ℓ} :
    {A : Type ℓ} (p q : A → Bool) (f : A → A)
    → ((x : A) → q (f x) ≡ q x)
    → (xs : List A) → rows_with q (update p f xs) ≡ rows_with q xs
unfolding filter update
rows_with-update p q f keep [] = refl
rows_with-update p q f keep (x ∷ xs) = ground (arith, keep x, rows_with-update p q f keep xs)

-- At least one row, exactly when some row passes.
rows_with-any {ℓ} :
    {A : Type ℓ} (p : A → Bool) (xs : List A)
    → greatest (rows_with p xs) 1 ≡ (if any p xs then rows_with p xs else 1)
unfolding filter any
rows_with-any p [] = ground arith
rows_with-any p (x ∷ xs) = ground (arith, rows_with-any p xs)

rows_with_none {ℓ} :
    {A : Type ℓ} (p : A → Bool) (xs : List A) → any p xs ≡ false → rows_with p xs ≡ 0
unfolding filter any
rows_with_none p [] h = refl
rows_with_none p (x ∷ xs) h = ground (arith, rows_with_none p xs)

-- An upsert leaves every other key's rows, and makes a row of its own key if there was none.
pub rows_with-upsert_call :
    (row : CallRow) (db db' : Db) (k : String)
    → upsert_call row db ≡ ok db'
    → rows_with (λ c. c.id == k) db'.calls ≡ (
        if row.id == k
        then greatest (rows_with (λ c. c.id == k) db.calls) 1
        else rows_with (λ c. c.id == k) db.calls)
unfolding upsert_call filter
rows_with-upsert_call row db db' k h = elim (Bool-cases (any (λ c. c.id == row.id) db.calls)) [
  | inl old ↦ ground (
    arith,
    rows_with-update (λ (c : CallRow). c.id == row.id) (λ c. c.id == k) (λ c. merge_call c row)
        (λ c. unfold merge_call in refl) db.calls,
    rows_with-any (λ (c : CallRow). c.id == k) db.calls,
    eq_iff row.id k,
  )
  | inr new ↦ ground (
    arith,
    rows_with-append (λ (c : CallRow). c.id == k) db.calls (row ∷ []),
    rows_with_none (λ (c : CallRow). c.id == row.id) db.calls new,
    eq_iff row.id k,
  )
]

distinct_once :
    (p : String → Bool) (xs : List String) (o : String)
    → rows_with (λ x. x == o) (filter p (distinct xs)) ≡ (if contains xs o && p o then 1 else 0)
unfolding filter any distinct
distinct_once p [] o = ground arith
distinct_once p (x ∷ xs) o = elim (Bool-cases (x == o)) [
  | inl e ↦
      let same : x ≡ o = (eq_iff x o).0 e in
      ground (
        arith,
        distinct_once p xs o,
        ap (contains (distinct xs)) same,
        ap p same,
        contains-distinct xs o,
      )
  | inr e ↦ ground (arith, distinct_once p xs o)
]

rows_with-inserted :
    (call c o : String) (joined os : List String)
    → rows_with (is_row_of c o) (map (inserted call joined) os)
      ≡ (if call == c then rows_with (λ x. x == o) os else 0)
unfolding filter
rows_with-inserted call c o joined [] = ground arith
rows_with-inserted call c o joined (x ∷ os) = ground (arith, rows_with-inserted call c o joined os)

-- A person whom the event names has one row if there was none; no other row is added or taken away.
pub rows_with-upsert :
    (call : String) (invited joined : List String) (rows : List CallParticipantRow) (c o : String)
    → rows_with (is_row_of c o) (upsert_call_participants call invited joined rows) ≡ (
        if call == c && contains (invited ++ joined) o
        then greatest (rows_with (is_row_of c o) rows) 1
        else rows_with (is_row_of c o) rows)
unfolding upsert_call_participants
rows_with-upsert call invited joined rows c o =
    let ids = distinct (invited ++ joined) in
    let hit = λ (r : CallParticipantRow). r.call_id == call && contains ids r.owner_id in
    let rejoin =
      λ (r : CallParticipantRow). record r { joined = r.joined || contains joined r.owner_id } in
    let new = λ (x : String). not (any (is_row_of call x) rows) in
    let moved : (call == c) ≡ true → any (is_row_of call o) rows ≡ any (is_row_of c o) rows =
      λ e. ap (λ x. any (is_row_of x o) rows) ((eq_iff call c).0 e) in
    let empty = rows_with_none (is_row_of c o) rows in
    ground (
      arith,
      rows_with-append (is_row_of c o) (update hit rejoin rows)
          (map (inserted call joined) (filter new ids)),
      rows_with-update hit (is_row_of c o) rejoin (λ x. refl) rows,
      rows_with-inserted call c o joined (filter new ids),
      distinct_once new (invited ++ joined) o,
      rows_with-any (is_row_of c o) rows,
      eq_iff call c,
      moved,
      empty,
    )
