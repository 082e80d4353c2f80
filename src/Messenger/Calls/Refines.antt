-- ===== src/Messenger/Calls/Refines.antt =====
-- The transaction of `projectCall` against its effect on the view, and when it fails.
use mathlib.Core.Option
use datha_platform.Base.{
  ℕ, String, true, false, ◌&&◌, ◌==◌, List, [], ◌∷◌, ◌++◌, Option, none, some, arith, if◌then◌else◌,
  greatest, any, find, ◌≡◌, refl, map, update, leb, Bool-cases, inl, inr, subst,
}
use datha_platform.Base.Tables.{find-update_key}
use datha_platform.Messenger.Result.{Result, ok, err, ◌>>=◌}
use datha_platform.Messenger.Rows.{CallRow, ConversationRow, Db}
use datha_platform.Messenger.Calls.{
  upsert_call, contains, upsert_call_participants, touch_activity, is_empty, project_row, is_row_of,
}
use datha_platform.Messenger.Calls.View.{
  call_of, joined_of, activity_of, call_after, joined_after, activity_after, call_of-upsert_call,
  joined_of-upsert,
}
use datha_platform.Messenger.Calls.Counts.{rows_with, rows_with-upsert_call, rows_with-upsert}

pub participants_after :
    (row : CallRow) (db d : Db)
    → upsert_call row db ≡ ok d
    → (d.call_participants ≡ db.call_participants)
      × (d.conversations ≡ db.conversations)
      × (d.messages ≡ db.messages)
      × (d.participants ≡ db.participants)
unfolding upsert_call
participants_after row db d h = ground arith

abbrev pub written : CallRow → List String → List String → ℕ → Db → Db
written row invited joined at d = record d {
  call_participants =
      if is_empty invited && is_empty joined
      then d.call_participants
      else upsert_call_participants row.id invited joined d.call_participants;
  conversations = touch_activity row.conversation_id at d.conversations;
}

pub bind_inv :
    (m : Result Db) (f : Db → Db) (db' : Db)
    → (m >>= λ d. ok (f d)) ≡ ok db'
    → (d : Db) × (m ≡ ok d) × (f d ≡ db')
bind_inv (ok d) f db' h = (d, refl, cc)
bind_inv (err e) f db' h = cc

activity-map :
    (at : ℕ) (o : Option ConversationRow)
    → Option.map
        (λ c. c.last_activity_at)
        (Option.map {A = ConversationRow}
          (λ c. record c { last_activity_at = greatest c.last_activity_at at })
          o)
      ≡ activity_after at (Option.map (λ c. c.last_activity_at) o)
activity-map at none = refl
activity-map at (some c) = refl

activity-touch :
    (id k : String) (at : ℕ) (rows : List ConversationRow)
    → Option.map (λ c. c.last_activity_at) (find (λ c. c.id == k) (touch_activity id at rows)) ≡ (
        if id == k
        then activity_after at (Option.map (λ c. c.last_activity_at) (find (λ c. c.id == k) rows))
        else Option.map (λ c. c.last_activity_at) (find (λ c. c.id == k) rows))
unfolding touch_activity
activity-touch id k at rows = ground (
  arith,
  find-update_key (λ (c : ConversationRow). c.id)
      (λ c. record c { last_activity_at = greatest c.last_activity_at at }) (λ c. refl) id k rows,
  activity-map at (find (λ c. c.id == k) rows),
)

-- A conversation row after an event at this instant of a call in the conversation `id`.
abbrev pub touched : String → ℕ → ConversationRow → ConversationRow
touched id at c =
    if c.id == id
    then record c {
      last_activity_at = if leb c.last_activity_at at then at else c.last_activity_at;
    }
    else c

empty-contains :
    (xs ys : List String) (o : String)
    → (is_empty xs && is_empty ys) ≡ true
    → contains (xs ++ ys) o ≡ false
unfolding any
empty-contains [] [] o h = refl
empty-contains [] (y ∷ ys) o h = cc
empty-contains (x ∷ xs) ys o h = cc

touch_activity-map :
    (id : String) (at : ℕ) (rows : List ConversationRow)
    → touch_activity id at rows ≡ map (touched id at) rows
unfolding touch_activity update
touch_activity-map id at [] = refl
touch_activity-map id at (c ∷ rows) = ground (arith, touch_activity-map id at rows)

-- What an event leaves behind: the row of each call, and how many rows each call has; each person's
-- `joined` on each call, and how many rows each has; and the other three tables, row by row.
pub record Projected (row : CallRow) (invited joined : List String) (at : ℕ) (db db' : Db)
    : Type 0 where
  pub calls :
      (k : String)
      → call_of db' k ≡ (if row.id == k then call_after row (call_of db k) else call_of db k)
  pub joins :
      (c o : String)
      → joined_of db' c o ≡ (
          if row.id == c && contains (invited ++ joined) o
          then joined_after (contains joined o) (joined_of db c o)
          else joined_of db c o)
  pub activity :
      (k : String)
      → activity_of db' k ≡ (
          if row.conversation_id == k
          then activity_after at (activity_of db k)
          else activity_of db k)
  pub call_rows :
      (k : String)
      → rows_with (λ c. c.id == k) db'.calls ≡ (
          if row.id == k
          then greatest (rows_with (λ c. c.id == k) db.calls) 1
          else rows_with (λ c. c.id == k) db.calls)
  pub join_rows :
      (c o : String)
      → rows_with (is_row_of c o) db'.call_participants ≡ (
          if row.id == c && contains (invited ++ joined) o
          then greatest (rows_with (is_row_of c o) db.call_participants) 1
          else rows_with (is_row_of c o) db.call_participants)
  pub conversations : db'.conversations ≡ map (touched row.conversation_id at) db.conversations
  pub messages : db'.messages ≡ db.messages
  pub participants : db'.participants ≡ db.participants

module _ (row : CallRow) (invited joined : List String) (at : ℕ) (db db' : Db) where
  joins_lem :
      (d : Db) (c o : String)
      → d.call_participants ≡ db.call_participants
      → joined_of (written row invited joined at d) c o ≡ (
          if row.id == c && contains (invited ++ joined) o
          then joined_after (contains joined o) (joined_of db c o)
          else joined_of db c o)
  joins_lem d c o same = elim (Bool-cases (is_empty invited && is_empty joined)) [
    | inl e ↦ ground (arith, e, empty-contains invited joined o e, same)
    | inr e ↦ rw e (rw (← same) (joined_of-upsert row.id invited joined d.call_participants c o))
  ]

  join_rows_lem :
      (d : Db) (c o : String)
      → d.call_participants ≡ db.call_participants
      → rows_with (is_row_of c o) (written row invited joined at d).call_participants ≡ (
          if row.id == c && contains (invited ++ joined) o
          then greatest (rows_with (is_row_of c o) db.call_participants) 1
          else rows_with (is_row_of c o) db.call_participants)
  join_rows_lem d c o same = elim (Bool-cases (is_empty invited && is_empty joined)) [
    | inl e ↦ ground (arith, e, empty-contains invited joined o e, same)
    | inr e ↦ rw e (rw (← same) (rows_with-upsert row.id invited joined d.call_participants c o))
  ]

  written-Projected :
      (d : Db)
      → upsert_call row db ≡ ok d
      → Projected row invited joined at db (written row invited joined at d)
  written-Projected d upserted =
      let (people, chats, texts, members) = participants_after row db d upserted in
      record {
        calls = call_of-upsert_call row db d upserted;
        joins = λ c o. joins_lem d c o people;
        activity = λ k. rw (← chats) (activity-touch row.conversation_id k at d.conversations);
        call_rows = λ k. rows_with-upsert_call row db d k upserted;
        join_rows = λ c o. join_rows_lem d c o people;
        conversations = rw (← chats) (touch_activity-map row.conversation_id at d.conversations);
        messages = texts;
        participants = members;
      }

  -- A projected event writes its call and the people it names, and the activity of the call's
  -- conversation, and nothing else: its call's row is merged, or made if there was none; `joined` is
  -- or-ed for each person it names, who gets one row if there was none; no other call or person gains
  -- or loses a row; the conversations keep their order and every column but last_activity_at, which
  -- becomes the later of the two instants; messages and participants stay as they were.
  pub project_row-Projected :
      project_row row invited joined at db ≡ ok db' → Projected row invited joined at db db'
  unfolding project_row
  project_row-Projected h =
      let (d, upserted, same) =
        bind_inv (upsert_call row db) (written row invited joined at) db' h in
      subst (Projected row invited joined at db) same (written-Projected d upserted)
