-- ===== src/Messenger/Calls/Converges.antt =====
-- Two events of one call, projected in either order, leave the same rows.
use datha_platform.Base.{
  ℕ, String, Bool, true, ◌||◌, ◌==◌, List, [], ◌∷◌, map, ◌∙◌, sym, Bool-cases, Option, none, some,
  arith, any, ◌≡◌, refl, ap, eq_iff, inl, inr, ◌⊎◌, is_some, coalesce,
}
use datha_platform.Base.Tables.{any-eq-is_some}
use datha_platform.Messenger.Result.{DbError, Result, ok, err}
use datha_platform.Messenger.Rows.{CallRow, ConversationRow, Db}
use datha_platform.Messenger.Calls.{
  merge_call, upsert_call, contains, project_row, is_row_of, has_conversation,
}
use datha_platform.Messenger.Calls.View.{
  call_of, joined_of, activity_of, call_after, joined_after, activity_after,
}
use datha_platform.Messenger.Calls.Refines.{Projected, touched}
use datha_platform.Messenger.Calls.Counts.{rows_with}

-- The two databases hold the same rows: of conversations, messages and participants in the same
-- order, and for each call and each person's part in a call the same row by its key, and as many.
pub record SameView (a b : Db) : Type 0 where
  pub calls : (k : String) → call_of a k ≡ call_of b k
  pub joins : (c o : String) → joined_of a c o ≡ joined_of b c o
  pub activity : (k : String) → activity_of a k ≡ activity_of b k
  pub call_rows :
      (k : String) → rows_with (λ c. c.id == k) a.calls ≡ rows_with (λ c. c.id == k) b.calls
  pub join_rows :
      (c o : String)
      → rows_with (is_row_of c o) a.call_participants
        ≡ rows_with (is_row_of c o) b.call_participants
  pub conversations : a.conversations ≡ b.conversations
  pub messages : a.messages ≡ b.messages
  pub participants : a.participants ≡ b.participants

-- Two nullable values of which at most one speaks, or that say the same.
abbrev pub Agree {ℓ} : {A : Type ℓ} → Option A → Option A → Type ℓ
Agree none b = Unit
Agree (some a) none = Unit
Agree (some a) (some b) = a ≡ b

coalesce_swap {ℓ} :
    {A : Type ℓ} (x a b : Option A)
    → Agree a b
    → coalesce (coalesce x a) b ≡ coalesce (coalesce x b) a
coalesce_swap none none none h = refl
coalesce_swap none none (some b) h = refl
coalesce_swap none (some a) none h = refl
coalesce_swap none (some a) (some b) h = ap some h
coalesce_swap (some x) a b h = refl

coalesce_start {ℓ} : {A : Type ℓ} (a b : Option A) → Agree a b → coalesce a b ≡ coalesce b a
coalesce_start none none h = refl
coalesce_start none (some b) h = refl
coalesce_start (some a) none h = refl
coalesce_start (some a) (some b) h = ap some h

-- Two events of one call: the columns that only the first write sets are the same.
pub record SameCallRow (a b : CallRow) : Type 0 where
  pub id : a.id ≡ b.id
  pub conversation_id : a.conversation_id ≡ b.conversation_id
  pub caller_owner_id : a.caller_owner_id ≡ b.caller_owner_id
  pub callee_owner_id : a.callee_owner_id ≡ b.callee_owner_id
  pub media : a.media ≡ b.media
  pub started_at : a.started_at ≡ b.started_at
  pub participant_owner_ids : a.participant_owner_ids ≡ b.participant_owner_ids
  pub joined_owner_ids : a.joined_owner_ids ≡ b.joined_owner_ids
  pub answered_at : Agree a.answered_at b.answered_at
  pub ended_at : Agree a.ended_at b.ended_at
  pub end_reason : Agree a.end_reason b.end_reason

call_after_swap :
    (a b : CallRow) (o : Option CallRow)
    → SameCallRow a b
    → call_after b (call_after a o) ≡ call_after a (call_after b o)
unfolding merge_call
call_after_swap a b none s = ground (
  arith,
  coalesce_start a.answered_at b.answered_at s.answered_at,
  coalesce_start a.ended_at b.ended_at s.ended_at,
  coalesce_start a.end_reason b.end_reason s.end_reason,
)
call_after_swap a b (some c) s = ground (
  arith,
  coalesce_swap c.answered_at a.answered_at b.answered_at s.answered_at,
  coalesce_swap c.ended_at a.ended_at b.ended_at s.ended_at,
  coalesce_swap c.end_reason a.end_reason b.end_reason s.end_reason,
)

-- Can the first statement write the row?
abbrev pub writable : CallRow → Db → Bool
writable row db =
    any (λ c. c.id == row.id) db.calls || has_conversation row.conversation_id db.conversations

Result-cases {ℓ} :
    {A : Type ℓ} (m : Result A) → ((a : A) × (m ≡ ok a)) ⊎ ((e : DbError) × (m ≡ err e))
Result-cases (ok a) = inl (a, refl)
Result-cases (err e) = inr (e, refl)

not_err :
    (row : CallRow) (invited joined : List String) (at : ℕ) (db : Db) (e : DbError)
    → writable row db ≡ true
    → project_row row invited joined at db ≡ err e
    → ⊥
unfolding project_row upsert_call
not_err row invited joined at db e h bad = ground arith

pub ok_of_writable :
    (row : CallRow) (invited joined : List String) (at : ℕ) (db : Db)
    → writable row db ≡ true
    → (db' : Db) × (project_row row invited joined at db ≡ ok db')
ok_of_writable row invited joined at db h =
    elim (Result-cases (project_row row invited joined at db)) [
      | inl found ↦ found
      | inr (e, bad) ↦ absurd (not_err row invited joined at db e h bad)
    ]

pub writable_of_ok :
    (row : CallRow) (invited joined : List String) (at : ℕ) (db db' : Db)
    → project_row row invited joined at db ≡ ok db'
    → writable row db ≡ true
unfolding project_row upsert_call
writable_of_ok row invited joined at db db' h = ground arith

-- After an event its call exists.
is_some-call_after : (row : CallRow) (o : Option CallRow) → is_some (call_after row o) ≡ true
is_some-call_after row none = refl
is_some-call_after row (some c) = refl

pub writable_after :
    (row next : CallRow) (invited joined : List String) (at : ℕ) (db db' : Db)
    → row.id ≡ next.id
    → Projected row invited joined at db db'
    → writable next db' ≡ true
writable_after row next invited joined at db db' same p = ground (
  arith,
  p.calls next.id,
  (eq_iff row.id next.id).1 same,
  any-eq-is_some (λ (c : CallRow). c.id == next.id) db'.calls,
  is_some-call_after row (call_of db next.id),
)

joined_after_swap :
    (m n : Bool) (o : Option Bool)
    → joined_after m (joined_after n o) ≡ joined_after n (joined_after m o)
joined_after_swap m n none = ground arith
joined_after_swap m n (some b) = ground arith

activity_after_swap :
    (m n : ℕ) (o : Option ℕ)
    → activity_after m (activity_after n o) ≡ activity_after n (activity_after m o)
activity_after_swap m n none = refl
activity_after_swap m n (some t) = ground arith

map-touched_swap :
    (id : String) (m n : ℕ) (rows : List ConversationRow)
    → map (touched id n) (map (touched id m) rows) ≡ map (touched id m) (map (touched id n) rows)
map-touched_swap id m n [] = refl
map-touched_swap id m n (c ∷ rows) =
    ground (arith, map-touched_swap id m n rows, Bool-cases (c.id == id))

module _ (a : CallRow) (ia ja : List String) (ta : ℕ) (db d1 : Db)
    (first : Projected a ia ja ta db d1) where
  -- Another event of the call, before and after.
  pub swap-SameView :
      (b : CallRow) (ib jb : List String) (tb : ℕ) (d12 d2 d21 : Db)
      → SameCallRow a b
      → Projected b ib jb tb d1 d12
      → Projected b ib jb tb db d2
      → Projected a ia ja ta d2 d21
      → SameView d12 d21
  swap-SameView b ib jb tb d12 d2 d21 s second first' second' = record {
    calls = λ k. ground (
      arith,
      first.calls k,
      second.calls k,
      first'.calls k,
      second'.calls k,
      s.id,
      call_after_swap a b (call_of db k) s,
    );
    joins = λ c o. ground (
      arith,
      first.joins c o,
      second.joins c o,
      first'.joins c o,
      second'.joins c o,
      s.id,
      joined_after_swap (contains ja o) (contains jb o) (joined_of db c o),
    );
    activity = λ k. ground (
      arith,
      first.activity k,
      second.activity k,
      first'.activity k,
      second'.activity k,
      s.conversation_id,
      activity_after_swap ta tb (activity_of db k),
    );
    call_rows = λ k. ground (
      arith,
      first.call_rows k,
      second.call_rows k,
      first'.call_rows k,
      second'.call_rows k,
      s.id,
    );
    join_rows = λ c o. ground (
      arith,
      first.join_rows c o,
      second.join_rows c o,
      first'.join_rows c o,
      second'.join_rows c o,
      s.id,
    );
    conversations =
        second.conversations
        ∙ ap (map (touched b.conversation_id tb)) first.conversations
        ∙ rw (← s.conversation_id) (map-touched_swap a.conversation_id ta tb db.conversations)
        ∙ sym
            (second'.conversations ∙ ap (map (touched a.conversation_id ta)) first'.conversations);
    messages = second.messages ∙ first.messages ∙ sym (second'.messages ∙ first'.messages);
    participants =
        second.participants ∙ first.participants ∙ sym (second'.participants ∙ first'.participants);
  }
