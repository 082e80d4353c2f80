-- ===== src/Messenger/Calls.antt =====
-- messenger-service/src/services/calls.ts: the projection of call events, the call lists and the
-- sweep. Each SQL statement is a function on the tables that it names.
pub mod View
pub mod Counts
pub mod Again
pub mod Refines
pub mod Converges
pub mod Delivery
pub mod Sweep
use datha_platform.Base.{
  ℕ, ◌+◌, ◌*◌, String, Bool, true, false, not, ◌&&◌, ◌||◌, ◌==◌, List, [], ◌∷◌, ◌++◌, map, Option,
  none, some, ltb, leb, if◌then◌else◌, is_none, coalesce, or_default, greatest, any, filter, update,
  length, take, sort_by,
}
use datha_platform.Base.Iso.{IsoDate}
use datha_platform.Base.Json.{Json, string}
use datha_platform.Messenger.Result.{
  Result, ok, err, fk_violation, other_error, ◌>>=◌, cast_result, cast_nullable,
}
use datha_platform.Messenger.Rows.{
  CallEndReason, CallMedia, CallRow, CallParticipantRow, ConversationRow, Db, read_call,
}
use datha_platform.Messenger.Wire.{Call, settle_stale_call, to_call}

-- `END_REASONS`, with the value that each text is narrowed to.
abbrev pub end_reasons : List (String × CallEndReason)
end_reasons =
    ("hangup", CallEndReason.hangup)
    ∷ ("declined", CallEndReason.declined)
    ∷ ("missed", CallEndReason.missed)
    ∷ ("busy", CallEndReason.busy)
    ∷ ("ice_failed", CallEndReason.ice_failed)
    ∷ []

pub record CallProjection : Type 0 where
  pub call_id : String
  pub conversation_id : String
  pub caller_owner_id : String
  pub callee_owner_id : Option String
  pub participant_owner_ids : List String
  pub joined_owner_ids : List String
  pub media : CallMedia
  pub started_at : String
  pub answered_at : Option String
  pub ended_at : Option String
  pub end_reason : Option CallEndReason
  pub duration_seconds : ℕ

unfoldable pub as_media : Option Json → CallMedia
as_media (some (string s)) = if s == "video" then CallMedia.video else CallMedia.audio
as_media _ = CallMedia.audio

abbrev pub named_reason : String → List (String × CallEndReason) → Option CallEndReason
named_reason s [] = none
named_reason s ((name, reason) ∷ rest) = if name == s then some reason else named_reason s rest

unfoldable pub as_end_reason : Option Json → Option CallEndReason
as_end_reason (some (string s)) = named_reason s end_reasons
as_end_reason _ = none

-- ON CONFLICT (id) DO UPDATE of the first statement; `row` is EXCLUDED.
unfoldable pub merge_call : CallRow → CallRow → CallRow
merge_call old row = record old {
  answered_at = coalesce old.answered_at row.answered_at;
  ended_at = coalesce old.ended_at row.ended_at;
  end_reason = coalesce old.end_reason row.end_reason;
  duration_seconds = greatest old.duration_seconds row.duration_seconds;
}

abbrev pub has_conversation : String → List ConversationRow → Bool
has_conversation id = any (λ c. c.id == id)

-- The first statement. A new row needs its conversation, by the foreign key.
unfoldable pub upsert_call : CallRow → Db → Result Db
unfolding merge_call
upsert_call row db =
    if any (λ c. c.id == row.id) db.calls
    then ok (record db { calls = update (λ c. c.id == row.id) (λ c. merge_call c row) db.calls })
    else if has_conversation row.conversation_id db.conversations
    then ok (record db { calls = db.calls ++ (row ∷ []) })
    else err fk_violation

abbrev pub contains : List String → String → Bool
contains ids id = any (λ x. x == id) ids

-- SELECT DISTINCT: the last of equal values is kept.
unfoldable pub distinct : List String → List String
distinct [] = []
distinct (x ∷ xs) = let rest = distinct xs in if contains xs x then rest else x ∷ rest

abbrev pub is_row_of : String → String → CallParticipantRow → Bool
is_row_of call owner r = r.call_id == call && r.owner_id == owner

-- The second statement: rows that exist are updated, the others inserted.
unfoldable pub upsert_call_participants :
    String → List String → List String → List CallParticipantRow → List CallParticipantRow
unfolding distinct
upsert_call_participants call invited joined rows =
    let ids = distinct (invited ++ joined) in
    update (λ r. r.call_id == call && contains ids r.owner_id)
      (λ r. record r { joined = r.joined || contains joined r.owner_id }) rows
    ++ map (λ o. record { call_id = call; owner_id = o; joined = contains joined o })
        (filter (λ o. not (any (is_row_of call o) rows)) ids)

-- The third statement.
unfoldable pub touch_activity : String → ℕ → List ConversationRow → List ConversationRow
touch_activity id at =
    update (λ c. c.id == id) (λ c. record c { last_activity_at = greatest c.last_activity_at at })

abbrev pub is_empty {ℓ} : {A : Type ℓ} → List A → Bool
is_empty [] = true
is_empty (x ∷ xs) = false

-- The three statements of the transaction, on parameters that have been cast.
unfoldable pub project_row : CallRow → List String → List String → ℕ → Db → Result Db
unfolding upsert_call upsert_call_participants touch_activity
project_row row invited joined at db = upsert_call row db >>= λ d. ok (record d {
  call_participants =
      if is_empty invited && is_empty joined
      then d.call_participants
      else upsert_call_participants row.id invited joined d.call_participants;
  conversations = touch_activity row.conversation_id at d.conversations;
})

-- The row that the casts of the first statement's parameters give, `db` columns apart.
abbrev pub cast_row : CallProjection → ℕ → Option ℕ → Option ℕ → CallRow
cast_row input started answered ended = record {
  id = input.call_id;
  conversation_id = input.conversation_id;
  caller_owner_id = input.caller_owner_id;
  callee_owner_id = input.callee_owner_id;
  media = input.media;
  started_at = started;
  answered_at = answered;
  ended_at = ended;
  end_reason = input.end_reason;
  duration_seconds = input.duration_seconds;
  participant_owner_ids = none;
  joined_owner_ids = none;
}

-- The column duration_seconds is an INTEGER; a larger value fails the statement.
unfoldable pub cast_integer : ℕ → Result ℕ
cast_integer n = if leb n 2147483647 then ok n else err other_error

-- The casts of all parameters: the row, and the instant of the third statement.
unfoldable pub cast_call : IsoDate → CallProjection → Result (CallRow × ℕ)
unfolding cast_integer
cast_call iso input = do
  started ← cast_result (iso.cast input.started_at)
  answered ← cast_nullable iso.cast input.answered_at
  ended ← cast_nullable iso.cast input.ended_at
  _ ← cast_integer input.duration_seconds
  at ← cast_result (iso.cast (or_default input.ended_at input.started_at))
  ok (cast_row input started answered ended, at)

-- `projectCall`. An error is thrown after ROLLBACK, so the caller keeps the database it had.
unfoldable pub project_call : IsoDate → CallProjection → Db → Result Db
unfolding cast_call project_row
project_call iso input db = do
  (row, at) ← cast_call iso input
  project_row row input.participant_owner_ids input.joined_owner_ids at db

-- The lists. `collate` is the database's order of texts, `lifetime` is CALL_MAX_LIFETIME_SECONDS
-- and `now` the `Date` of the read.
module _ (collate : String → String → Bool) where
  owners_of : (CallParticipantRow → Bool) → List CallParticipantRow → List String
  owners_of p rows = sort_by collate (map (λ r. r.owner_id) (filter p rows))

  -- WITH_PARTICIPANTS and CALL_COLUMNS
  unfoldable pub hydrate_call : Db → CallRow → CallRow
  unfolding owners_of
  hydrate_call db call = record call {
    participant_owner_ids = some (owners_of (λ r. r.call_id == call.id) db.call_participants);
    joined_owner_ids =
        some (owners_of (λ r. r.call_id == call.id && r.joined) db.call_participants);
  }

unfoldable pub settled : ℕ → ℕ → CallRow → CallRow
settled lifetime now row = settle_stale_call row lifetime now

abbrev pub newest_first : CallRow → CallRow → Bool
newest_first a b = leb b.started_at a.started_at

module _ (collate : String → String → Bool) (lifetime now : ℕ) where
  unfoldable pub list_conversation_calls : IsoDate → Db → String → ℕ → List Call
  unfolding hydrate_call settled
  list_conversation_calls iso db conversation_id limit =
      map (λ row. to_call iso (settled lifetime now (read_call row)))
        (take limit (
          sort_by newest_first (
            map (hydrate_call collate db)
              (filter (λ c. c.conversation_id == conversation_id) db.calls))))

  abbrev pub is_callee : Option String → String → Bool
  is_callee none owner = false
  is_callee (some callee) owner = callee == owner

  -- The WHERE of `listOwnerCalls`.
  abbrev pub took_part : Db → String → CallRow → Bool
  took_part db owner_id c =
      c.caller_owner_id == owner_id
      || is_callee c.callee_owner_id owner_id
      || any (is_row_of c.id owner_id) db.call_participants

  unfoldable pub list_owner_calls : IsoDate → Db → String → ℕ → List Call
  unfolding hydrate_call settled
  list_owner_calls iso db owner_id limit =
      map (λ row. to_call iso (settled lifetime now (read_call row)))
        (take limit (
          sort_by newest_first
            (map (hydrate_call collate db) (filter (took_part db owner_id) db.calls))))

-- The WHERE of the sweep and its SET; the times are timestamptz.
unfoldable pub is_stale : ℕ → ℕ → CallRow → Bool
is_stale lifetime now c = is_none c.ended_at && ltb (c.started_at + lifetime * 1000000) now

unfoldable pub sweep_row : ℕ → ℕ → CallRow → CallRow
unfolding is_stale
sweep_row lifetime now c =
    if is_stale lifetime now c
    then record c {
      ended_at = some (c.started_at + lifetime * 1000000);
      end_reason = some CallEndReason.expired;
    }
    else c

-- The new tables, and the number of rows closed.
unfoldable pub sweep_stale_calls : ℕ → ℕ → Db → Db × ℕ
unfolding sweep_row
sweep_stale_calls lifetime now db = (
  record db { calls = map (sweep_row lifetime now) db.calls },
  length (filter (is_stale lifetime now) db.calls),
)
