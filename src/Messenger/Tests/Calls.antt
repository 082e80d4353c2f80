-- ===== src/Messenger/Tests/Calls.antt =====
-- Calls: settling, projecting, delivering and sweeping.
use datha_platform.Base.{
  true, ◌≡◌, refl, [], ◌∷◌, none, some, find, update, any, filter, inl, inr, ◌<◌, ◌*◌, ◌+◌, arith,
}
use datha_platform.Base.Iso.{sample_iso, letters, count, instant_of, micros_of}
use datha_platform.Messenger.Result.{Result, ok, err, ◌>>=◌}
use datha_platform.Messenger.Rows.{CallRow, CallMedia, CallEndReason, Db, read_date}
use datha_platform.Messenger.Wire.{settle_stale_call, call_status}
use datha_platform.Messenger.Wire.Settling.{settle_live}
use datha_platform.Messenger.Calls.{
  CallProjection, project_row, project_call, list_conversation_calls, sweep_stale_calls,
}
use datha_platform.Messenger.Calls.Refines.{Projected, project_row-Projected}
use datha_platform.Messenger.Calls.Converges.{SameView}
use datha_platform.Messenger.Calls.Delivery.{
  SameCall, project_call_redelivered, project_call_reordered,
}
use datha_platform.Messenger.Calls.Sweep.{list_conversation_calls-sweep}
use datha_platform.Messenger.Tests.{ring, db}

settle_live_example : (ring.ended_at ≡ none) × (4004 < ring.started_at + 3600 * 1000)
unfolding call_status settle_stale_call
settle_live_example = settle_live ring 3600 4004 (inl refl)

abbrev result_or : Db → Result Db → Db
result_or d (ok e) = e
result_or d (err e) = d

-- The call of the table, answered, and a call that is new.
abbrev answered : CallRow
answered = record ring { answered_at = some 5000 }

abbrev answered_db : Db
unfolding project_row
answered_db = result_or db (project_row answered ("b2" ∷ []) ("b2" ∷ []) 5000 db)

project_row-Projected_example : Projected answered ("b2" ∷ []) ("b2" ∷ []) 5000 db answered_db
unfolding project_row answered_db any
project_row-Projected_example =
    project_row-Projected answered ("b2" ∷ []) ("b2" ∷ []) 5000 db answered_db refl

-- The start and the end of the call, as the consumer hands them over.
abbrev started : CallProjection
started = record {
  call_id = "k1";
  conversation_id = "c1";
  caller_owner_id = "a1";
  callee_owner_id = some "b2";
  participant_owner_ids = "a1" ∷ "b2" ∷ [];
  joined_owner_ids = "a1" ∷ [];
  media = CallMedia.audio;
  started_at = "TTTTT";
  answered_at = none;
  ended_at = none;
  end_reason = none;
  duration_seconds = 0;
}

abbrev ended : CallProjection
ended = record started {
  joined_owner_ids = "a1" ∷ "b2" ∷ [];
  answered_at = some "TTTTTT";
  ended_at = some "TTTTTTTT";
  end_reason = some CallEndReason.hangup;
  duration_seconds = 2;
}

abbrev silent : Db
silent = record db { calls = [] }

abbrev after_start : Db
unfolding project_call
after_start = result_or silent (project_call sample_iso started silent)

abbrev after_both : Db
unfolding project_call after_start
after_both = result_or silent (project_call sample_iso ended after_start)

project_call_redelivered_example : project_call sample_iso started after_start ≡ ok after_start
unfolding project_call after_start sample_iso letters count instant_of micros_of any find update
    filter
project_call_redelivered_example =
    project_call_redelivered sample_iso started silent after_start refl

started-ended : SameCall started ended
started-ended = record {
  call_id = refl;
  conversation_id = refl;
  caller_owner_id = refl;
  callee_owner_id = refl;
  media = refl;
  started_at = refl;
  answered_at = tt;
  ended_at = tt;
  end_reason = tt;
}

project_call_reordered_example :
    (d : Db) × ((project_call sample_iso ended silent >>= project_call sample_iso started) ≡ ok d)
    × SameView after_both d
unfolding project_call after_start after_both sample_iso letters count instant_of micros_of any find
    update filter
project_call_reordered_example =
    project_call_reordered sample_iso started ended silent after_both started-ended refl

list_conversation_calls-sweep_example :
    list_conversation_calls (λ s t. true) 0 9 sample_iso (sweep_stale_calls 0 9000 db).0 "c1" 20
    ≡ list_conversation_calls (λ s t. true) 0 9 sample_iso db "c1" 20
unfolding read_date
list_conversation_calls-sweep_example =
    list_conversation_calls-sweep (λ s t. true) sample_iso 0 9000 9 db "c1" 20 (inr refl, tt)
      (omega arith)
