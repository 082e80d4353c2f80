-- ===== src/ChatStore/Calls.antt =====
-- The calls of each thread and the banner of an ongoing one: loadCalls, markCallEnded, conversationOfCall,
-- applyCallParticipants, ongoingCallOf and the call frames of chat-store.service.ts.
pub mod Banner
use mathlib.Core.Option
use datha_platform.Base.{
  String, Bool, true, false, not, ◌&&◌, ◌||◌, ◌==◌, List, [], ◌∷◌, map, Option, none, some,
  if◌then◌else◌, is_none, any, find, filter, update, or_default,
}
use datha_platform.Messenger.Calls.{contains}

-- A CallRecord, as far as the store looks at it.
pub record CallRecord : Type 0 where
  pub id : String
  pub started_at : String
  pub ended_at : Option String
  pub joined_owner_ids : List String

-- An entry of `callHistory`, by conversation.
pub record History : Type 0 where
  pub conversation : String
  pub calls : List CallRecord

pub record CallState : Type 0 where
  pub call_history : List History
  pub ended_calls : List String
  -- `callConversations`, latest first
  pub call_conversations : List (String × String)

abbrev pub calls_of : String → CallState → List CallRecord
calls_of id s =
    or_default (Option.map (λ h. h.calls) (find (λ h. h.conversation == id) s.call_history)) []

abbrev pub is_call : Option String → String → Bool
is_call none id = false
is_call (some live) id = live == id

-- `!call.endedAt`
abbrev pub truthless : Option String → Bool
truthless none = true
truthless (some t) = t == ""

-- `live` is the call that this client is in.
unfoldable pub ongoing_call_of : Option String → String → CallState → Option CallRecord
ongoing_call_of live id s =
    find (λ c. truthless c.ended_at && not (is_call live c.id) && not (contains s.ended_calls c.id))
      (calls_of id s)

-- What `loadCalls` sets when the fetch answers.
unfoldable pub load_calls : String → List CallRecord → CallState → CallState
load_calls id calls s = record s {
  call_history =
      record { conversation = id; calls = calls }
      ∷ filter (λ h. not (h.conversation == id)) s.call_history;
}

unfoldable pub mark_call_ended : String → CallState → CallState
mark_call_ended call_id s =
    if contains s.ended_calls call_id then s else record s { ended_calls = call_id ∷ s.ended_calls }

abbrev pub conversation_of_ring : String → List (String × String) → Option String
conversation_of_ring call_id rings = Option.map (λ r. r.1) (find (λ r. r.0 == call_id) rings)

unfoldable pub conversation_of_call : String → CallState → Option String
conversation_of_call call_id s =
    elim (find (λ h. any (λ c. c.id == call_id) h.calls) s.call_history) [
      | none ↦ conversation_of_ring call_id s.call_conversations
      | some h ↦ some h.conversation
    ]

abbrev pub with_joined : String → List String → History → History
with_joined call_id joined h = record h {
  calls = update (λ c. c.id == call_id) (λ c. record c { joined_owner_ids = joined }) h.calls;
}

-- `applyCallParticipants` on the history; where no row has the call it changes nothing, and refetches.
unfoldable pub apply_call_participants : String → List String → CallState → CallState
apply_call_participants call_id joined s = record s {
  call_history = map (with_joined call_id joined) s.call_history;
}

-- The frame `call.incoming`.
unfoldable pub on_incoming : String → String → CallState → CallState
on_incoming id call_id s = if id == "" || call_id == "" then s else record s {
  call_conversations = (call_id, id) ∷ filter (λ r. not (r.0 == call_id)) s.call_conversations;
}

-- The frame `call.ended`, with the conversation that is refetched.
unfoldable pub on_ended : String → CallState → Option String × CallState
unfolding mark_call_ended conversation_of_call
on_ended call_id s = if call_id == "" then (none, s) else (
  conversation_of_call call_id s,
  record (mark_call_ended call_id s) {
    call_conversations = filter (λ r. not (r.0 == call_id)) s.call_conversations;
  },
)
