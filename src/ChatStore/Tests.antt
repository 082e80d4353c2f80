-- ===== src/ChatStore/Tests.antt =====
-- A client that opens two threads, and a message that it sends.
use datha_platform.Base.{
  String, true, false, List, [], ◌∷◌, none, some, any, find, filter, if◌then◌else◌, ◌==◌, ◌≡◌, refl,
  All,
}
use datha_platform.Base.Iso.{sample_iso}
use datha_platform.Base.Texts.{concat}
use datha_platform.Messenger.Rows.{MessageKind, ConversationType}
use datha_platform.ChatStore.Calls.{
  CallRecord, CallState, load_calls, mark_call_ended, on_ended, ongoing_call_of,
}
use datha_platform.ChatStore.Calls.Banner.{fetches, now, later, ongoing_call_of-on_ended}
use datha_platform.ChatStore.Holders.{
  View, open_thread, close_active_conversation, open_conversation_page,
}
use datha_platform.ChatStore.Holders.Subscribed.{is_subscribed}
use datha_platform.ChatStore.Holders.Surfaces.{
  IsShowing, stays, acts, opens, docks, closes, Runs-IsShowing,
}
use datha_platform.ChatStore.Threads.{
  ThreadMessage, ThreadMap, append_to_thread, begin_send, finish_send, begin_retry,
}
use datha_platform.ChatStore.Recents.{Conversation, load_conversations, touch_conversation}
use datha_platform.ChatStore.Recents.Reading.{
  IsRead, loads, messages, follows, ends, Session-IsRead,
}
use datha_platform.ChatStore.Threads.Sends.{IsFresh, begin_send-once}

abbrev started : View
started = record { thread_holders = []; active_id = none; draft_peer = none; sent = [] }

started-IsShowing : IsShowing started
unfolding find any is_subscribed
started-IsShowing = record {
  subscribed = record { full = λ j. refl; synced = λ j. refl };
  page = λ j. refl;
}

-- The page and a dock show c1, and the page closes it.
abbrev docked : View
docked = open_thread "c1" "dock:c1" (open_conversation_page "c1" started)

Runs-IsShowing_example : IsShowing (close_active_conversation docked)
Runs-IsShowing_example =
    Runs-IsShowing started (close_active_conversation docked)
      (acts started (open_conversation_page "c1" started) (close_active_conversation docked)
        (opens "c1" started)
        (acts (open_conversation_page "c1" started) docked (close_active_conversation docked)
          (docks "c1" "dock:c1" (open_conversation_page "c1" started) refl)
          (acts docked (close_active_conversation docked) (close_active_conversation docked)
            (closes docked) (stays (close_active_conversation docked)))))
      started-IsShowing

abbrev message : String → String → String → ThreadMessage
message id client_message_id at = record {
  id = id;
  conversation_id = "c1";
  sender_owner_id = "a1";
  kind = MessageKind.text;
  body = "hello";
  attachment_file_id = none;
  client_message_id = client_message_id;
  created_at = at;
  edited_at = none;
  pending = false;
  failed = false;
}

abbrev loaded : ThreadMap
loaded = λ j. if "c1" == j then some (message "m1" "k1" "T" ∷ []) else none

fresh : IsFresh "k2" (message "m2" "k2" "TT") (message "m1" "k1" "T")
unfolding concat
fresh = record { client = refl; pending_id = refl; saved_id = refl }

begin_send-once_example :
    let saved = message "m2" "k2" "TT" in
    let begun = begin_send sample_iso (some "c1") "a1" "c1" "hello" "k2" "TT" loaded in
    let shown = some (message "m1" "k1" "T" ∷ saved ∷ []) in
    (append_to_thread sample_iso
        (some "c1")
        "c1"
        saved
        false
        (finish_send sample_iso "c1" "k2" (some saved) begun)
        "c1"
      ≡ shown)
    × (finish_send sample_iso "c1" "k2"
          (some saved)
          (append_to_thread sample_iso (some "c1") "c1" saved false begun)
          "c1"
        ≡ shown)
    × (finish_send sample_iso "c1" "k2"
          (some saved)
          (begin_retry sample_iso "c1" "k2" (finish_send sample_iso "c1" "k2" none begun))
          "c1"
        ≡ shown)
    × (finish_send sample_iso "c1" "k2"
          (some saved)
          (begin_retry sample_iso "c1" "k2" (
            append_to_thread sample_iso
              (some "c1")
              "c1"
              saved
              false
              (finish_send sample_iso "c1" "k2" none begun)))
          "c1"
        ≡ shown)
begin_send-once_example =
    begin_send-once sample_iso (some "c1") "c1" "k2" "a1" "hello" "TT" (message "m2" "k2" "TT")
      (message "m1" "k1" "T" ∷ []) loaded refl (fresh, tt) refl refl refl refl

abbrev conversation : Conversation
conversation = record {
  id = "c1";
  tenant_id = "t1";
  type = ConversationType.direct;
  title = none;
  created_by = "a1";
  created_at = "T";
  last_message_at = none;
  last_activity_at = "T";
  participants = [];
  last_message = none;
  last_call = none;
  unread = true;
}

-- A refetch says that the open thread is unread, and a message arrives.
abbrev fetched : List Conversation
fetched = load_conversations sample_iso (some "c1") (conversation ∷ [])

abbrev arrived : List Conversation
arrived = touch_conversation sample_iso (some "c1") "b2" "c1" (message "m2" "k2" "TT") fetched

Session-IsRead_example : All (IsRead (some "c1")) arrived
Session-IsRead_example =
    Session-IsRead sample_iso (some "c1") "b2" [] arrived
      (follows [] fetched arrived (loads [] (conversation ∷ [])) (
        follows fetched arrived arrived (messages fetched "c1" (message "m2" "k2" "TT"))
          (ends arrived)))
      tt

abbrev rung : CallRecord
rung = record { id = "k1"; started_at = "T"; ended_at = none; joined_owner_ids = "a1" ∷ [] }

abbrev quiet : CallState
quiet = record { call_history = []; ended_calls = []; call_conversations = [] }

-- The call k1 has ended, and a fetch that is behind still has it open, with another call.
abbrev behind : CallState
behind = load_calls "c1" (rung ∷ record rung { id = "k2" } ∷ []) (on_ended "k1" quiet).1

offers_k2 : ongoing_call_of none "c1" behind ≡ some (record rung { id = "k2" })
unfolding ongoing_call_of load_calls on_ended mark_call_ended any find filter
offers_k2 = refl

ongoing_call_of-on_ended_example : ("k2" == "k1") ≡ false
ongoing_call_of-on_ended_example =
    ongoing_call_of-on_ended "k1" quiet behind none "c1" (record rung { id = "k2" }) refl
      (later (on_ended "k1" quiet).1 behind behind
        (fetches "c1" (rung ∷ record rung { id = "k2" } ∷ []) (on_ended "k1" quiet).1) (now behind))
      offers_k2
