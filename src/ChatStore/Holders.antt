-- ===== src/ChatStore/Holders.antt =====
-- Which surfaces show which conversation, and the socket subscription that they share:
-- acquireThread, releaseThread and their callers in chat-store.service.ts.
pub mod Entries
pub mod Subscribed
pub mod Surfaces
use mathlib.Core.Option
use datha_platform.Base.{
  String, Bool, true, false, not, ◌&&◌, ◌||◌, ◌==◌, List, [], ◌∷◌, map, Option, none, some,
  if◌then◌else◌, filter, any, find, update,
}
use datha_platform.Messenger.Calls.{contains, is_empty}

-- An entry of `threadHolders`.
pub record Shown : Type 0 where
  pub conversation : String
  pub holders : List String

-- A frame that the store sends on the socket.
pub data SocketFrame : Type 0 where
  open_conversation close_conversation : String → SocketFrame

-- The state that these operations touch; no id is the empty text. The frames sent stand latest first.
pub record View : Type 0 where
  pub thread_holders : List Shown
  pub active_id : Option String
  pub draft_peer : Option String
  pub sent : List SocketFrame

abbrev pub page_holder : String
page_holder = "page"

abbrev pub is_shown : String → Shown → Bool
is_shown id e = e.conversation == id

-- `holders.add(holder)` and `holders.delete(holder)` on a set.
abbrev pub add : String → List String → List String
add holder holders = if contains holders holder then holders else holder ∷ holders

abbrev pub delete : String → List String → List String
delete holder holders = filter (λ h. not (h == holder)) holders

-- What `acquireThread` does where the conversation has holders, and where it has none.
abbrev pub acquire_found : String → String → View → Option Shown → View
acquire_found id holder v none = record v {
  thread_holders = record { conversation = id; holders = holder ∷ [] } ∷ v.thread_holders;
  sent = open_conversation id ∷ v.sent;
}
acquire_found id holder v (some e) = record v {
  thread_holders =
      update (is_shown id) (λ x. record x { holders = add holder e.holders }) v.thread_holders;
}

unfoldable pub acquire_thread : String → String → View → View
acquire_thread id holder v = acquire_found id holder v (find (is_shown id) v.thread_holders)

-- What `releaseThread` does with the holders that are left.
abbrev pub let_go : String → List String → View → View
let_go id [] v = record v {
  thread_holders = filter (λ e. not (is_shown id e)) v.thread_holders;
  sent = close_conversation id ∷ v.sent;
}
let_go id (h ∷ hs) v = record v {
  thread_holders = update (is_shown id) (λ e. record e { holders = h ∷ hs }) v.thread_holders;
}

abbrev pub release_found : String → String → View → Option Shown → View
release_found id holder v none = v
release_found id holder v (some e) = let_go id (delete holder e.holders) v

unfoldable pub release_thread : String → String → View → View
release_thread id holder v = release_found id holder v (find (is_shown id) v.thread_holders)

-- The first step of `openThread`; the fetches that follow do not touch this state.
unfoldable pub open_thread : String → String → View → View
unfolding acquire_thread
open_thread id holder v = acquire_thread id holder v

unfoldable pub close_thread : String → String → View → View
unfolding release_thread
close_thread id holder v = release_thread id holder v

abbrev pub release_page : Option String → View → View
release_page none v = v
release_page (some id) v = release_thread id page_holder v

-- The release of the previous thread, unless it is the one that is opened.
abbrev pub release_previous : String → Option String → View → View
release_previous id none v = v
release_previous id (some previous) v =
    if previous == id then v else release_thread previous page_holder v

unfoldable pub open_conversation_page : String → View → View
unfolding open_thread release_thread
open_conversation_page id v =
    open_thread id page_holder (record (release_previous id v.active_id v) { active_id = some id })

unfoldable pub close_active_conversation : View → View
unfolding release_thread
close_active_conversation v = record (release_page v.active_id v) {
  active_id = none;
  draft_peer = none;
}

unfoldable pub open_draft : String → View → View
unfolding release_thread
open_draft peer v = record (release_page v.active_id v) { active_id = none; draft_peer = some peer }
