-- ===== src/ChatStore/Threads.antt =====
-- The messages of the open threads: setThread, appendToThread, replaceByClientId, updateInThread and the
-- sends of chat-store.service.ts.
pub mod Pages
pub mod Sends
use datha_platform.Base.{
  ℕ, String, Bool, true, false, not, ◌&&◌, ◌||◌, ◌==◌, List, [], ◌∷◌, ◌++◌, map, Option, none, some,
  if◌then◌else◌, ltb, filter, any, sort_by, or_default,
}
use datha_platform.Base.Iso.{IsoDate}
use datha_platform.Messenger.Calls.{contains, is_empty}
use datha_platform.Base.Texts.{concat}
use datha_platform.Messenger.Rows.{MessageKind}

-- A ThreadMessage: a confirmed one is neither pending nor failed.
pub record ThreadMessage : Type 0 where
  pub id : String
  pub conversation_id : String
  pub sender_owner_id : String
  pub kind : MessageKind
  pub body : String
  pub attachment_file_id : Option String
  pub client_message_id : String
  pub created_at : String
  pub edited_at : Option String
  pub pending : Bool
  pub failed : Bool

-- The map `threads`.
abbrev pub ThreadMap : Type 0
ThreadMap = String → Option (List ThreadMessage)

abbrev pub set : String → List ThreadMessage → ThreadMap → ThreadMap
set id messages threads = λ j. if id == j then some messages else threads j

-- `Date.parse(a) - Date.parse(b)` of a sort: NaN counts as a tie.
abbrev pub is_later : Option ℕ → Option ℕ → Bool
is_later (some t) (some u) = ltb u t
is_later _ _ = false

abbrev pub by_time : IsoDate → ThreadMessage → ThreadMessage → Bool
by_time iso a b = not (is_later (iso.parse a.created_at) (iso.parse b.created_at))

-- A row that the fetched page has, by its id or its client id.
abbrev pub is_fetched : List ThreadMessage → ThreadMessage → Bool
is_fetched messages m =
    contains (map (λ f. f.id) messages) m.id
    || contains (map (λ f. f.client_message_id) messages) m.client_message_id

abbrev pub merge_local : IsoDate → List ThreadMessage → List ThreadMessage → List ThreadMessage
merge_local iso messages [] = messages
merge_local iso messages (m ∷ kept) = sort_by (by_time iso) (messages ++ m ∷ kept)

unfoldable pub set_thread : IsoDate → String → List ThreadMessage → ThreadMap → ThreadMap
set_thread iso id messages threads =
    let kept = filter (λ m. not (is_fetched messages m)) (or_default (threads id) []) in
    set id (merge_local iso messages kept) threads

abbrev pub reconcile : String → ThreadMessage → ThreadMessage → ThreadMessage
reconcile client_message_id saved m =
    if m.client_message_id == client_message_id && m.sender_owner_id == saved.sender_owner_id
    then saved
    else m

abbrev pub set_mapped :
    IsoDate
    → String
    → (ThreadMessage → ThreadMessage)
    → Option (List ThreadMessage)
    → ThreadMap
    → ThreadMap
set_mapped iso id f none threads = threads
set_mapped iso id f (some existing) threads = set_thread iso id (map f existing) threads

unfoldable pub replace_by_client_id :
    IsoDate → String → String → ThreadMessage → ThreadMap → ThreadMap
unfolding set_thread
replace_by_client_id iso id client_message_id saved threads =
    set_mapped iso id (reconcile client_message_id saved) (threads id) threads

-- `updateInThread` with the patch `{ pending, failed }`.
unfoldable pub update_in_thread : IsoDate → String → String → Bool → Bool → ThreadMap → ThreadMap
unfolding set_thread
update_in_thread iso id client_message_id pending failed threads =
    set_mapped iso id
      (λ m.
        if m.client_message_id == client_message_id
        then record m { pending = pending; failed = failed }
        else m)
      (threads id) threads

unfoldable pub mark_send_failed : IsoDate → String → String → ThreadMap → ThreadMap
unfolding update_in_thread
mark_send_failed iso id client_message_id threads =
    update_in_thread iso id client_message_id true true threads

abbrev pub is_open_in : String → Option String → Bool
is_open_in id none = false
is_open_in id (some active) = active == id

-- `existing`, or an empty thread where the message is kept.
abbrev pub existing_or : Bool → Option (List ThreadMessage) → Option (List ThreadMessage)
existing_or keep (some existing) = some existing
existing_or true none = some []
existing_or false none = none

abbrev pub is_same : ThreadMessage → ThreadMessage → Bool
is_same message candidate =
    candidate.id == message.id
    || not (message.client_message_id == "")
      && candidate.client_message_id == message.client_message_id
      && candidate.sender_owner_id == message.sender_owner_id

abbrev pub append_to :
    IsoDate → String → ThreadMessage → Option (List ThreadMessage) → ThreadMap → ThreadMap
append_to iso id message none threads = threads
append_to iso id message (some existing) threads =
    if any (is_same message) existing
    then replace_by_client_id iso id message.client_message_id message threads
    else set_thread iso id (existing ++ message ∷ []) threads

unfoldable pub append_to_thread :
    IsoDate → Option String → String → ThreadMessage → Bool → ThreadMap → ThreadMap
unfolding replace_by_client_id set_thread
append_to_thread iso active id message local threads =
    append_to iso id message (existing_or (local || is_open_in id active) (threads id)) threads

-- The row that `sendMessage` shows at once.
abbrev pub optimistic : String → String → String → String → String → ThreadMessage
optimistic owner_id id text client_message_id now = record {
  id = concat "pending:" client_message_id;
  conversation_id = id;
  sender_owner_id = owner_id;
  kind = MessageKind.text;
  body = text;
  attachment_file_id = none;
  client_message_id = client_message_id;
  created_at = now;
  edited_at = none;
  pending = true;
  failed = false;
}

-- `sendMessage` up to its request. `body` is trimmed.
unfoldable pub begin_send :
    IsoDate → Option String → String → String → String → String → String → ThreadMap → ThreadMap
unfolding append_to_thread concat
begin_send iso active owner_id id body client_message_id now threads =
    if body == ""
    then threads
    else append_to_thread iso active id (optimistic owner_id id body client_message_id now) true
        threads

-- What follows the request: the saved message, or `none` where it failed.
unfoldable pub finish_send :
    IsoDate → String → String → Option ThreadMessage → ThreadMap → ThreadMap
unfolding replace_by_client_id mark_send_failed
finish_send iso id client_message_id (some saved) threads =
    replace_by_client_id iso id client_message_id saved threads
finish_send iso id client_message_id none threads =
    mark_send_failed iso id client_message_id threads

-- `retryMessage` of a text, up to its request.
unfoldable pub begin_retry : IsoDate → String → String → ThreadMap → ThreadMap
unfolding update_in_thread
begin_retry iso id client_message_id threads =
    if any (λ m. m.client_message_id == client_message_id) (or_default (threads id) [])
    then update_in_thread iso id client_message_id true false threads
    else threads
