-- ===== src/Messenger/Routes/Threads.antt =====
-- messenger-service/src/routes/messages.ts and services/attachments.ts: the handlers of a thread.
use mathlib.Core.Option
use datha_platform.Base.{
  ℕ, String, not, ◌==◌, List, [], ◌∷◌, map, Option, none, some, if◌then◌else◌, is_none, is_some,
  filter,
}
use datha_platform.Base.Iso.{IsoDate}
use datha_platform.Messenger.Result.{Result, ok, err}
use datha_platform.Messenger.Rows.{MessageKind, text, attachment, MessageRow, Db}
use datha_platform.Messenger.Wire.{Message, to_message}
use datha_platform.Messenger.Messages.{
  SendMessageInput, SendMessageResult, send_message, ListMessagesResult, list_messages, get_message,
}
use datha_platform.Messenger.Authz.{AuthzAction, ConversationFacts, authorize_conversation}
use datha_platform.Messenger.Routes.{RealtimeFrame, EventPayload, Handled, refuse, answer, Config}

-- A body that `sendBodySchema` lets through.
pub record SendBody : Type 0 where
  pub client_message_id : String
  pub body : String
  pub attachment_file_id : Option String
  pub thumbnail_file_id : Option String
  pub media_width : Option ℕ
  pub media_height : Option ℕ

-- `auth.facts?.participants ?? []`
abbrev pub participants_of : Option ConversationFacts → List String
participants_of none = []
participants_of (some facts) = facts.participants

abbrev pub others_of : String → List String → List String
others_of owner_id = filter (λ id. not (id == owner_id))

-- `body.data.attachment_file_id ? "attachment" : "text"`; the schema wants a nonempty id.
abbrev pub kind_of : SendBody → MessageKind
kind_of body = if is_some body.attachment_file_id then attachment else text

abbrev pub send_input : String → String → SendBody → SendMessageInput
send_input id owner_id body = record {
  conversation_id = id;
  sender_owner_id = owner_id;
  client_message_id = body.client_message_id;
  kind = kind_of body;
  body = body.body;
  attachment_file_id = body.attachment_file_id;
  thumbnail_file_id = body.thumbnail_file_id;
  media_width = body.media_width;
  media_height = body.media_height;
}

-- What follows a send that returned: the event and the two fanouts only for a new message.
unfoldable pub on_sent :
    IsoDate → String → String → List String → SendMessageResult → Db → Handled Message
on_sent iso id owner_id participants result db =
    let message = to_message iso result.message in
    if result.created
    then record {
      status = 201;
      body = some message;
      db = db;
      recorded =
          record {
            entity_id = result.message.id;
            owner_id = owner_id;
            payload =
                EventPayload.message_sent id result.message.id result.message.kind
                  result.message.attachment_file_id participants;
          }
          ∷ [];
      announced =
          record { owner_ids = participants; frame = RealtimeFrame.message_new id message }
          ∷ record {
            owner_ids = others_of owner_id participants;
            frame = RealtimeFrame.unread_added id;
          }
          ∷ [];
    }
    else answer 200 message db

-- What follows `sendMessage`.
unfoldable pub on_send :
    IsoDate → String → String → List String → Db → Result (SendMessageResult × Db) → Handled Message
unfolding on_sent
on_send iso id owner_id participants db (ok (result, db')) =
    on_sent iso id owner_id participants result db'
on_send iso id owner_id participants db (err e) = refuse 500 db

-- POST /conversations/:id/messages
unfoldable pub post_message :
    IsoDate → Config → String → ℕ → String → Option String → Option SendBody → Db → Handled Message
unfolding on_send
post_message iso config uuid now owner_id none body db = refuse 400 db
post_message iso config uuid now owner_id (some id) none db = refuse 400 db
post_message iso config uuid now owner_id (some id) (some body) db =
    let auth =
      authorize_conversation db id owner_id config.default_tenant_id AuthzAction.message_send in
    if not auth.allowed
    then refuse 404 db
    else on_send iso id owner_id (participants_of auth.facts) db
        (send_message uuid now (send_input id owner_id body) db)

-- The data and the cursor of a page.
abbrev page_of : IsoDate → ListMessagesResult → List Message × Option String
page_of iso result = (map (to_message iso) result.messages, result.next_cursor)

abbrev on_page_read :
    {A : Type 0}
    → Db
    → (A → List Message × Option String)
    → Result A
    → Handled (List Message × Option String)
on_page_read db f (ok r) = answer 200 (f r) db
on_page_read db f (err e) = refuse 500 db

-- GET /conversations/:id/messages; the query is its limit and its cursor.
unfoldable pub get_messages :
    IsoDate
    → Config
    → String
    → Option String
    → Option (ℕ × Option String)
    → Db
    → Handled (List Message × Option String)
get_messages iso config owner_id none query db = refuse 400 db
get_messages iso config owner_id (some id) none db = refuse 400 db
get_messages iso config owner_id (some id) (some (limit, before)) db =
    let auth =
      authorize_conversation db id owner_id config.default_tenant_id AuthzAction.message_read in
    if not auth.allowed
    then refuse 404 db
    else on_page_read db (page_of iso) (list_messages iso id limit before db)

-- services/attachments.ts
pub record AttachmentTarget : Type 0 where
  pub file_id : String
  pub owner_id : String
  pub name : String
  pub thumbnail_file_id : Option String
  pub width : Option ℕ
  pub height : Option ℕ

pub record DownloadGrant : Type 0 where
  pub url : String
  pub expires_at : String

-- How `downloadUrl` of the file-service client ends.
pub data Granted : Type 0 where
  granted : DownloadGrant → Granted
  not_found unavailable : Granted

abbrev target_of : MessageRow → Option AttachmentTarget
target_of m =
    Option.map
      (λ file. record {
        file_id = file;
        owner_id = m.sender_owner_id;
        name = m.body;
        thumbnail_file_id = m.thumbnail_file_id;
        width = m.media_width;
        height = m.media_height;
      })
      m.attachment_file_id

-- `resolveAttachment`; `none` is AttachmentNotFound.
unfoldable pub resolve_attachment : Db → String → String → Option AttachmentTarget
resolve_attachment db id message_id = elim (get_message id message_id db) [
  | none ↦ none
  | some m ↦ if is_none m.deleted_at then target_of m else none
]

pub record AttachmentGrant : Type 0 where
  pub name : String
  pub download_url : String
  pub expires_at : String
  pub thumbnail_url : Option String
  pub width : Option ℕ
  pub height : Option ℕ

abbrev url_or_null : Granted → Option String
url_or_null (granted g) = some g.url
url_or_null _ = none

abbrev thumbnail_of : (String → String → Granted) → AttachmentTarget → Option String
thumbnail_of files t = elim t.thumbnail_file_id [
  | none ↦ none
  | some file ↦ url_or_null (files file t.owner_id)
]

unfoldable pub on_grant :
    (String → String → Granted) → AttachmentTarget → Db → Granted → Handled AttachmentGrant
on_grant files t db (granted g) =
    answer 200
      (record {
        name = t.name;
        download_url = g.url;
        expires_at = g.expires_at;
        thumbnail_url = thumbnail_of files t;
        width = t.width;
        height = t.height;
      })
      db
on_grant files t db not_found = refuse 404 db
on_grant files t db unavailable = refuse 502 db

-- GET /conversations/:id/messages/:messageId/attachment; `files` is the file-service client, which is
-- asked for a file in the name of its uploader.
unfoldable pub get_attachment :
    Config
    → (String → String → Granted)
    → String
    → Option (String × String)
    → Db
    → Handled AttachmentGrant
unfolding resolve_attachment on_grant
get_attachment config files owner_id none db = refuse 400 db
get_attachment config files owner_id (some (id, message_id)) db =
    let auth =
      authorize_conversation db id owner_id config.default_tenant_id AuthzAction.message_read in
    if not auth.allowed then refuse 404 db else elim (resolve_attachment db id message_id) [
      | none ↦ refuse 404 db
      | some t ↦ on_grant files t db (files t.file_id t.owner_id)
    ]
