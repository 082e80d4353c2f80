-- ===== src/Messenger/Routes.antt =====
-- messenger-service/src/routes: what a handler answers, records and announces. A body, a query or
-- the params that `safeParse` refuses are `none`; a thrown error is answered by `failed`.
pub mod Threads
pub mod Chats
pub mod History
pub mod Hidden
pub mod Replays
pub mod Rereads
pub mod Groups
use datha_platform.Base.{ℕ, String, Bool, List, [], ◌∷◌, Option, none, some}
use datha_platform.Messenger.Rows.{ConversationType, MessageKind, Db}
use datha_platform.Messenger.Wire.{Message}

-- The frames that the handlers pass to `announce`.
pub data RealtimeFrame : Type 0 where
  conversation_created : String → RealtimeFrame
  message_new : String → Message → RealtimeFrame
  unread_added : String → RealtimeFrame
  unread_cleared : String → RealtimeFrame
  receipt_read : String → String → String → RealtimeFrame

-- One call of `announce`: the owners it fans out to, and the frame.
pub record Announcement : Type 0 where
  pub owner_ids : List String
  pub frame : RealtimeFrame

-- The payload of an event that a handler records.
pub data EventPayload : Type 0 where
  conversation_made : String → ConversationType → List String → EventPayload
  message_sent : String → String → MessageKind → Option String → List String → EventPayload

-- One call of `recordEvent`.
pub record PublishEventInput : Type 0 where
  pub entity_id : String
  pub owner_id : String
  pub payload : EventPayload

-- What a handler leaves behind: the reply's status and data, the database, the events recorded and
-- the frames announced, in order. `recordEvent` and `announce` never throw.
pub record Handled {ℓ} (A : Type ℓ) : Type ℓ where
  pub status : ℕ
  pub body : Option A
  pub db : Db
  pub recorded : List PublishEventInput
  pub announced : List Announcement

-- A reply that carries no data and has no effect: an error.
abbrev pub refuse {ℓ} : {A : Type ℓ} → ℕ → Db → Handled A
refuse status db = record { status = status; body = none; db = db; recorded = []; announced = [] }

-- A reply with data that announces nothing.
abbrev pub answer {ℓ} : {A : Type ℓ} → ℕ → A → Db → Handled A
answer status body db = record {
  status = status;
  body = some body;
  db = db;
  recorded = [];
  announced = [];
}

-- The values of config.ts that the handlers read.
pub record Config : Type 0 where
  pub default_tenant_id : String
  pub max_group_participants : ℕ
  pub calls_page_size : ℕ
