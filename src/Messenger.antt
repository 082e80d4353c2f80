-- ===== src/Messenger.antt =====
-- messenger-service: its database rows, services, call consumer and routes.
pub mod Result
pub mod Rows
pub mod Wire
pub mod Calls
pub mod Envelope
pub mod CallsConsumer
pub mod Messages
pub mod Authz
pub mod Conversations
pub mod Inbox
pub mod Routes
mod Tests
