-- ===== src/ChatStore.antt =====
-- messenger-frontend/src/services/implementations/chat-store.service.ts: the client's chat state.
pub mod Holders
pub mod Threads
pub mod Recents
pub mod Calls
mod Tests
