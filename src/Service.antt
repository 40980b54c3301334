-- ===== src/Service.antt =====
-- internal/service: what the handlers and the WebSocket dispatch call.
pub mod Chat
pub mod History
pub mod ConversationList
pub mod Group
pub mod Friend
pub mod Auth
pub mod Email
pub mod Search
pub mod User
pub mod Reads
pub mod Writes
