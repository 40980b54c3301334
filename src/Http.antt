-- ===== src/Http.antt =====
-- internal/handler, internal/middleware and internal/router: requests over HTTP.
pub mod Response
pub mod Auth
pub mod Conversation
pub mod Friend
pub mod Router
pub mod Inversion
pub mod Rows
pub mod Refusals
pub mod Access
pub mod Lockout
pub mod Register
