-- ===== src/Dao.antt =====
-- internal/dao: the queries and updates of the tables, with their caches. `useDB` of message.go picks
-- the transaction or the connection: one action either way, as a statement runs inside the
-- transaction that is open.
pub mod Quiet
pub mod Peer
pub mod Conversation
pub mod State
pub mod Group
pub mod Message
pub mod User
pub mod Friend
pub mod Pair
