-- ===== src/Examples.antt =====
-- The theorems at concrete inputs.
mod Fixtures
pub mod Chat
pub mod History
pub mod Groups
pub mod Listing
pub mod Friends
pub mod Members
pub mod Fanout
pub mod Connections
pub mod Tokens
pub mod Server
pub mod Frames
pub mod Overflow
pub mod Pumps
pub mod Races
pub mod Sends
