-- ===== src/Ws.antt =====
-- internal/ws: the connections of this instance.
pub mod Hub
pub mod Frame
pub mod Dispatch
pub mod Pumps
