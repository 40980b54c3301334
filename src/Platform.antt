-- ===== src/Platform.antt =====
-- What the server runs on: MySQL behind gorm, Redis, the clock, random ids and JSON texts.
--
-- A call of the outside is numbered by `calls`. Whether a statement or a command fails is a function
-- of that number, and so are the clock's readings and the random ids: a parameter of the model, so a
-- theorem holds for every schedule of failures. A statement that does not fail has the effect that
-- SQL gives it on the rows; one that fails has none.
mod Defs
pub mod Sql
pub mod Redis
pub mod Effects
pub mod Inversion
pub mod Reliable
unfoldable pub use Defs.*
pub mod After
