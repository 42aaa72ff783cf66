-- ===== src/Wire.antt =====
-- What the crates take from outside to put values into bytes and to get them back, the errors, and
-- the frames that go over a connection.
mod Defs
pub mod Frame
pub mod LittleEndian
mod Tests
pub use Defs.*
