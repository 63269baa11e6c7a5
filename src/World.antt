-- ===== src/World.antt =====
-- The world that a call of the driver runs in, the code outside the repository that it calls, and the
-- operations of the operating system.
mod Defs
pub mod Files
pub mod Keeps
unfoldable pub use Defs.*
