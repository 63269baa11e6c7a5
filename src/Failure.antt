-- ===== src/Failure.antt =====
-- Errors as values, panics, and the effects of a Go function on the world that it runs in.
mod Defs
pub mod Action
pub mod Triples
pub use Defs.*
