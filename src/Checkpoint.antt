-- ===== src/Checkpoint.antt =====
-- The checkpoint of the driver: internal/api/checkpoint/types.go, and `addClaimToCheckpoint`,
-- `removeClaimFromCheckpoint` and the test of `restoreClaimFromCheckpoint` in
-- cmd/dra-example-kubeletplugin/state.go. A nil and an empty slice are the same list.
pub mod V1
pub mod Claims
mod Defs
unfoldable pub use Defs.*
