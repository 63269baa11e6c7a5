-- ===== src/State.antt =====
-- `DeviceState` of cmd/dra-example-kubeletplugin/state.go: preparing and unpreparing a claim.
mod Defs
pub mod Publish
pub mod Steps
pub mod Directories
pub mod Prepare
pub mod Idempotent
pub mod Removed
pub mod Shared
pub mod Unprepare
pub mod Total
pub mod Unreadable
pub mod Unsynced
pub mod Resolved
pub mod Returns
pub mod Duplicates
pub mod Unallocated
pub mod RoundTrip
unfoldable pub use Defs.*
