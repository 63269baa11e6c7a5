-- ===== src/Profile.antt =====
-- Device profiles: the interfaces of internal/profiles and the network profile.
mod Handler
pub mod Network
pub use Handler.*
