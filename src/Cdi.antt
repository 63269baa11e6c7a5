-- ===== src/Cdi.antt =====
-- cmd/dra-example-kubeletplugin/cdi.go: the names of CDI devices, and the spec file of a claim.
pub mod Names
pub mod ClaimSpec
pub mod Cached
