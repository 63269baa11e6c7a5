-- ===== src/Tests.antt =====
-- Tests, and the theorems applied to concrete inputs.
pub mod Setup
pub mod Runs
mod Calls
mod Trees
mod Aftermath
mod Plugin
mod Histories
mod Specs
mod Names
mod Configs
mod Directories
mod Start
