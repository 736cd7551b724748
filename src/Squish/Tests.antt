-- ===== src/Squish/Tests.antt =====
-- Runs of the model on concrete areas.
pub mod Sample
mod FreeChains
mod Indexes
mod Records
mod Access
mod Deletions
mod Messages
mod FirstWrite
mod Areas
mod Users
mod Creation
