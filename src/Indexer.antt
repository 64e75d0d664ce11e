-- ===== src/Indexer.antt =====
-- The Soroban event indexer: server/src/indexer.
pub mod Types
pub mod Decode
pub mod Build
pub mod Escrow
pub mod Registry
pub mod Parse
pub mod Handlers
pub mod Persist
pub mod Process
pub mod Listener
pub mod Tests
pub mod PollTests
pub mod FloodTests
pub mod PersistTests
pub mod ResumeTests
