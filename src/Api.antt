-- ===== src/Api.antt =====
-- The REST API over the database: server/src/modules.
pub mod Rows
pub mod Investors
pub mod Campaigns
pub mod Detail
pub mod Tests
