-- ===== src/Client/Rest.antt =====
-- The client of the REST API: client/src/lib/api.
pub mod Types
pub mod Local
pub mod Uri
pub mod Http
pub mod Calls
pub mod Paths
pub mod Rejections
pub mod Served
pub mod Tests
