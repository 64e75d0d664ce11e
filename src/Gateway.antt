-- ===== src/Gateway.antt =====
-- The WebSocket gateway: server/src/websocket.
pub mod Token
pub mod Handshake
pub mod Rooms
pub mod Io
pub mod Sockets
pub mod Membership
pub mod Guarded
pub mod Private
pub mod Sample
pub mod Tests
pub mod Delivery
pub mod Origin
