-- ===== src/Websocket.antt =====
-- The WebSocket connections of the clients (websocket/hub.go).
pub mod Hub
mod Tests
