-- ===== src/WebSocket.antt =====
-- The WebSocket layer: src/websocket and include/cornet/websocket.
pub mod Protocol
pub mod Frame
pub mod Mask
pub mod Base64
pub mod Sha1
pub mod Handshake
