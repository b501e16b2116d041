-- ===== src/Wss.antt =====
-- Package wss: the transforms between WebSocket packets and messages.
pub mod SocketIo
pub mod Conn
