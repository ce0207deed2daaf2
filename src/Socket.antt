-- ===== src/Socket.antt =====
-- The byte streams of source/octf/socket: internal/unixsocket/Connection.cpp over the operating
-- system's sockets, and the packets of internal/Packetizer.cpp on top of it.
pub mod Connection
pub mod Packetizer
pub mod Header
pub mod Stream
pub mod Buffer
pub mod Delivery
pub mod Sending
mod Tests
