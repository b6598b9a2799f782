-- ===== src/Transport.antt =====
-- src/transport/tcp_transport.cpp.
pub mod Tcp
pub mod Sending
pub mod Chunks
mod Tests
