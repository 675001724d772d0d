-- ===== src/Relay.antt =====
-- internal/relay: the encrypted tunnel between the Front and the Back server.
pub mod Handshake
pub mod Frame
