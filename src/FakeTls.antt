-- ===== src/FakeTls.antt =====
-- internal/faketls: the TLS disguise. Records, ClientHello and ServerHello, replay protection.
pub mod Random
pub mod Policy
pub mod Record
pub mod Hello
pub mod Digest
pub mod Rotator
pub mod Pool
pub mod ServerHello
pub mod HelloPolicy
pub mod Fronting
pub mod Fingerprint
