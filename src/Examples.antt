-- ===== src/Examples.antt =====
-- The theorems at concrete inputs.
mod FakeTls
mod Relay
mod Server
mod MiddleProxy
mod Rotators
mod Config
mod Proxy
mod Admin
