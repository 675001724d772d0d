-- ===== src/MiddleProxy.antt =====
-- internal/middleproxy: the RPC protocol with Telegram's middle proxies.
pub mod Frame
pub mod Intermediate
pub mod Rpc
pub mod Keys
