-- ===== src/Proxy.antt =====
-- internal/proxy: the server. Addresses, errors, the choice of a backend and the handlers of a
-- connection.
pub mod Address
pub mod ProxyProtocol
pub mod Errors
pub mod Backend
pub mod State
pub mod Attempt
pub mod Handler
pub mod Accept
