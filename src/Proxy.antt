-- ===== src/Proxy.antt =====
-- The daemon of internal/proxy: the server's state, and the destinations that it dials.
pub mod Category
pub mod Server
pub mod Upstream
