-- ===== src/Dns.antt =====
-- The resolver of internal/dns: resolver groups and the choice among them.
pub mod Group
pub mod Select
pub mod Resolver
pub mod Resolve
pub mod Query
pub mod Discovery
pub mod Scutil
pub mod Resolved
