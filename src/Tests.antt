-- ===== src/Tests.antt =====
-- Runs of the models on concrete inputs, and the theorems applied there.
mod Proxy
mod Dns
mod Resolve
mod Query
mod Upstream
mod Config
mod Profiles
mod Files
mod Hosts
mod Trust
mod Discovery
