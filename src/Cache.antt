-- ===== src/Cache.antt =====
-- The cache of OCI blobs (ociclient/cache).
pub mod Platform
pub mod Index
pub mod FileSystem
pub mod Layered
pub mod Memory
pub mod Options
