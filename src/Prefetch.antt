-- ===== src/Prefetch.antt =====
-- pkg/prefetch: the chunk cache, and the reader on top of it.
pub mod Cache
pub mod Reader
pub mod Lifecycle
mod Tests
