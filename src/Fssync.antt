-- ===== src/Fssync.antt =====
-- pkg/fssync: the file system that BuildKit walks and reads, over the host's files.
pub mod Walk
pub mod Context
pub mod Sender
mod Tests
