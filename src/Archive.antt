-- ===== src/Archive.antt =====
-- pkg/fileutils/tarxfer.go: the cache of build contexts, unpacked from the host's tar archives.
-- The tree below one directory is a map from paths to entries. A path is the list of its names, the
-- last name first, so that the parent of a path is its tail; the directory itself is the empty path.
pub mod Tree
pub mod Unpack
pub mod Cache
pub mod Transfer
mod Tests
