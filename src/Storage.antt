-- ===== src/Storage.antt =====
-- storage/: the storage engine.
pub mod Codec
pub mod Names
pub mod Disk
pub mod Exec
pub mod Bitcask
pub mod Compaction
pub mod Api
pub mod Recovery
pub mod History
