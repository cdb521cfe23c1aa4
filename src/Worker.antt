-- ===== src/Worker.antt =====
-- src/storage/worker: the chunk store on a file system and the service in front of it.
pub mod Streams
pub mod Calls
pub mod Names
pub mod Header
pub mod FileChunkStore
