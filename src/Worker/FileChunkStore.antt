-- ===== src/Worker/FileChunkStore.antt =====
-- class FileChunkStore of src/storage/worker/file_chunk_store.cpp: Put, Head and Get, Delete.
pub mod Put
pub mod Head
pub mod Get
pub mod Delete
pub mod RoundTrip
