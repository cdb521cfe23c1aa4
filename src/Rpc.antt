-- ===== src/Rpc.antt =====
-- src/rpc/services.cpp, src/storage/worker/data_plane_service.cpp, and the translation of status
-- codes in src/storage/client/data_plane_client.cpp.
pub mod Codes
pub mod Messages
pub mod Streams
pub mod DataPlane
pub mod Service
