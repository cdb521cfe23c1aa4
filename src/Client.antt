-- ===== src/Client.antt =====
-- src/storage/client/: the transfers of a client, over the operating system and a gRPC stub.
pub mod Reads
pub mod HashFile
pub mod DataPlane
pub mod Storage
pub mod Stub
pub mod Grpc
