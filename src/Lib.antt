-- ===== src/Lib.antt =====
-- A verification library for the storage project: a worker that keeps immutable chunks in files,
-- and the client that uploads and downloads them.
--
-- The program. A chunk is uploaded as a stream (src/storage/worker/streams.h), hashed, written to a
-- temporary file and linked to its final name by FileChunkStore::Put; Head, Get and Delete work on
-- that name. FileChunkStore uses Status and StatusOr for errors, UniqueFd for descriptors, the
-- types of the data plane, the operating system and the BLAKE3 library. WorkerService is the worker's
-- end of the gRPC calls, GrpcDataPlaneClient the client's; StorageClient hashes a source before it
-- uploads it, and checks a download before it links it to its destination.
--
-- The files, and what they model:
--   Status        include/storage/common/status.h, status_or.h, src/common/status.cpp
--   Types         include/storage/storage/types/, src/storage/types/, worker/data_plane_types.h
--   UniqueFd      include/storage/common/unique_fd.h
--   Worker        src/storage/worker/file_chunk_store.cpp:
--     Calls       WriteAll, PreadSome
--     Names       ValidateId, PathFor, FinalizeHex, the temporary name
--     Header      MakeHeader and the fields that ReadHeader takes out of the array
--     Streams     ChunkInputStream, ChunkOutputStream
--     FileChunkStore/{Put, Head, Get, Delete}  the member functions of these names; Head has
--                 ReadHeader, Size and Exists too
--   Rpc           the layer around the store:
--     Codes       ToRpcStatusCode, SetStatus, ToGrpcStatus of src/rpc/services.cpp; FromRpcCode,
--                 FromRpcStatus, FromGrpcStatus of src/storage/client/data_plane_client.cpp
--     Streams     RpcInputStream, RpcOutputStream of src/rpc/services.cpp, over the gRPC reader
--                 and writer as parameters
--     DataPlane   src/storage/worker/data_plane_service.cpp over the interface of chunk_store.h
--     Service     the handlers of ControlPlaneService and WorkerService in src/rpc/services.cpp,
--                 and the classes of include/storage/rpc/services.h;
--                 Messages are the messages of proto/worker.proto that they answer with
--   Client        the client:
--     Reads       the read of HashFile and of PutChunk, which EINTR repeats
--     HashFile, Storage  src/storage/client/storage_client.cpp
--     DataPlane   the interface of include/storage/storage/client/data_plane_client.h, and what
--                 StorageClient relies on in it
--     Stub, Grpc  src/storage/client/data_plane_client.cpp over the stub that protoc generates,
--                 which is a parameter
--   Programs      src/common/config.cpp, src/common/logging.cpp, src/client/client_main.cpp,
--                 src/control/control_main.cpp and src/worker/worker_main.cpp, over CLI11, spdlog
--                 and the gRPC server as parameters
--   Wire          a client and a worker on one channel: what gRPC documents of client-streaming,
--                 server-streaming and unary calls, and transfers between the client's files and
--                 the worker's
--   Contract      what include/storage/storage/worker/chunk_store.h promises, as a map from ids to
--                 chunks, the files of a FileChunkStore as such a map, and sequences of calls of
--                 DataPlaneService
--   Posix, Blake3 the parameters: system calls and the hash. Posix.Documented and IsBlake3 state
--                 what the code relies on in them. IsWorking of Worker/FileChunkStore/Put/Working
--                 is a root that can be written to and holds regular files only, on a file system
--                 with limits on names and paths; IsReadable of Worker/FileChunkStore/Head/Filling
--                 is a system that reads the files that are there. A signal may still end a call.
--   Prelude       shared types and lemmas; Prelude/Action is the monad of stateful code
--   Tests         a system in memory and a channel between two of them, on which the code runs, and
--                 the examples
--
-- Stateful code is a function from the state of the operating system, paired with that of a
-- stream where there is one, to a result and the next state. `Ensures` is total correctness: the
-- action ends, and its result and state satisfy a relation.
--
-- Loops take fuel, and each theorem proves that it is enough. WriteAll has one round for each byte
-- and each signal still to come, PreadSome one for each signal: the parameter `signals` bounds
-- the calls that EINTR can end. Put's loop has `expected_size + 2` rounds, since a round takes a
-- byte at least; Get's has one for each byte of the range, ReadHeader's one for each of 80. The
-- client's loops over a file have one round for each byte left, its loop over the frames of a
-- download as many as `frames_left` of the stub allows: a call's deadline makes them finite.
--
-- Numbers are natural numbers. uint64_t arithmetic that can wrap has its `% 2 ^ 64` written out.
--
-- Not modelled: other processes and threads that change the files while a call runs, power failures
-- (fsync and fdatasync change no file here), two calls that reach one worker at the same time,
-- C++ exceptions but spdlog's (std::filesystem::exists of StorageClient::Get may throw), the
-- parsing of the command line and the gRPC server, which are libraries, and the code that protoc
-- generates.
pub mod Prelude
pub mod Status
pub mod Types
pub mod Posix
pub mod Blake3
pub mod UniqueFd
pub mod Worker
pub mod Rpc
pub mod Client
pub mod Programs
pub mod Wire
pub mod Contract
pub mod Tests
