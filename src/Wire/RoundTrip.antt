-- ===== src/Wire/RoundTrip.antt =====
-- What the client has put, a download gets.
use distributed_cache_system.Prelude.{
  ℕ, ◌<◌, ◌≡◌, sym, ◌∙◌, true, some, List, length, take_of_length_le, drop-append_left, drop, arith,
}
use mathlib.Core.Option.{some-injective}
use distributed_cache_system.Prelude.Action.{Ensures, Ensures_mono, Ensures-of}
use distributed_cache_system.Status.{Status, is_ok}
use distributed_cache_system.Types.{u64, ObjectId, GetChunkRequest, WorkerEndpoint}
use distributed_cache_system.Posix.{FilePath, Fs, Posix}
use distributed_cache_system.Posix.Documented.{IsDocumented}
use distributed_cache_system.Blake3.{Blake3, IsBlake3}
use distributed_cache_system.Worker.Names.{finalize_hex}
use distributed_cache_system.Worker.Names.Hex.{length-encode_hex}
use distributed_cache_system.Worker.Header.{k_header_size}
use distributed_cache_system.Worker.Header.RoundTrip.{length-make_header}
use distributed_cache_system.Worker.FileChunkStore.Put.Fill.{chunk_file}
use distributed_cache_system.Rpc.Streams.{PutChunkFrame}
use distributed_cache_system.Rpc.DataPlane.{file_chunk_store}
use distributed_cache_system.Client.Stub.{WorkerStub, IsFinite}
use distributed_cache_system.Client.Grpc.{grpc_get, grpc_client}
use distributed_cache_system.Client.Storage.{client_put}
use distributed_cache_system.Client.Storage.Put.{put_request}
use distributed_cache_system.Wire.{IsWired, IsWiredGet}
use distributed_cache_system.Wire.Put.{AtWorker, client_put-AtWorker}
use distributed_cache_system.Wire.Get.{AtClient, grpc_get-AtClient}

-- The request for all of an object of this size.
abbrev pub whole_object : ObjectId → ℕ → GetChunkRequest
whole_object object_id size = record {
  chunk_id = record { value = object_id.value };
  range = record { offset = 0; size = size };
}

pub length-finalize_hex :
    (b : Blake3) → IsBlake3 b → (h : b.Hasher) → length (finalize_hex b h) ≡ 64
unfolding finalize_hex
length-finalize_hex b hashes h =
    omega (arith, length-encode_hex (b.finalize h), hashes.length-finalize h)

module _ (b : Blake3) (hashes : IsBlake3 b) (object_id : ObjectId) (contents : List ℕ) where
  -- The data of the chunk file of an object are the object.
  drop-put_request :
      drop k_header_size (chunk_file (put_request b object_id contents) contents) ≡ contents
  drop-put_request = drop-append_left _ contents k_header_size (
      sym (
        length-make_header (put_request b object_id contents).expected_size
          (put_request b object_id contents).expected_checksum (omega arith)
          (length-finalize_hex b hashes (b.update b.init contents))))

  pub downloaded :
      (root : List ℕ) (f worker : Fs) (path : FilePath) (g : Fs)
      → AtWorker root (put_request b object_id contents) contents f worker
      → AtClient root (whole_object object_id (length contents)) worker path g
      → (k : ℕ) × (g.entry path ≡ some k) × (g.bytes k ≡ contents)
  downloaded root f worker path g stored got =
      let same : stored.number ≡ got.range.source =
        some-injective _ _ (sym stored.named ∙ got.range.stored) in
      (
        got.number,
        got.named,
        got.range.part
            ∙ rw (← same, stored.holds, drop-put_request)
                (take_of_length_le (length contents) contents (omega arith)),
      )

-- Where a client and a worker are at the ends of a channel as gRPC documents it, and the operating
-- systems on both sides and the hash behave as documented: once a Put of the client has returned OK
-- for a source of less than 2^64 bytes, a GetChunk of the object from its first byte on, of the
-- source's size, ends, on whatever state of the client's files. Where it returns OK, its destination
-- names a file with just the bytes that the source had when it was put.
pub grpc_get-client_put :
    (os worker_os : Posix) (b : Blake3) {N : Type 0} (stub : WorkerStub N) (root : List ℕ)
    (worker : N → worker_os.State) (sent : N → List PutChunkFrame) (laws : IsDocumented os)
    (worker_laws : IsDocumented worker_os) (hashes : IsBlake3 b) (finite : IsFinite stub)
    (wired : IsWired stub (file_chunk_store worker_os b root) worker sent)
    (wired_get : IsWiredGet stub (file_chunk_store worker_os b root) worker) (to : WorkerEndpoint)
    (object_id : ObjectId) (source : FilePath) (s : os.State) (n : N)
    (small : (i : ℕ) → (os.fs s).entry source ≡ some i → length ((os.fs s).bytes i) < u64)
    (st : Status) (t : os.State × N) (i : ℕ) (path : FilePath) (u : os.State)
    → client_put os b (grpc_client os stub) to object_id source (s, n) ≡ some (st, t)
    → is_ok st ≡ true
    → (os.fs s).entry source ≡ some i
    → Ensures
        (grpc_get os stub to (whole_object object_id (length ((os.fs s).bytes i))) path (u, t.1))
        (λ st' v.
          is_ok st' ≡ true
          → (k : ℕ) × ((os.fs v.0).entry path ≡ some k) × ((os.fs v.0).bytes k ≡ (os.fs s).bytes i))
grpc_get-client_put os worker_os b stub root worker sent laws worker_laws hashes finite wired
      wired_get to object_id source s n small st t i path u ran okay named =
    let (j, named', stored) =
      Ensures-of
        (client_put-AtWorker os worker_os b stub root worker sent laws worker_laws hashes finite
          wired to object_id source s n small)
        ran okay in
    let same : j ≡ i = some-injective _ _ (sym named' ∙ named) in
    Ensures_mono
      (grpc_get-AtClient os worker_os b stub root worker laws worker_laws finite wired_get to
        (whole_object object_id (length ((os.fs s).bytes i))) path u t.1)
      λ st' v got okay'.
        downloaded b hashes object_id ((os.fs s).bytes i) root (worker_os.fs (worker n))
          (worker_os.fs (worker t.1)) path (os.fs v.0) (rw same at stored) (got okay')
