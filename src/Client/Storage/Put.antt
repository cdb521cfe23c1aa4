-- ===== src/Client/Storage/Put.antt =====
-- What StorageClient::Put asks of the worker, over any client and over GrpcDataPlaneClient.
use distributed_cache_system.Prelude.{
  ℕ, ◌≡◌, refl, ◌∙◌, inl, inr, Bool-cases, true, false, some, List,
}
use distributed_cache_system.Prelude.Action.{
  Ensures, Ensures-some, Ensures-bind, Ensures_mono, Ensures-on_first, Ensures_returned, Ensures_at,
  Ensures-of,
}
use distributed_cache_system.Status.{
  Status, status, is_ok, StatusOr, from_status, from_value, normalize_error,
}
use distributed_cache_system.Types.{ObjectId, valid, PutChunkRequest, WorkerEndpoint}
use distributed_cache_system.Posix.{FilePath, Fs, Posix}
use distributed_cache_system.Posix.Documented.{IsDocumented}
use distributed_cache_system.Blake3.{Blake3, IsBlake3}
use distributed_cache_system.Client.HashFile.{Hashed}
use distributed_cache_system.Client.HashFile.Outcome.{
  hashed, HashOutcome, hash_failed, hash_done, hash_file-Ensures,
}
use distributed_cache_system.Client.Stub.{WorkerStub, IsFinite}
use distributed_cache_system.Client.DataPlane.{DataPlaneClient, IsDataPlaneClient}
use distributed_cache_system.Client.Grpc.{target, grpc_client}
use distributed_cache_system.Client.Grpc.Upload.{grpc_put-Ensures}
use distributed_cache_system.Client.Grpc.Sending.{Uploaded}
use distributed_cache_system.Client.Grpc.Lawful.{grpc_client-IsDataPlaneClient}
use distributed_cache_system.Client.Storage.{to_chunk_id, put_hashed, put_chunk_id, client_put}

-- The request that a file with these contents makes.
abbrev pub put_request : Blake3 → ObjectId → List ℕ → PutChunkRequest
put_request b object_id contents = record {
  chunk_id = record { value = object_id.value };
  expected_size = (hashed b contents).0;
  expected_checksum = (hashed b contents).1;
}

module _ (os : Posix) (b : Blake3) {N : Type 0} (client : DataPlaneClient os N)
    (worker : WorkerEndpoint) (object_id : ObjectId) (source : FilePath) where
  -- Put fails and asks nothing, or its result is that of a PutChunk of the source, asked with the
  -- size and the checksum of what the source holds.
  pub data PutAsked (f : Fs) (n : N) (st : Status) (t : os.State × N) : Type 0 where
    not_asked : is_ok st ≡ false → t.1 ≡ n → PutAsked f n st t
    asked :
        (i : ℕ) (u : os.State)
        → f.entry source ≡ some i
        → os.fs u ≡ f
        → client.put_chunk worker (put_request b object_id (f.bytes i)) source (u, n) ≡ some (st, t)
        → PutAsked f n st t

  module _ (laws : IsDocumented os) (hashes : IsBlake3 b)
      (lawful : IsDataPlaneClient os client) where
    put_hashed-Ensures :
        (s : os.State) (r : StatusOr Hashed) (f : Fs) (n : N)
        → HashOutcome b source f r
        → os.fs s ≡ f
        → Ensures
            (put_hashed os b client worker
              (record { value = object_id.value })
              source
              r.held_status
              r.held_value
              (s, n))
            (λ st t. (os.fs t.0 ≡ f) × PutAsked f n st t)
    unfolding put_hashed
    put_hashed-Ensures s r f n (hash_failed e bad) same =
        rw (e, put_hashed) (Ensures-some (same, not_asked bad refl))
    put_hashed-Ensures s r f n (hash_done i named e) same =
        rw (e, put_hashed)
          (Ensures_mono
            (Ensures_returned
              (lawful.put_chunk-Ensures worker (put_request b object_id (f.bytes i)) source s n))
            λ st t put. (put.0 ∙ same, asked i s named same put.1))

    -- With an operating system, a hash and transfers that behave as documented, Put ends and
    -- leaves the client's files and descriptors as they were. It fails without asking the worker
    -- for anything, or its result is that of one PutChunk of the source, under the object's id and
    -- with the size, modulo 2^64, and the BLAKE3 checksum of the whole file that the source names.
    pub client_put-Ensures :
        (s : os.State) (n : N)
        → Ensures
            (client_put os b client worker object_id source (s, n))
            (λ st t. (os.fs t.0 ≡ os.fs s) × PutAsked (os.fs s) n st t)
    unfolding client_put put_chunk_id to_chunk_id from_status from_value normalize_error status
    client_put-Ensures s n = elim (Bool-cases (valid object_id.value)) [
      | inr absent ↦ rw absent (Ensures-some (refl, not_asked refl refl))
      | inl there ↦ rw there (
          Ensures-bind _ (Ensures-on_first n (hash_file-Ensures os laws b hashes source s))
            λ r t hash.
              Ensures_at
                (put_hashed os b client worker (record { value = object_id.value }) source
                  r.held_status r.held_value)
                t n hash.1 (put_hashed-Ensures t.0 r (os.fs s) n hash.0.0 hash.0.1))
    ]

-- With an operating system and a hash that behave as documented and calls of finitely many frames,
-- Put over gRPC ends and leaves the client's files and descriptors as they were. Where it returns
-- OK, the source names a file, one PutChunk call was made, whose metadata are the object's id and
-- the size, modulo 2^64, and the BLAKE3 checksum of that file, and one of two things has happened.
-- Either gRPC took the metadata, the further frames hold the bytes of that same file in order, all
-- of them or up to a frame that gRPC refused, and both the call and the worker's response ended
-- with OK. Or gRPC refused the metadata, no further frame was written, and the call ended with OK,
-- whatever the worker's response says.
pub client_put-Uploaded :
    (os : Posix) (b : Blake3) {N : Type 0} (stub : WorkerStub N) (worker : WorkerEndpoint)
    (object_id : ObjectId) (source : FilePath) (laws : IsDocumented os) (hashes : IsBlake3 b)
    (finite : IsFinite stub) (s : os.State) (n : N)
    → Ensures (client_put os b (grpc_client os stub) worker object_id source (s, n)) (λ st t.
      (os.fs t.0 ≡ os.fs s)
      × (is_ok st ≡ true
          → (i : ℕ) × ((os.fs s).entry source ≡ some i)
            × Uploaded stub
                (put_request b object_id ((os.fs s).bytes i))
                source
                (os.fs s)
                (stub.start_put (target os worker) n)
                t.1))
client_put-Uploaded os b {N} stub worker object_id source laws hashes finite s n =
    Ensures_mono
      (client_put-Ensures os b (grpc_client os stub) worker object_id source laws hashes
        (grpc_client-IsDataPlaneClient os stub laws finite) s n)
      λ st t e. (e.0, λ okay. go st t okay e.1)
  where
    go :
        (st : Status) (t : os.State × N)
        → is_ok st ≡ true
        → PutAsked os b (grpc_client os stub) worker object_id source (os.fs s) n st t
        → (i : ℕ) × ((os.fs s).entry source ≡ some i)
          × Uploaded stub
              (put_request b object_id ((os.fs s).bytes i))
              source
              (os.fs s)
              (stub.start_put (target os worker) n)
              t.1
    go st t okay (not_asked bad e) = cc
    go st t okay (asked i u named same e) =
        let request = put_request b object_id ((os.fs s).bytes i) in
        (
          i,
          named,
          rw same at
              ((Ensures-of (grpc_put-Ensures os laws stub worker request source u n) e).1 okay),
        )
