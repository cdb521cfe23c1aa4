-- ===== src/Programs/Client/Exits.antt =====
-- What the exit code of the client tells.
use distributed_cache_system.Prelude.{ℕ, ◌≡◌, true, none, some, List, arith}
use distributed_cache_system.Prelude.Action.{Ensures, Ensures-some, Ensures-bind, Ensures-on_first}
use distributed_cache_system.Status.{Status, is_ok}
use distributed_cache_system.Types.{HeadChunkResponse, WorkerEndpoint}
use distributed_cache_system.Posix.{FilePath, Fs, Posix}
use distributed_cache_system.Posix.Documented.{IsDocumented}
use distributed_cache_system.Blake3.{Blake3, IsBlake3}
use distributed_cache_system.Client.Stub.{WorkerStub, IsFinite}
use distributed_cache_system.Client.Grpc.{target, grpc_client}
use distributed_cache_system.Client.Grpc.Sending.{Uploaded}
use distributed_cache_system.Client.Grpc.Lawful.{grpc_client-IsDataPlaneClient}
use distributed_cache_system.Client.Storage.{temp_destination}
use distributed_cache_system.Client.Storage.Get.{Answers, client_get-Ensures}
use distributed_cache_system.Client.Storage.Staging.{
  Kept, IsReported, AtDestination, not_fetched, fetched, GetEnd,
}
use distributed_cache_system.Client.Storage.Put.{put_request, client_put-Uploaded}
use distributed_cache_system.Programs.Client.{put_object, get_object, report, client_main}

report-is_ok : (st : Status) → (report st).exit_code ≡ 0 → is_ok st ≡ true
unfolding report
report-is_ok st h = ground arith

-- A file that `get` has fetched: the destination was free, and it names a file of the size and the
-- checksum that the worker has answered to Head.
pub record Fetched (os : Posix) (b : Blake3) {N : Type 0} (stub : WorkerStub N)
    (to : WorkerEndpoint) (object_id : List ℕ) (destination : FilePath) (s : os.State) (n : N)
    (g : Fs) : Type 0 where
  pub head : HeadChunkResponse
  pub number : ℕ
  pub answered :
      Answers os
        (grpc_client os stub)
        to
        (record { value = object_id })
        ((os.exists destination s).1, n)
        head
  pub free : (os.fs s).entry destination ≡ none
  pub named : g.entry destination ≡ some number
  pub reported : IsReported b head (g.bytes number)

module _ (os : Posix) (laws : IsDocumented os) (b : Blake3) (hashes : IsBlake3 b) {N : Type 0}
    (stub : WorkerStub N) (finite : IsFinite stub) (to : WorkerEndpoint) (object_id : List ℕ)
    (s : os.State) (n : N) (id : ℕ) where
  -- With an operating system and a hash that behave as documented and calls of finitely many
  -- frames, the client's `put` ends and leaves the client's files and descriptors as they were. It
  -- exits with 0 only where the source names a file, one PutChunk call was made, whose metadata are
  -- the object's id and the size, modulo 2^64, and the BLAKE3 checksum of that file, and one of two
  -- things has happened. Either gRPC took the metadata, the further frames hold the bytes of that
  -- file in order, all of them or up to a frame that gRPC refused, and both the call and the
  -- worker's response ended with OK. Or gRPC refused the metadata, no further frame was written, and
  -- the call ended with OK, whatever the worker's response says.
  pub client_main-put :
      (source : FilePath)
      → Ensures (client_main os b stub to (put_object object_id source) ((s, n), id)) (λ finished t.
        (os.fs t.0.0 ≡ os.fs s)
        × (finished.exit_code ≡ 0
            → (i : ℕ) × ((os.fs s).entry source ≡ some i)
              × Uploaded stub
                  (put_request b (record { value = object_id }) ((os.fs s).bytes i))
                  source
                  (os.fs s)
                  (stub.start_put (target os to) n)
                  t.0.1))
  unfolding client_main
  client_main-put source =
      Ensures-bind _
        (Ensures-on_first id (
          client_put-Uploaded os b stub to (record { value = object_id }) source laws hashes finite
            s n))
        λ st t put. Ensures-some (put.0.0, λ zero_exit. put.0.1 (report-is_ok st zero_exit))

  GetEnd-Fetched :
      (destination temp : FilePath) (st : Status) (g : Fs)
      → is_ok st ≡ true
      → GetEnd b
          (λ head contents.
            Answers os
              (grpc_client os stub)
              to
              (record { value = object_id })
              ((os.exists destination s).1, n)
              head)
          temp
          destination
          (os.fs s)
          st
          g
      → Fetched os b stub to object_id destination s n g
  GetEnd-Fetched destination temp st g okay ended = go ended.at_destination
    where
      go :
          AtDestination b
            (λ head contents.
              Answers os
                (grpc_client os stub)
                to
                (record { value = object_id })
                ((os.exists destination s).1, n)
                head)
            temp
            destination
            (os.fs s)
            st
            g
          → Fetched os b stub to object_id destination s n g
      go (not_fetched bad kept) = cc
      go (fetched head i answered _ free named is) = record {
        head = head;
        number = i;
        answered = answered;
        free = free;
        named = named;
        reported = is;
      }

  -- With an operating system and a hash that behave as documented and calls of finitely many
  -- frames, the client's `get` ends. Only the temporary name beside the destination and the
  -- destination can name another file than before, what names a file before still holds the same
  -- bytes, and every descriptor is closed. It exits with 0 only where the destination was free and
  -- names a file whose size, modulo 2^64, and BLAKE3 checksum are those that the worker has
  -- answered to Head.
  pub client_main-get :
      (destination : FilePath)
      → Ensures
          (client_main os b stub to (get_object object_id destination) ((s, n), id))
          (λ finished t.
            Kept (temp_destination os destination id) destination (os.fs s) (os.fs t.0.0)
            × (finished.exit_code ≡ 0
                → Fetched os b stub to object_id destination s n (os.fs t.0.0)))
  unfolding client_main
  client_main-get destination =
      Ensures-bind _
        (client_get-Ensures os laws b hashes (grpc_client os stub)
          (grpc_client-IsDataPlaneClient os stub laws finite) to (record { value = object_id })
          destination s n id)
        λ st t ended. Ensures-some (
          ended.kept,
          λ zero_exit.
              GetEnd-Fetched destination (temp_destination os destination id) st (os.fs t.0.0)
                (report-is_ok st zero_exit) ended,
        )
