-- ===== src/Wire/Objects.antt =====
-- StorageClient::Put and StorageClient::Get over one channel.
use distributed_cache_system.Prelude.{
  ℕ, ◌+◌, ◌<◌, ◌≡◌, sym, ap, subst, ◌∙◌, true, none, some, List, length, length-append, arith,
}
use mathlib.Core.Option.{some-injective}
use distributed_cache_system.Prelude.Action.{Ensures, Ensures_mono, Ensures-of}
use distributed_cache_system.Status.{Status, is_ok}
use distributed_cache_system.Types.{u64, ObjectId, HeadChunkResponse, WorkerEndpoint}
use distributed_cache_system.Posix.{FilePath, Fs, Posix}
use distributed_cache_system.Posix.Documented.{IsDocumented}
use distributed_cache_system.Blake3.{Blake3, IsBlake3}
use distributed_cache_system.Worker.Header.{k_header_size, make_header}
use distributed_cache_system.Worker.Header.RoundTrip.{length-make_header}
use distributed_cache_system.Worker.FileChunkStore.Put.Fill.{chunk_file}
use distributed_cache_system.Rpc.Streams.{PutChunkFrame}
use distributed_cache_system.Rpc.DataPlane.{file_chunk_store}
use distributed_cache_system.Client.Stub.{WorkerStub, IsFinite}
use distributed_cache_system.Client.Grpc.{grpc_client}
use distributed_cache_system.Client.Grpc.Lawful.{grpc_client-IsDataPlaneClient}
use distributed_cache_system.Client.Storage.{temp_destination, client_put, client_get}
use distributed_cache_system.Client.Storage.Put.{put_request}
use distributed_cache_system.Client.Storage.Get.{Downloads, client_get-Downloads}
use distributed_cache_system.Client.Storage.Staging.{AtDestination, not_fetched, fetched}
use distributed_cache_system.Wire.{IsWired, IsWiredGet, IsWiredUnary}
use distributed_cache_system.Wire.Put.{AtWorker, client_put-AtWorker}
use distributed_cache_system.Wire.Get.{AtClient, grpc_get-AtClient}
use distributed_cache_system.Wire.Head.{AtHead, grpc_head-AtHead}
use distributed_cache_system.Wire.RoundTrip.{whole_object, length-finalize_hex, downloaded}

module _ (b : Blake3) (hashes : IsBlake3 b) (object_id : ObjectId) (contents : List ℕ)
    (root : List ℕ) (f worker : Fs)
    (stored : AtWorker root (put_request b object_id contents) contents f worker) where
  length-chunk_file :
      length (chunk_file (put_request b object_id contents) contents)
      ≡ length contents + k_header_size
  length-chunk_file =
      let request = put_request b object_id contents in
      omega (
        arith,
        length-append (make_header request.expected_size request.expected_checksum) contents,
        length-make_header request.expected_size request.expected_checksum (omega arith)
            (length-finalize_hex b hashes (b.update b.init contents)),
      )

  -- Head reports the size of the object.
  reported_size :
      (head : HeadChunkResponse)
      → AtHead root (record { value = object_id.value }) worker head
      → head.size ≡ length contents
  reported_size head at_head =
      let same : stored.number ≡ at_head.source =
        some-injective _ _ (sym stored.named ∙ at_head.stored) in
      let file : worker.bytes at_head.source
          ≡ chunk_file (put_request b object_id contents) contents =
        ap worker.bytes (sym same) ∙ stored.holds in
      omega (
        arith,
        at_head.well_formed.size,
        ap (λ (h : HeadChunkResponse). h.size) at_head.report,
        ap length file,
        length-chunk_file,
      )

  -- A download of the size that Head has reported holds the object.
  reported_download :
      (head : HeadChunkResponse) (path : FilePath) (g : Fs) (i : ℕ)
      → AtHead root (record { value = object_id.value }) worker head
      → AtClient root (whole_object object_id head.size) worker path g
      → g.entry path ≡ some i
      → g.bytes i ≡ contents
  reported_download head path g i at_head got there =
      let (k, named, holds) = downloaded b hashes object_id contents root f worker path g stored (
        subst (λ n. AtClient root (whole_object object_id n) worker path g)
          (reported_size head at_head) got) in
      ap g.bytes (some-injective _ _ (sym there ∙ named)) ∙ holds

-- A destination that was free and names a file with these contents.
pub record Restored (destination : FilePath) (contents : List ℕ) (f g : Fs) : Type 0 where
  pub number : ℕ
  pub free : f.entry destination ≡ none
  pub named : g.entry destination ≡ some number
  pub holds : g.bytes number ≡ contents

GetEnd-Restored :
    {b : Blake3} {temp destination : FilePath} {contents : List ℕ} {f g : Fs} {st : Status}
    → is_ok st ≡ true
    → AtDestination b (λ head got. got ≡ contents) temp destination f st g
    → Restored destination contents f g
GetEnd-Restored okay (not_fetched bad kept) = cc
GetEnd-Restored okay (fetched head i same _ free named is) = record {
  number = i;
  free = free;
  named = named;
  holds = same;
}

-- Where a client and a worker are at the ends of a channel as gRPC documents it, and the operating
-- systems on both sides and the hash behave as documented: once a Put of the client has returned OK
-- for a source of less than 2^64 bytes, a Get of the object ends, to whatever destination and on
-- whatever state of the client's files. Where it returns OK, the destination was free and names a
-- file with just the bytes that the source had when it was put.
pub client_get-client_put :
    (os worker_os : Posix) (b : Blake3) {N : Type 0} (stub : WorkerStub N) (root : List ℕ)
    (worker : N → worker_os.State) (sent : N → List PutChunkFrame) (laws : IsDocumented os)
    (worker_laws : IsDocumented worker_os) (hashes : IsBlake3 b) (finite : IsFinite stub)
    (wired : IsWired stub (file_chunk_store worker_os b root) worker sent)
    (wired_get : IsWiredGet stub (file_chunk_store worker_os b root) worker)
    (wired_head : IsWiredUnary stub (file_chunk_store worker_os b root) worker)
    (to : WorkerEndpoint) (object_id : ObjectId) (source : FilePath) (s : os.State) (n : N)
    (small : (i : ℕ) → (os.fs s).entry source ≡ some i → length ((os.fs s).bytes i) < u64)
    (st : Status) (t : os.State × N) (i : ℕ) (destination : FilePath) (u : os.State) (id : ℕ)
    → client_put os b (grpc_client os stub) to object_id source (s, n) ≡ some (st, t)
    → is_ok st ≡ true
    → (os.fs s).entry source ≡ some i
    → Ensures
        (client_get os b (grpc_client os stub) to object_id destination ((u, t.1), id))
        (λ st' v.
          is_ok st' ≡ true → Restored destination ((os.fs s).bytes i) (os.fs u) (os.fs v.0.0))
client_get-client_put os worker_os b {N} stub root worker sent laws worker_laws hashes finite wired
      wired_get wired_head to object_id source s n small st t i destination u id ran okay named =
    let (j, named', at_worker) =
      Ensures-of
        (client_put-AtWorker os worker_os b stub root worker sent laws worker_laws hashes finite
          wired to object_id source s n small)
        ran okay in
    let same : j ≡ i = some-injective _ _ (sym named' ∙ named) in
    let stored = rw same at at_worker in
    Ensures_mono
      (client_get-Downloads os laws b hashes (grpc_client os stub)
        (grpc_client-IsDataPlaneClient os stub laws finite) to object_id destination u t.1 id
        (λ head got. got ≡ (os.fs s).bytes i) (delivers stored))
      λ st' v ended okay'. GetEnd-Restored okay' ended.at_destination
  where
    temp : FilePath
    temp = temp_destination os destination id

    delivers :
        AtWorker root
          (put_request b object_id ((os.fs s).bytes i))
          ((os.fs s).bytes i)
          (worker_os.fs (worker n))
          (worker_os.fs (worker t.1))
        → Downloads os
            (grpc_client os stub)
            to
            object_id
            ((os.exists destination u).1, t.1)
            temp
            (λ head got. got ≡ (os.fs s).bytes i)
    delivers stored r y head headed e v =
        let (at_head, kept) =
          Ensures-of
            (grpc_head-AtHead os worker_os b stub root worker worker_laws wired_head to
              (record { value = object_id.value }) (os.exists destination u).1 t.1)
            headed head e in
        Ensures_mono
          (grpc_get-AtClient os worker_os b stub root worker laws worker_laws finite wired_get to
            (whole_object object_id head.size) temp v y.1)
          λ st' x got okay' k there.
            reported_download b hashes object_id ((os.fs s).bytes i) root (worker_os.fs (worker n))
              (worker_os.fs (worker t.1)) stored head temp (os.fs x.0) k at_head
              (rw kept at (got okay')) there
