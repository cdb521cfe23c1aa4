-- ===== src/Wire/Get.antt =====
-- A download, from the worker's file to the client's.
use distributed_cache_system.Prelude.{
  ℕ, ◌+◌, ◌≤◌, length, ◌≡◌, refl, sym, ap, ◌∙◌, true, some, List, [], ◌∷◌, ◌++◌, append_assoc,
  append-nil, not, drop,
}
use distributed_cache_system.Prelude.Action.{
  Ensures, Ensures-some, Ensures-if, Ensures-bind, Ensures_mono, Ensures-of,
}
use distributed_cache_system.Status.{Status, is_ok, status}
use distributed_cache_system.Types.{valid, GetChunkRequest, WorkerEndpoint}
use distributed_cache_system.Posix.{FilePath, Fs, Posix}
use distributed_cache_system.Posix.Documented.{IsDocumented}
use distributed_cache_system.Blake3.{Blake3}
use distributed_cache_system.Worker.Streams.{
  OutputStream, Sent, sent_all, gave_up, not_taken, taken,
}
use distributed_cache_system.Worker.Names.{path_for}
use distributed_cache_system.Worker.Header.{k_header_size}
use distributed_cache_system.Worker.FileChunkStore.Head.Header.{IsChunkFile}
use distributed_cache_system.Worker.FileChunkStore.Get.Loop.{slice}
use distributed_cache_system.Worker.FileChunkStore.Get.Outcome.{
  GetOutcome, nothing_sent, range_sent, get-Ensures,
}
use distributed_cache_system.Rpc.Codes.{is_grpc_ok}
use distributed_cache_system.Rpc.Codes.Errors.{to_grpc_status-ok}
use distributed_cache_system.Rpc.Messages.{GetMessage}
use distributed_cache_system.Rpc.Streams.{rpc_write, rpc_output_stream}
use distributed_cache_system.Rpc.DataPlane.{file_chunk_store, get_chunk}
use distributed_cache_system.Rpc.Service.{get_rpc}
use distributed_cache_system.Client.Stub.{WorkerStub, IsFinite}
use distributed_cache_system.Client.Grpc.{target, grpc_get}
use distributed_cache_system.Client.Grpc.Download.{Delivered, called, grpc_get-Ensures}
use distributed_cache_system.Wire.{joined, frames_writer, IsWiredGet}

-- The message of a request.
abbrev message_of : GetChunkRequest → GetMessage
message_of request = record {
  chunk_id = request.chunk_id.value;
  offset = request.range.offset;
  size = request.range.size;
}

joined-append :
    (frames rest : List (List ℕ)) → joined (frames ++ rest) ≡ joined frames ++ joined rest
joined-append [] rest = refl
joined-append (frame ∷ frames) rest =
    ap (λ r. frame ++ r) (joined-append frames rest)
    ∙ sym (append_assoc frame (joined frames) (joined rest))

-- A handler that has sent all has written just these bytes.
Sent-joined :
    {st : Status} {frames frames' : List (List ℕ)} {bytes : List ℕ}
    → is_ok st ≡ true
    → Sent (rpc_output_stream frames_writer) st frames bytes frames'
    → joined frames' ≡ joined frames ++ bytes
unfolding rpc_write
Sent-joined {frames} okay (sent_all fine empty same) =
    rw (same, empty) (sym (append-nil (joined frames)))
Sent-joined okay (gave_up bad same) = cc
Sent-joined okay (not_taken piece rest parts e bad same) = cc
Sent-joined {frames} okay (taken piece rest parts fine sent) =
    rw (Sent-joined okay sent, joined-append frames (piece ∷ []), append-nil piece, parts)
      (append_assoc (joined frames) piece rest)

-- The range of the data that a worker's chunk file holds.
pub record AtRange (root : List ℕ) (request : GetChunkRequest) (f : Fs) (contents : List ℕ)
    : Type 0 where
  pub source : ℕ
  pub stored : f.entry (path_for root request.chunk_id) ≡ some source
  pub well_formed : IsChunkFile (f.bytes source)
  pub inside : request.range.offset + request.range.size + k_header_size ≤ length (f.bytes source)
  pub part :
      contents ≡ slice (drop k_header_size (f.bytes source)) request.range.offset request.range.size

module _ (os : Posix) (laws : IsDocumented os) (b : Blake3) (root : List ℕ) where
  open os use {State, fs}

  get_chunk-Ensures :
      {V : Type 0} (output : OutputStream V) (request : GetChunkRequest) (s : State) (v : V)
      → Ensures
          (get_chunk (file_chunk_store os b root) output request (s, v))
          (λ st u. GetOutcome output root request (fs s) v st u.1)
  unfolding get_chunk status
  get_chunk-Ensures output request s v =
      Ensures-if (not (valid request.chunk_id.value)) _ _ (s, v)
        (λ absent. Ensures-some (nothing_sent refl refl))
        (λ there.
          Ensures_mono (get-Ensures os laws output root request s v) λ st u outcome. outcome.0)

  GetOutcome-AtRange :
      (request : GetChunkRequest) (f : Fs) (st : Status) (frames : List (List ℕ))
      → is_ok st ≡ true
      → GetOutcome (rpc_output_stream frames_writer) root request f [] st frames
      → AtRange root request f (joined frames)
  GetOutcome-AtRange request f st frames okay (nothing_sent bad e) = cc
  GetOutcome-AtRange request f st frames okay (range_sent i named well inside sent) = record {
    source = i;
    stored = named;
    well_formed = well;
    inside = inside;
    part = Sent-joined okay sent;
  }

  get_rpc-Ensures :
      (request : GetChunkRequest) (s : State)
      → Ensures
          (get_rpc frames_writer (some (file_chunk_store os b root)) (message_of request) (s, []))
          (λ answer u.
            is_grpc_ok answer.error_code ≡ true → AtRange root request (fs s) (joined u.1))
  unfolding get_rpc
  get_rpc-Ensures request s =
      Ensures-bind _ (get_chunk-Ensures (rpc_output_stream frames_writer) request s [])
        λ st u outcome.
          Ensures-some
            λ fine. GetOutcome-AtRange request (fs s) st u.1 (to_grpc_status-ok st fine) outcome

-- The client's file after a download, and the range of the worker's chunk file that it holds.
pub record AtClient (root : List ℕ) (request : GetChunkRequest) (worker : Fs) (path : FilePath)
    (g : Fs) : Type 0 where
  pub number : ℕ
  pub named : g.entry path ≡ some number
  pub range : AtRange root request worker (g.bytes number)

-- Where a client and a worker are at the ends of a channel as gRPC documents it, and the operating
-- systems on both sides behave as documented: the client's GetChunk ends, and where it returns OK,
-- there is a well-formed chunk file under the chunk's path at the worker, the range lies inside its
-- data, and the destination names a file that holds the bytes of the range, in order and no others.
pub grpc_get-AtClient :
    (os worker_os : Posix) (b : Blake3) {N : Type 0} (stub : WorkerStub N) (root : List ℕ)
    (worker : N → worker_os.State) (laws : IsDocumented os) (worker_laws : IsDocumented worker_os)
    (finite : IsFinite stub) (wired : IsWiredGet stub (file_chunk_store worker_os b root) worker)
    (to : WorkerEndpoint) (request : GetChunkRequest) (path : FilePath) (s : os.State) (n : N)
    → Ensures
        (grpc_get os stub to request path (s, n))
        (λ st t. is_ok st ≡ true → AtClient root request (worker_os.fs (worker n)) path (os.fs t.0))
grpc_get-AtClient os worker_os b {N} stub root worker laws worker_laws finite wired to request path
      s n =
    Ensures_mono (grpc_get-Ensures os laws stub finite to request path s n)
      λ st t outcome okay. go (os.fs t.0) (outcome.1 okay)
  where
    go :
        (g : Fs)
        → Delivered stub path (called os stub to request n) g
        → AtClient root request (worker_os.fs (worker n)) path g
    go g d =
        let sent =
          wired.get_runs (target os to) (message_of request) n d.finished d.contents d.received
            d.grpc_ok in
        let range =
          Ensures-of (get_rpc-Ensures worker_os worker_laws b root request (worker n)) sent.ran
            d.grpc_ok in
        record { number = d.number; named = d.named; range = rw (← sent.whole, ← d.holds) at range }
