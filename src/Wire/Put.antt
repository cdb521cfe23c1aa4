-- ===== src/Wire/Put.antt =====
-- A Put of the client, from its source to the worker's file.
use distributed_cache_system.Prelude.{
  ℕ, ◌<◌, ◌≡◌, refl, sym, ap, ◌∙◌, inl, inr, Bool, Bool-cases, true, false, none, some, List, [],
  ◌∷◌, ◌++◌, append_assoc, append-nil, length, length-append, ◌%◌, arith,
}
use mathlib.Core.Option.{some-injective}
use distributed_cache_system.Prelude.Action.{Ensures, Ensures_mono, Ensures-of}
use distributed_cache_system.Status.{is_ok}
use distributed_cache_system.Types.{u64, ObjectId, PutChunkRequest, WorkerEndpoint}
use distributed_cache_system.Posix.{FilePath, Fs, Posix}
use distributed_cache_system.Posix.Documented.{IsDocumented}
use distributed_cache_system.Blake3.{Blake3, IsBlake3}
use distributed_cache_system.Worker.Names.{path_for}
use distributed_cache_system.Worker.FileChunkStore.Put.Fill.{chunk_file}
use distributed_cache_system.Rpc.Codes.{RpcStatus, GrpcStatus, is_grpc_ok}
use distributed_cache_system.Rpc.Codes.Errors.{from_grpc_status-ok}
use distributed_cache_system.Rpc.Streams.{PutChunkMetadata, PutChunkFrame, data_bytes}
use distributed_cache_system.Rpc.Streams.Frames.{Carries, no_more, framed}
use distributed_cache_system.Rpc.DataPlane.{ChunkStore, file_chunk_store}
use distributed_cache_system.Rpc.Service.{put_rpc, put_first, request_of}
use distributed_cache_system.Rpc.Service.Upload.{Stored, put_rpc-Stored}
use distributed_cache_system.Client.Stub.{WorkerStub, IsFinite}
use distributed_cache_system.Client.Grpc.{target, call_status, metadata_frame, grpc_client}
use distributed_cache_system.Client.Grpc.Sending.{
  Sends, all_sent, frame_taken, frame_refused, Uploaded, metadata_refused, uploaded,
}
use distributed_cache_system.Client.Storage.{client_put}
use distributed_cache_system.Client.Storage.Put.{put_request, client_put-Uploaded}
use distributed_cache_system.Wire.{joined, frames_reader, IsWired}

-- Data frames with these payloads.
abbrev as_frames : List (List ℕ) → List PutChunkFrame
as_frames [] = []
as_frames (piece ∷ pieces) = data_bytes piece ∷ as_frames pieces

-- A reader of such frames carries just these bytes.
Carries-joined :
    (pieces : List (List ℕ)) (payload : List ℕ)
    → Carries frames_reader (as_frames pieces) payload
    → payload ≡ joined pieces
Carries-joined [] payload (no_more e p) = p
Carries-joined [] payload (framed bytes rest e p c) = cc
Carries-joined (piece ∷ pieces) payload (no_more e p) = cc
Carries-joined (piece ∷ pieces) payload (framed bytes rest e p c) =
    let same : piece ≡ bytes = cc in rw (p, ← same, Carries-joined pieces rest c) refl

-- Part of a list that is as long as the list is all of it.
prefix_whole :
    (part rest whole : List ℕ) → part ++ rest ≡ whole → length part ≡ length whole → part ≡ whole
prefix_whole part [] whole e h = sym (append-nil part) ∙ e
prefix_whole part (x ∷ rest) whole e h =
    absurd (omega (arith, length-append part (x ∷ rest), ap length e))

module _ {N S : Type 0} (stub : WorkerStub N) {store : ChunkStore S} {worker : N → S}
    {sent : N → List PutChunkFrame} (wired : IsWired stub store worker sent) where
  -- What the client's loop has sent.
  record Written (contents : List ℕ) (n m : N) : Type 0 where
    pieces : List (List ℕ)
    rest : List ℕ
    frames : sent m ≡ sent n ++ as_frames pieces
    part : joined pieces ++ rest ≡ contents
    same : worker m ≡ worker n

  Sends-Written :
      {contents : List ℕ} {n m : N} {whole : Bool}
      → Sends stub contents n whole m
      → Written contents n m
  Sends-Written (all_sent n) = record {
    pieces = [];
    rest = [];
    frames = sym (append-nil (sent n));
    part = refl;
    same = refl;
  }
  Sends-Written (frame_taken bytes rest n whole m taken sends) =
      let w = Sends-Written sends in
      record {
        pieces = bytes ∷ w.pieces;
        rest = w.rest;
        frames =
            w.frames
            ∙ rw (wired.write_sent (data_bytes bytes) n taken)
                (append_assoc (sent n) (data_bytes bytes ∷ []) (as_frames w.pieces));
        part = append_assoc bytes (joined w.pieces) w.rest ∙ ap (λ r. bytes ++ r) w.part;
        same = w.same ∙ wired.write_worker (data_bytes bytes) n;
      }
  Sends-Written (frame_refused bytes rest n refused) = record {
    pieces = [];
    rest = bytes ++ rest;
    frames = wired.write_refused (data_bytes bytes) n refused ∙ sym (append-nil (sent n));
    part = refl;
    same = wired.write_worker (data_bytes bytes) n;
  }

-- The worker's files before and after an upload of these contents: the final name was free and
-- names a file that holds the header and all of them.
pub record AtWorker (root : List ℕ) (request : PutChunkRequest) (contents : List ℕ) (f g : Fs)
    : Type 0 where
  pub number : ℕ
  pub free : f.entry (path_for root request.chunk_id) ≡ none
  pub named : g.entry (path_for root request.chunk_id) ≡ some number
  pub holds : g.bytes number ≡ chunk_file request contents

call_status-is_grpc_ok :
    (answer : GrpcStatus × RpcStatus)
    → is_ok (call_status answer) ≡ true
    → is_grpc_ok answer.0.error_code ≡ true
unfolding call_status
call_status-is_grpc_ok answer okay = elim (Bool-cases (is_grpc_ok answer.0.error_code)) [
  | inl fine ↦ fine
  | inr broken ↦ from_grpc_status-ok answer.0 (rw broken at okay)
]

module _ {S : Type 0} (store : ChunkStore S) (address : ℕ) where
  -- Without a first frame the handler answers with an error on the wire.
  put_rpc-nil :
      (s t : S) (answer : GrpcStatus × RpcStatus) (unread : List PutChunkFrame)
      → put_rpc frames_reader (some store) address (s, []) ≡ some (answer, (t, unread))
      → is_grpc_ok answer.0.error_code ≡ false
  unfolding put_rpc put_first
  put_rpc-nil s t answer unread e =
      let same = some-injective _ _ e in
      rw (← ap (λ (x : (GrpcStatus × RpcStatus) × (S × List PutChunkFrame)). x.0.0.error_code) same)
        refl

-- The metadata of a request.
abbrev metadata_of : PutChunkRequest → PutChunkMetadata
metadata_of request = record {
  chunk_id = request.chunk_id.value;
  expected_size = request.expected_size;
  expected_checksum = request.expected_checksum.value;
}

module _ (b : Blake3) (root : List ℕ) (request : PutChunkRequest) (contents : List ℕ)
    (plain : request_of (metadata_of request) ≡ request)
    (size : length contents ≡ request.expected_size) where
  -- A handler that has run on the metadata and on a part of the contents, and is content with it,
  -- has had all of them.
  Stored-AtWorker :
      (pieces : List (List ℕ)) (rest : List ℕ) (f g : Fs)
      → joined pieces ++ rest ≡ contents
      → Stored b root frames_reader f (metadata_frame request ∷ as_frames pieces) g
      → AtWorker root request contents f g
  unfolding metadata_frame
  Stored-AtWorker pieces rest f g part st =
      let sent_first : metadata_of request ≡ st.first = cc st.asked in
      let same : request_of st.first ≡ request = sym (ap request_of sent_first) ∙ plain in
      let payload : st.chunk ≡ joined pieces = Carries-joined pieces st.chunk st.carried in
      let counted : length st.chunk ≡ length contents =
        st.fits.size ∙ ap (λ (r : PutChunkRequest). r.expected_size) same ∙ sym size in
      let all : joined pieces ≡ contents =
        prefix_whole (joined pieces) rest contents part (rw payload at counted) in
      record {
        number = st.number;
        free = rw same at st.free;
        named = rw same at st.named;
        holds = rw (same, payload, all) at st.holds;
      }

-- Where a client and a worker are at the ends of a channel as gRPC documents it, and the operating
-- systems on both sides and the hash behave as documented: the client's Put ends, and where it
-- returns OK for a source of less than 2^64 bytes, the final name of the object's id was free at
-- the worker and names a file that holds the header and all the bytes of the source, in order.
pub client_put-AtWorker :
    (os worker_os : Posix) (b : Blake3) {N : Type 0} (stub : WorkerStub N) (root : List ℕ)
    (worker : N → worker_os.State) (sent : N → List PutChunkFrame) (laws : IsDocumented os)
    (worker_laws : IsDocumented worker_os) (hashes : IsBlake3 b) (finite : IsFinite stub)
    (wired : IsWired stub (file_chunk_store worker_os b root) worker sent) (to : WorkerEndpoint)
    (object_id : ObjectId) (source : FilePath) (s : os.State) (n : N)
    (small : (i : ℕ) → (os.fs s).entry source ≡ some i → length ((os.fs s).bytes i) < u64)
    → Ensures (client_put os b (grpc_client os stub) to object_id source (s, n)) (λ st t.
      is_ok st ≡ true
      → (i : ℕ) × ((os.fs s).entry source ≡ some i)
        × AtWorker root
            (put_request b object_id ((os.fs s).bytes i))
            ((os.fs s).bytes i)
            (worker_os.fs (worker n))
            (worker_os.fs (worker t.1)))
unfolding request_of
client_put-AtWorker os worker_os b {N} stub root worker sent laws worker_laws hashes finite wired to
      object_id source s n small =
    Ensures_mono (client_put-Uploaded os b stub to object_id source laws hashes finite s n)
      λ st t put okay. let (i, named, up) = put.1 okay in (i, named, go i named t.1 up)
  where
    start : N
    start = stub.start_put (target os to) n

    go :
        (i : ℕ)
        → (os.fs s).entry source ≡ some i
        → (last : N)
        → Uploaded stub (put_request b object_id ((os.fs s).bytes i)) source (os.fs s) start last
        → AtWorker root
            (put_request b object_id ((os.fs s).bytes i))
            ((os.fs s).bytes i)
            (worker_os.fs (worker n))
            (worker_os.fs (worker last))
    go i named last (metadata_refused refused fine e) =
        let frame = metadata_frame (put_request b object_id ((os.fs s).bytes i)) in
        let m = (stub.write_frame frame start).1 in
        let none_sent : sent m ≡ [] =
          wired.write_refused frame start refused ∙ wired.start_sent (target os to) n in
        let run = rw none_sent at (wired.finish_runs m fine) in
        absurd (
          cc (
            fine,
            put_rpc-nil (file_chunk_store worker_os b root) run.address _ _ _ run.unread run.ran,
          ))
    go i named last (uploaded j whole m named' taken sends okay e) =
        let request = put_request b object_id ((os.fs s).bytes i) in
        let contents = (os.fs s).bytes i in
        let frame = metadata_frame request in
        let same_file : j ≡ i = some-injective _ _ (sym named' ∙ named) in
        let w = Sends-Written stub wired (rw same_file at sends) in
        let frames : sent m ≡ frame ∷ as_frames w.pieces =
          w.frames
          ∙ rw (wired.write_sent frame start taken, wired.start_sent (target os to) n) refl in
        let unmoved : worker m ≡ worker n =
          w.same ∙ wired.write_worker frame start ∙ wired.start_worker (target os to) n in
        let run = wired.finish_runs m (call_status-is_grpc_ok _ okay) in
        let stored =
          Ensures-of
            (put_rpc-Stored worker_os worker_laws b hashes root run.address frames_reader (worker m)
              (sent m))
            run.ran okay in
        let counted : length contents ≡ length contents % u64 = omega (arith, small i named) in
        rw e (
          Stored-AtWorker b root request contents refl counted w.pieces w.rest _ _ w.part
            (rw (unmoved, frames) at stored))
