-- ===== src/Rpc/Service/Upload.antt =====
-- An upload through WorkerService::PutChunk, DataPlaneService and FileChunkStore.
use distributed_cache_system.Prelude.{
  ℕ, ◌≡◌, ◌≢◌, refl, true, false, not, Option, none, some, List, arith,
}
use distributed_cache_system.Prelude.Action.{
  Ensures, Ensures-some, Ensures-if, Ensures-bind, Ensures_mono,
}
use distributed_cache_system.Status.{Status, is_ok, status}
use distributed_cache_system.Types.{PutChunkRequest, valid, validate_checksum}
use distributed_cache_system.Posix.{Fs, Posix}
use distributed_cache_system.Posix.Documented.{IsDocumented}
use distributed_cache_system.Blake3.{Blake3, IsBlake3}
use distributed_cache_system.Worker.Streams.{InputStream, IsHonest}
use distributed_cache_system.Worker.Names.{path_for, temp_path}
use distributed_cache_system.Worker.Names.Distinct.{temp_path-ne_self}
use distributed_cache_system.Worker.FileChunkStore.Put.{k_buffer_size}
use distributed_cache_system.Worker.FileChunkStore.Put.Fill.{IsChunk, chunk_file}
use distributed_cache_system.Worker.FileChunkStore.Put.Outcome.{
  AtFinal, left_alone, stored, PutOutcome, outcome_refused,
}
use distributed_cache_system.Worker.FileChunkStore.Put.Atomic.{put-Ensures}
use distributed_cache_system.Rpc.Codes.{
  RpcStatus, GrpcStatus, grpc_status_ok, set_status, from_grpc_status,
}
use distributed_cache_system.Rpc.Codes.Errors.{from_rpc_status-error}
use distributed_cache_system.Rpc.Streams.{
  PutChunkMetadata, PutChunkFrame, metadata, data_bytes, payload_not_set, Reader, RpcInput,
  rpc_input, rpc_input_stream,
}
use distributed_cache_system.Rpc.Streams.Frames.{
  Carries, rpc_input_stream-IsHonest, delivered-Carries,
}
use distributed_cache_system.Rpc.DataPlane.{file_chunk_store, put_chunk}
use distributed_cache_system.Rpc.Service.{reader_left, put_first, put_rpc, request_of}
use distributed_cache_system.Client.Grpc.{call_status}

-- What the client makes of an error that the worker sends in its response.
call_status-error :
    (st : Status) → is_ok st ≡ false → is_ok (call_status (grpc_status_ok, set_status st)) ≡ false
unfolding call_status set_status
call_status-error st bad = from_rpc_status-error st.code st.message bad

module _ {S R : Type 0} (reader : Reader R) where
  Ensures-on_stream :
      {A : Type 0} {x : Option (A × (S × RpcInput R))} {Q : A → S × RpcInput R → Type 0}
      → Ensures x Q
      → Ensures (reader_left reader x) (λ a t. (input : RpcInput R) × Q a (t.0, input))
  Ensures-on_stream h = rw h.returned (Ensures-some (h.state.1, h.holds))

-- The chunk of an upload that the client is told has succeeded.
pub record Stored (b : Blake3) (root : List ℕ) {R : Type 0} (reader : Reader R) (f : Fs) (r : R)
    (g : Fs) : Type 0 where
  pub first : PutChunkMetadata
  pub chunk : List ℕ
  pub number : ℕ
  pub asked : (reader.read r).0 ≡ some (metadata first)
  pub carried : Carries reader (reader.read r).1 chunk
  pub fits : IsChunk b (request_of first) chunk
  pub free : f.entry (path_for root (request_of first).chunk_id) ≡ none
  pub named : g.entry (path_for root (request_of first).chunk_id) ≡ some number
  pub holds : g.bytes number ≡ chunk_file (request_of first) chunk

module _ (os : Posix) (laws : IsDocumented os) (b : Blake3) (hashes : IsBlake3 b) (root : List ℕ)
    (address : ℕ) where
  open os use {State, fs}

  -- What FileChunkStore::Put promises, through DataPlaneService.
  put_chunk-Ensures :
      {W : Type 0} (input : InputStream W) (honest : IsHonest input) (request : PutChunkRequest)
      (s : State) (w : W)
      → let final = path_for root request.chunk_id in
        Ensures (put_chunk (file_chunk_store os b root) input address request (s, w)) (λ st t.
          PutOutcome b request input
            (temp_path os root final address)
            final
            (fs s)
            w
            st
            (fs t.0)
            t.1)
  unfolding put_chunk status
  put_chunk-Ensures input honest request s w =
      let final = path_for root request.chunk_id in
      let temp = temp_path os root final address in
      let apart : temp ≢ final = temp_path-ne_self os root final address in
      Ensures-if (not (valid request.chunk_id.value)) _ _ (s, w)
        (λ absent. Ensures-some (outcome_refused b request input temp final apart refl refl))
        (λ there.
          Ensures-if (is_ok (validate_checksum request.expected_checksum)) _ _ (s, w)
            (λ fine. put-Ensures os laws b hashes input honest request root address s w)
            (λ bad. Ensures-some (outcome_refused b request input temp final apart bad refl)))

  module _ {R : Type 0} (reader : Reader R) where
    -- The client is told of an error and the files are as before, or it has run the request
    -- of the first frame's metadata on the frames that follow, and answers with its status.
    pub data Handled (f : Fs) (r : R) (answer : GrpcStatus × RpcStatus) (g : Fs) : Type 0 where
      not_begun : is_ok (call_status answer) ≡ false → g ≡ f → Handled f r answer g
      begun :
          (m : PutChunkMetadata) (st : Status) (input : RpcInput R)
          → (reader.read r).0 ≡ some (metadata m)
          → answer ≡ (grpc_status_ok, set_status st)
          → (let final = path_for root (request_of m).chunk_id in
              PutOutcome b
                (request_of m)
                (rpc_input_stream reader)
                (temp_path os root final address)
                final
                f
                (rpc_input (reader.read r).1)
                st
                g
                input)
          → Handled f r answer g

    put_first-Ensures :
        (s : State) (r : R) (first : Option PutChunkFrame)
        → (reader.read r).0 ≡ first
        → Ensures
            (put_first reader (file_chunk_store os b root) address first (s, (reader.read r).1))
            (λ answer t. Handled (fs s) r answer (fs t.0))
    unfolding put_first call_status from_grpc_status status
    put_first-Ensures s r none e = Ensures-some (not_begun refl refl)
    put_first-Ensures s r (some (data_bytes bytes)) e = Ensures-some (not_begun refl refl)
    put_first-Ensures s r (some payload_not_set) e = Ensures-some (not_begun refl refl)
    put_first-Ensures s r (some (metadata m)) e =
        Ensures-bind _
          (Ensures-on_stream reader (
            put_chunk-Ensures (rpc_input_stream reader) (rpc_input_stream-IsHonest reader)
              (request_of m) s (rpc_input (reader.read r).1)))
          λ st t outcome. Ensures-some (begun m st outcome.0 e refl outcome.1)

    pub put_rpc-Ensures :
        (s : State) (r : R)
        → Ensures
            (put_rpc reader (some (file_chunk_store os b root)) address (s, r))
            (λ answer t. Handled (fs s) r answer (fs t.0))
    unfolding put_rpc
    put_rpc-Ensures s r = put_first-Ensures s r (reader.read r).0 refl

  module _ {R : Type 0} (reader : Reader R) where
    AtFinal-Stored :
        (f g : Fs) (r : R) (m : PutChunkMetadata) (st : Status) (input : RpcInput R)
        → is_ok (call_status (grpc_status_ok, set_status st)) ≡ true
        → (reader.read r).0 ≡ some (metadata m)
        → AtFinal b
            (request_of m)
            (rpc_input_stream reader)
            (path_for root (request_of m).chunk_id)
            f
            (rpc_input (reader.read r).1)
            st
            g
            input
        → Stored b root reader f r g
    AtFinal-Stored f g r m st input okay e (left_alone bad kept) =
        cc (okay, call_status-error st bad)
    AtFinal-Stored f g r m st input okay e (stored i chunk free named is fits given) = record {
      first = m;
      chunk = chunk;
      number = i;
      asked = e;
      carried =
          delivered-Carries reader k_buffer_size (reader.read r).1 input chunk (omega arith) given;
      fits = fits;
      free = free;
      named = named;
      holds = is;
    }

    Handled-Stored :
        (f g : Fs) (r : R) (answer : GrpcStatus × RpcStatus)
        → is_ok (call_status answer) ≡ true
        → Handled reader f r answer g
        → Stored b root reader f r g
    Handled-Stored f g r answer okay (not_begun bad e) = cc (okay, bad)
    Handled-Stored f g r answer okay (begun m st input e p outcome) =
        AtFinal-Stored f g r m st input (rw p at okay) e outcome.at_final

    -- With an operating system and a hash that behave as documented, WorkerService::PutChunk over a
    -- FileChunkStore ends. Where the client reads OK from the call's status and response, the
    -- call's first frame was metadata, the frames after it, up to the end of the call, were data
    -- frames with a payload of just the size and the BLAKE3 checksum in the metadata, and the final
    -- name of the chunk id in the metadata was free and now names a file that holds the header and
    -- this payload.
    pub put_rpc-Stored :
        (s : State) (r : R)
        → Ensures
            (put_rpc reader (some (file_chunk_store os b root)) address (s, r))
            (λ answer t. is_ok (call_status answer) ≡ true → Stored b root reader (fs s) r (fs t.0))
    put_rpc-Stored s r =
        Ensures_mono (put_rpc-Ensures reader s r)
          λ answer t handled okay. Handled-Stored (fs s) (fs t.0) r answer okay handled
