-- ===== src/Wire/Head.antt =====
-- HeadChunk and DeleteChunk of the client, and the worker's file that they are about.
use distributed_cache_system.Prelude.{
  ℕ, ◌≡◌, ◌≢◌, refl, sym, ap, ◌∙◌, inl, inr, Bool-cases, true, false, none, some, List, not, arith,
}
use mathlib.Core.Option.{some-injective}
use distributed_cache_system.Prelude.Action.{
  Ensures, Ensures-some, Ensures-if, Ensures-bind, Ensures-of,
}
use distributed_cache_system.Status.{
  Status, ok, status, is_k_ok, is_ok, StatusOr, from_status, from_value, normalize_error,
}
use distributed_cache_system.Types.{ChunkId, valid, HeadChunkResponse, WorkerEndpoint}
use distributed_cache_system.Posix.{Fs, Posix}
use distributed_cache_system.Posix.Documented.{IsDocumented}
use distributed_cache_system.Blake3.{Blake3}
use distributed_cache_system.Worker.Names.{validate_id, path_for}
use distributed_cache_system.Worker.FileChunkStore.Head.Header.{IsChunkFile, reported}
use distributed_cache_system.Worker.FileChunkStore.Head.Outcome.{
  HeadOutcome, bad_id, io_failed, not_found, corrupt, found, head-Ensures,
}
use distributed_cache_system.Rpc.Codes.{GrpcStatus, is_grpc_ok, grpc_status_ok}
use distributed_cache_system.Rpc.Messages.{HeadMessage}
use distributed_cache_system.Rpc.DataPlane.{file_chunk_store, head_chunk}
use distributed_cache_system.Rpc.Service.{head_message, head_rpc}
use distributed_cache_system.Rpc.Service.Answers.{head_result-none, head_result-value}
use distributed_cache_system.Client.Reads.Laws.{not_none}
use distributed_cache_system.Client.Stub.{WorkerStub}
use distributed_cache_system.Client.Grpc.{target, head_result, grpc_head}
use distributed_cache_system.Wire.{IsWiredUnary}

-- What Head has reported of the worker's chunk file.
pub record AtHead (root : List ℕ) (chunk_id : ChunkId) (f : Fs) (head : HeadChunkResponse)
    : Type 0 where
  pub source : ℕ
  pub stored : f.entry (path_for root chunk_id) ≡ some source
  pub well_formed : IsChunkFile (f.bytes source)
  pub report : head ≡ reported chunk_id (f.bytes source)

no_head :
    (st : Status) (head : HeadChunkResponse)
    → is_ok st ≡ false
    → (head_result (grpc_status_ok, head_message st none)).held_value ≢ some head
no_head st head bad e =
    not_none
      (sym (ap (λ (r : StatusOr HeadChunkResponse). r.held_value) (head_result-none st bad)) ∙ e)

a_head :
    (st : Status) (head answered : HeadChunkResponse)
    → (head_result (grpc_status_ok, head_message st (some answered))).held_value ≡ some head
    → head ≡ answered
unfolding head_message from_value
a_head st head answered e = some-injective _ _ (
    sym e
    ∙ ap (λ (r : StatusOr HeadChunkResponse). r.held_value) (head_result-value ok answered refl))

module _ (os : Posix) (laws : IsDocumented os) (b : Blake3) (root : List ℕ) where
  open os use {State, fs}

  head_chunk-Ensures :
      (chunk_id : ChunkId) (s : State)
      → Ensures
          (head_chunk (file_chunk_store os b root) chunk_id s)
          (λ r t. HeadOutcome root chunk_id (fs s) r × (fs t ≡ fs s))
  unfolding head_chunk validate_id from_status normalize_error status
  head_chunk-Ensures chunk_id s =
      Ensures-if (not (valid chunk_id.value)) _ _ s
        (λ absent. Ensures-some (bad_id refl refl (ground arith), refl))
        (λ there. head-Ensures os laws root chunk_id s)

  HeadOutcome-AtHead :
      (chunk_id : ChunkId) (f : Fs) (r : StatusOr HeadChunkResponse) (head : HeadChunkResponse)
      → HeadOutcome root chunk_id f r
      → (head_result (grpc_status_ok, head_message r.held_status r.held_value)).held_value
        ≡ some head
      → AtHead root chunk_id f head
  HeadOutcome-AtHead chunk_id f r head (bad_id e why bad) h =
      absurd (no_head r.held_status head (ap is_k_ok why) (rw e at h))
  HeadOutcome-AtHead chunk_id f r head (io_failed e why) h =
      absurd (no_head r.held_status head (ap is_k_ok why) (rw e at h))
  HeadOutcome-AtHead chunk_id f r head (not_found e why absent) h =
      absurd (no_head r.held_status head (ap is_k_ok why) (rw e at h))
  HeadOutcome-AtHead chunk_id f r head (corrupt i e why named bad) h =
      absurd (no_head r.held_status head (ap is_k_ok why) (rw e at h))
  HeadOutcome-AtHead chunk_id f r head (found i e named well) h = record {
    source = i;
    stored = named;
    well_formed = well;
    report = a_head r.held_status head (reported chunk_id (f.bytes i)) (rw e at h);
  }

  pub head_rpc-Ensures :
      (chunk_id : ChunkId) (s : State)
      → Ensures (head_rpc (some (file_chunk_store os b root)) chunk_id.value s) (λ answer t.
        ((head : HeadChunkResponse)
          → (head_result answer).held_value ≡ some head
          → AtHead root chunk_id (fs s) head)
        × (fs t ≡ fs s))
  unfolding head_rpc
  head_rpc-Ensures chunk_id s = Ensures-bind _ (head_chunk-Ensures chunk_id s) λ r t outcome.
      Ensures-some (λ head h. HeadOutcome-AtHead chunk_id (fs s) r head outcome.0 h, outcome.1)

head_result-is_grpc_ok :
    (answer : GrpcStatus × HeadMessage) (head : HeadChunkResponse)
    → (head_result answer).held_value ≡ some head
    → is_grpc_ok answer.0.error_code ≡ true
unfolding head_result from_status
head_result-is_grpc_ok (grpc, response) head e = elim (Bool-cases (is_grpc_ok grpc.error_code)) [
  | inl fine ↦ fine
  | inr broken ↦ absurd (not_none (rw broken at e))
]

-- A client's HeadChunk that returns a value has been answered from the worker's chunk file, and has
-- changed none of the worker's files.
pub grpc_head-AtHead :
    (os worker_os : Posix) (b : Blake3) {N : Type 0} (stub : WorkerStub N) (root : List ℕ)
    (worker : N → worker_os.State) (worker_laws : IsDocumented worker_os)
    (wired : IsWiredUnary stub (file_chunk_store worker_os b root) worker) (to : WorkerEndpoint)
    (chunk_id : ChunkId) (s : os.State) (n : N)
    → Ensures (grpc_head os stub to chunk_id (s, n)) (λ r y.
      (head : HeadChunkResponse)
      → r.held_value ≡ some head
      → AtHead root chunk_id (worker_os.fs (worker n)) head
        × (worker_os.fs (worker y.1) ≡ worker_os.fs (worker n)))
unfolding grpc_head
grpc_head-AtHead os worker_os b stub root worker worker_laws wired to chunk_id s n =
    Ensures-some λ head e.
      let answer = (stub.call_head (target os to) chunk_id.value n).0 in
      let handled =
        Ensures-of (head_rpc-Ensures worker_os worker_laws b root chunk_id (worker n)) (
          wired.head_runs (target os to) chunk_id.value n (head_result-is_grpc_ok answer head e)) in
      (handled.0 head e, handled.1)
