-- ===== src/Client/Grpc/Sending.antt =====
-- What the loop of GrpcDataPlaneClient::PutChunk sends.
use distributed_cache_system.Prelude.{
  ℕ, zero, suc, ◌+◌, ◌-◌, ◌≤◌, ◌<◌, ◌≡◌, refl, sym, ap, ◌∙◌, Bool, true, false, Option, none, some,
  List, ◌++◌, [], ◌==◌, length, length-drop, length-take, take, drop, rest_after, drop_of_length_le,
  arith,
}
use mathlib.Core.Option.{some-injective}
use distributed_cache_system.Prelude.Action.{
  Action, Ensures, Ensures-some, Ensures-if, Ensures-bind, Ensures_mono, Ensures-on_first,
  Ensures_at,
}
use distributed_cache_system.Prelude.Maps.{update_self, update-update}
use distributed_cache_system.Status.{Status, status, is_ok}
use distributed_cache_system.Types.{PutChunkRequest}
use distributed_cache_system.Posix.{
  ℤ, FilePath, Fs, Opened, file, directory, Posix, with_opened, int_eq,
}
use distributed_cache_system.Posix.Documented.{
  IsDocumented, IsOpenOn, SequentialOutcome, not_read, advanced,
}
use distributed_cache_system.Rpc.Codes.{is_grpc_ok}
use distributed_cache_system.Rpc.Streams.{data_bytes}
use distributed_cache_system.Client.Reads.Laws.{
  same_position, not_none, ReadOn, read_nothing, read_on, SequentialOutcome-ReadOn,
  read_some-Ensures,
}
use distributed_cache_system.Client.Stub.{WorkerStub}
use distributed_cache_system.Client.Grpc.{
  k_buffer_size, call_status, metadata_frame, send_round, send_loop,
}

module _ {N : Type 0} (stub : WorkerStub N) where
  -- Frames that hold a prefix of these bytes were written: of all of them where the Boolean is
  -- true, or up to a frame that the writer has refused.
  pub data Sends : List ℕ → N → Bool → N → Type 0 where
    all_sent : (n : N) → Sends [] n true n
    frame_taken :
        (bytes rest : List ℕ) (n : N) (whole : Bool) (m : N)
        → (stub.write_frame (data_bytes bytes) n).0 ≡ true
        → Sends rest (stub.write_frame (data_bytes bytes) n).1 whole m
        → Sends (bytes ++ rest) n whole m
    frame_refused :
        (bytes rest : List ℕ) (n : N)
        → (stub.write_frame (data_bytes bytes) n).0 ≡ false
        → Sends (bytes ++ rest) n false (stub.write_frame (data_bytes bytes) n).1

  Sends-refused :
      {bytes all : List ℕ} {n : N} (rest : List ℕ)
      → bytes ++ rest ≡ all
      → (stub.write_frame (data_bytes bytes) n).0 ≡ false
      → Sends all n false (stub.write_frame (data_bytes bytes) n).1
  Sends-refused {bytes} {n} rest parts not_taken =
      rw (← parts) (frame_refused bytes rest n not_taken)

  -- How a PutChunk that returns OK has gone. Either the writer took the metadata, frames of the
  -- source followed, and the call's status and that of the response were OK; or it refused the
  -- metadata, no frame followed, and the call's status was OK: the code does not look at the
  -- response then. Finish was the last call.
  pub data Uploaded (request : PutChunkRequest) (path : FilePath) (f : Fs) (n last : N)
      : Type 0 where
    metadata_refused :
        (stub.write_frame (metadata_frame request) n).0 ≡ false
        → is_grpc_ok
            (stub.finish_put
              (stub.writes_done (stub.write_frame (metadata_frame request) n).1)).0.0.error_code
          ≡ true
        → last
          ≡ (stub.finish_put (stub.writes_done (stub.write_frame (metadata_frame request) n).1)).1
        → Uploaded request path f n last
    uploaded :
        (i : ℕ) (whole : Bool) (m : N)
        → f.entry path ≡ some i
        → (stub.write_frame (metadata_frame request) n).0 ≡ true
        → Sends (f.bytes i) (stub.write_frame (metadata_frame request) n).1 whole m
        → is_ok (call_status (stub.finish_put (stub.writes_done m)).0) ≡ true
        → last ≡ (stub.finish_put (stub.writes_done m)).1
        → Uploaded request path f n last

  -- The loop has moved the position, and it ends at the end of the file, at a frame that the
  -- writer refuses, or with an error.
  pub record LoopEnd (f : Fs) (fd : ℤ) (rest : List ℕ) (n : N) (r : Option Status) (g : Fs) (m : N)
      : Type 0 where
    pub position : Option Opened
    pub result : g ≡ with_opened f fd position
    pub sends : r ≡ none → (whole : Bool) × Sends rest n whole m
    pub failed : (st : Status) → r ≡ some st → is_ok st ≡ false

  LoopEnd-after :
      {f g h : Fs} {fd : ℤ} (o : Option Opened) {bytes rest all : List ℕ} {n m : N}
      {r : Option Status}
      → bytes ++ rest ≡ all
      → g ≡ with_opened f fd o
      → (stub.write_frame (data_bytes bytes) n).0 ≡ true
      → LoopEnd g fd rest (stub.write_frame (data_bytes bytes) n).1 r h m
      → LoopEnd f fd all n r h m
  LoopEnd-after {f} {fd} o {bytes} {rest} {n} {m} parts p taken e = record {
    position = e.position;
    result = e.result ∙ rw (p, update-update f.opened fd o e.position) refl;
    sends = λ q.
        let (whole, sent) = e.sends q in
        (whole, rw (← parts) (frame_taken bytes rest n whole m taken sent));
    failed = e.failed;
  }

module _ (os : Posix) (laws : IsDocumented os) {N : Type 0} (stub : WorkerStub N) (fd : ℤ) where
  open os use {State, fs}

  send_round-Ensures :
      (again : Action (State × N) (Option Status)) (i p : ℕ) (s t : State) (n : N)
      (r : Option (List ℕ))
      → IsOpenOn (fs s) fd i p
      → p ≤ length ((fs s).bytes i)
      → ReadOn (fs s) fd i p k_buffer_size r (fs t)
      → ((count : ℕ) (m : N)
          → 0 < count
          → p + count ≤ length ((fs s).bytes i)
          → fs t ≡ with_opened (fs s) fd (some (file i (p + count)))
          → Ensures
              (again (t, m))
              (λ r u. LoopEnd stub (fs t) fd (drop (p + count) ((fs s).bytes i)) m r (fs u.0) u.1))
      → Ensures
          (send_round os stub again r (t, n))
          (λ r u. LoopEnd stub (fs s) fd (drop p ((fs s).bytes i)) n r (fs u.0) u.1)
  unfolding send_round status
  send_round-Ensures again i p s t n r h le (read_nothing e g) next =
      rw (e, send_round)
        (Ensures-some (record {
          position = some (file i p);
          result = g ∙ sym (same_position (fs s) fd i p h);
          sends = λ q. cc;
          failed = λ st q. rw (← some-injective _ _ q) refl;
        }))
  send_round-Ensures again i p s t n r h le (read_on count e le' eof g) next =
      let contents = (fs s).bytes i in
      let got = take count (drop p contents) in
      let counted : length got ≡ count = omega (arith, length-take count (drop p contents)) in
      rw (e, send_round, counted)
        (Ensures-if (count == 0) _ _ (t, n)
          (λ empty. Ensures-some (record {
            position = some (file i (p + count));
            result = g;
            sends = λ q. (
              true,
              rw (drop_of_length_le p contents (eof (ground arith) (omega arith))) (all_sent n),
            );
            failed = λ st q. absurd (not_none q);
          }))
          (λ some_bytes.
            let m = (stub.write_frame (data_bytes got) n).1 in
            let parts = rest_after contents p count in
            (Ensures-if (stub.write_frame (data_bytes got) n).0 _ _ (t, m)
              (λ taken.
                Ensures_mono (next count m (ground arith) (omega (arith, length-drop p contents)) g)
                  λ r u ended. LoopEnd-after stub (some (file i (p + count))) parts g taken ended)
              (λ refused_frame. Ensures-some (record {
                position = some (file i (p + count));
                result = g;
                sends = λ q.
                    (false, Sends-refused stub (drop (p + count) contents) parts refused_frame);
                failed = λ st q. absurd (not_none q);
              })))))

  pub send_loop-Ensures :
      (fuel p : ℕ) (s : State) (n : N) (i : ℕ)
      → IsOpenOn (fs s) fd i p
      → p ≤ length ((fs s).bytes i)
      → length ((fs s).bytes i) - p < fuel
      → Ensures
          (send_loop os stub fuel fd (s, n))
          (λ r u. LoopEnd stub (fs s) fd (drop p ((fs s).bytes i)) n r (fs u.0) u.1)
  unfolding send_loop
  send_loop-Ensures zero p s n i h le enough = absurd (omega arith)
  send_loop-Ensures (suc fuel) p s n i h le enough =
      Ensures-bind _ (Ensures-on_first n (read_some-Ensures os laws fd k_buffer_size s))
        λ r t outcome. Ensures_at (send_round os stub (send_loop os stub fuel fd) r) t n outcome.1 (
          send_round-Ensures (send_loop os stub fuel fd) i p s t.0 n r h le
            (SequentialOutcome-ReadOn (fs s) fd i p k_buffer_size r (fs t.0) h outcome.0)
            λ count m pos_count le' g.
              let same : (fs s).bytes i ≡ (fs t.0).bytes i = ap (λ (f : Fs). f.bytes i) (sym g) in
              rw same (
                send_loop-Ensures fuel (p + count) t.0 m i
                  (rw g (update_self (fs s).opened fd (some (file i (p + count))))) (rw same at le')
                  (omega (arith, ap length same))))

  -- On a directory the first read fails.
  pub send_loop-directory :
      (s : State) (n : N)
      → (fs s).opened fd ≡ some directory
      → Ensures
          (send_loop os stub 1 fd (s, n))
          (λ r u. ((st : Status) × (r ≡ some st) × (is_ok st ≡ false)) × (fs u.0 ≡ fs s))
  unfolding send_loop status
  send_loop-directory s n h =
      Ensures-bind _ (Ensures-on_first n (read_some-Ensures os laws fd k_buffer_size s))
        λ r t outcome. go r t outcome.0
    where
      go :
          (r : Option (List ℕ)) (t : State × N)
          → SequentialOutcome (fs s) fd k_buffer_size r (fs t.0)
          → Ensures
              (send_round os stub (send_loop os stub 0 fd) r t)
              (λ r u. ((st : Status) × (r ≡ some st) × (is_ok st ≡ false)) × (fs u.0 ≡ fs s))
      go r t (not_read e g) = rw (e, send_round) (Ensures-some ((_, refl, refl), g))
      go r t (advanced i p n o e le le' eof g) = cc
