-- ===== src/Client/Grpc/Receiving.antt =====
-- What the loop of GrpcDataPlaneClient::GetChunk writes.
use distributed_cache_system.Prelude.{
  ℕ, zero, suc, ◌<◌, ◌≡◌, refl, ap, ◌∙◌, true, Option, none, some, List, ◌++◌, [], arith,
}
use distributed_cache_system.Prelude.Action.{
  Action, Ensures, Ensures-some, Ensures-if, Ensures-bind, Ensures_mono, Ensures-on_first,
  Ensures_at,
}
use distributed_cache_system.Status.{Status, is_ok}
use distributed_cache_system.Posix.{ℤ, Fs, Posix, appended, path_eq, nat_eq, int_eq}
use distributed_cache_system.Posix.Documented.{IsDocumented, IsAppending}
use distributed_cache_system.Posix.Appending.{appended-appended, appended-nil, appended-IsAppending}
use distributed_cache_system.Worker.Calls.WriteLaws.{write_all-Ensures}
use distributed_cache_system.Client.Stub.{WorkerStub, IsFinite}
use distributed_cache_system.Client.Grpc.{write_data, receive_frame, receive_frames}

-- The frames of a call, read until the reader has no more, hold these bytes.
pub data Received {N : Type 0} (stub : WorkerStub N) : N → List ℕ → N → Type 0 where
  no_frame : (n : N) → (stub.read_data n).0 ≡ none → Received stub n [] (stub.read_data n).1
  next_frame :
      (n : N) (bytes rest : List ℕ) (m : N)
      → (stub.read_data n).0 ≡ some bytes
      → Received stub (stub.read_data n).1 rest m
      → Received stub n (bytes ++ rest) m

-- The loop has appended some bytes to the file, and where it ends well it has received just these.
pub record FramesEnd {N : Type 0} (stub : WorkerStub N) (f : Fs) (fd : ℤ) (i : ℕ) (n : N)
    (st : Status) (g : Fs) (m : N) : Type 0 where
  pub added : List ℕ
  pub result : g ≡ appended f fd i added
  pub whole : is_ok st ≡ true → Received stub n added m

FramesEnd-cons :
    {N : Type 0} (stub : WorkerStub N) (f : Fs) {g h : Fs} (fd : ℤ) (i : ℕ) (n : N) {m : N}
    {st : Status} (bytes : List ℕ)
    → g ≡ appended f fd i bytes
    → (stub.read_data n).0 ≡ some bytes
    → FramesEnd stub g fd i (stub.read_data n).1 st h m
    → FramesEnd stub f fd i n st h m
FramesEnd-cons stub f fd i n {m} bytes p e rest = record {
  added = bytes ++ rest.added;
  result =
      rest.result
      ∙ ap (λ k. appended k fd i rest.added) p
      ∙ appended-appended f fd i bytes rest.added;
  whole = λ o. next_frame n bytes rest.added m e (rest.whole o);
}

module _ (os : Posix) (laws : IsDocumented os) {N : Type 0} (stub : WorkerStub N) where
  open os use {State, fs, errno, eexist, fdatasync, unlink, open_file}

  module _ (fd : ℤ) (i : ℕ) where
    receive_frame-Ensures :
        (again : Action (State × N) Status) (r : Option (List ℕ)) (s : State) (n : N)
        → IsAppending (fs s) fd i
        → (stub.read_data n).0 ≡ r
        → ((t : State) (bytes : List ℕ)
            → r ≡ some bytes
            → IsAppending (fs t) fd i
            → Ensures
                (again (t, (stub.read_data n).1))
                (λ st u. FramesEnd stub (fs t) fd i (stub.read_data n).1 st (fs u.0) u.1))
        → Ensures
            (receive_frame os stub again fd r (s, (stub.read_data n).1))
            (λ st u. FramesEnd stub (fs s) fd i n st (fs u.0) u.1)
    unfolding receive_frame write_data
    receive_frame-Ensures again none s n h e next =
        Ensures-some
          (record { added = []; result = appended-nil (fs s) fd i h; whole = λ o. no_frame n e })
    receive_frame-Ensures again (some bytes) s n h e next =
        Ensures-bind _
          (Ensures-on_first (stub.read_data n).1 (write_all-Ensures os laws fd bytes s h))
          λ st t a.
            Ensures-if (is_ok st) _ _ t
              (λ good.
                let g : fs t.0 ≡ appended (fs s) fd i bytes =
                  a.0.result ∙ ap (λ d. appended (fs s) fd i d) (a.0.whole good) in
                Ensures_at again t (stub.read_data n).1 a.1 (
                  Ensures_mono (next t.0 bytes refl (rw g (appended-IsAppending (fs s) fd i bytes)))
                    λ st u rest. FramesEnd-cons stub (fs s) fd i n bytes g e rest))
              (λ bad.
                Ensures-some (record { added = a.0.added; result = a.0.result; whole = λ o. cc }))

    pub receive_frames-Ensures :
        (finite : IsFinite stub) (fuel : ℕ) (s : State) (n : N)
        → IsAppending (fs s) fd i
        → stub.frames_left n < fuel
        → Ensures
            (receive_frames os stub fuel fd (s, n))
            (λ st u. FramesEnd stub (fs s) fd i n st (fs u.0) u.1)
    unfolding receive_frames
    receive_frames-Ensures finite zero s n h enough = absurd (omega arith)
    receive_frames-Ensures finite (suc fuel) s n h enough =
        receive_frame-Ensures (receive_frames os stub fuel fd) (stub.read_data n).0 s n h refl
          λ t bytes e h'.
            receive_frames-Ensures finite fuel t (stub.read_data n).1 h'
              (omega (arith, finite n bytes e))
