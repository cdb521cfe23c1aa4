-- ===== src/Client/Grpc/Upload.antt =====
-- What GrpcDataPlaneClient::PutChunk sends, and that it leaves the client's files alone.
use distributed_cache_system.Prelude.{
  ℕ, ◌+◌, ◌-◌, ◌≡◌, refl, ap, ◌∙◌, true, false, Option, none, some, length, arith,
}
use distributed_cache_system.Prelude.Action.{
  ◌>>=◌, Ensures, Ensures-some, Ensures-if, Ensures-bind, Ensures-on_first,
}
use distributed_cache_system.Prelude.Maps.{update_self, update-update}
use distributed_cache_system.Status.{Status, status, is_ok}
use distributed_cache_system.Types.{PutChunkRequest, WorkerEndpoint}
use distributed_cache_system.Posix.{
  ℤ, is_nonneg, FilePath, Fs, Opened, file, directory, read_only, Posix, with_opened, int_eq,
}
use distributed_cache_system.Posix.Appending.{close_opened}
use distributed_cache_system.Posix.Documented.{
  IsDocumented, IsOpenOn, SourceOutcome, no_source, source_directory, source_file,
}
use distributed_cache_system.UniqueFd.Ownership.{destroy-Ensures}
use distributed_cache_system.Rpc.Codes.Errors.{from_grpc_status-ok}
use distributed_cache_system.Client.Reads.{rounds_left}
use distributed_cache_system.Client.Stub.{WorkerStub}
use distributed_cache_system.Client.Grpc.{
  target, metadata_frame, send_loop, finish_upload, after_send, upload, put_source, grpc_put,
}
use distributed_cache_system.Client.Grpc.Sending.{
  Uploaded, metadata_refused, uploaded, LoopEnd, send_loop-Ensures, send_loop-directory,
}

-- A source that is open, of either kind.
SourceOutcome-open :
    {f g : Fs} {path : FilePath} {fd : ℤ}
    → is_nonneg fd ≡ true
    → SourceOutcome f path fd g
    → (o : Option Opened) × (f.opened fd ≡ none) × (g ≡ with_opened f fd o)
SourceOutcome-open good (no_source bad g) = cc
SourceOutcome-open good (source_directory _ free g) = (some directory, free, g)
SourceOutcome-open good (source_file i _ named free g) = (some (file i 0), free, g)

SourceOutcome-refused :
    {f g : Fs} {path : FilePath} {fd : ℤ} → is_nonneg fd ≡ false → SourceOutcome f path fd g → g ≡ f
SourceOutcome-refused bad (no_source _ g) = g
SourceOutcome-refused bad (source_directory good free g) = cc
SourceOutcome-refused bad (source_file i good named free g) = cc

module _ (os : Posix) (laws : IsDocumented os) {N : Type 0} (stub : WorkerStub N) (fd : ℤ) where
  open os use {State, fs}

  module _ (request : PutChunkRequest) (path : FilePath) (f : Fs) (n : N) where
    -- OK tells of an upload.
    abbrev Told : Status → N → Type 0
    Told st last = is_ok st ≡ true → Uploaded stub request path f n last

    -- PutChunk before ~UniqueFd: the descriptor is open at some position.
    abbrev UploadEnd : Status → Fs → N → Type 0
    UploadEnd st g last = (o : Option Opened) × (g ≡ with_opened f fd o) × Told st last

    after_send-Ensures :
        (i : ℕ) (s : State) (m : N) (r : Option Status) (o : Option Opened) {g : Fs}
        → f.entry path ≡ some i
        → (stub.write_frame (metadata_frame request) n).0 ≡ true
        → g ≡ with_opened f fd o
        → LoopEnd stub g fd (f.bytes i) (stub.write_frame (metadata_frame request) n).1 r (fs s) m
        → Ensures (after_send os stub r (s, m)) (λ st t. UploadEnd st (fs t.0) t.1)
    unfolding after_send finish_upload
    after_send-Ensures i s m (some st) o named taken p e = Ensures-some (
      e.position,
      e.result ∙ rw (p, update-update f.opened fd o e.position) refl,
      λ okay. absurd (cc (okay, e.failed st refl)),
    )
    after_send-Ensures i s m none o named taken p e =
        let (whole, sent) = e.sends refl in
        Ensures-some (
          e.position,
          e.result ∙ rw (p, update-update f.opened fd o e.position) refl,
          λ okay. uploaded i whole m named taken sent okay refl,
        )

    -- The loop and what follows it, on what the source's path names.
    send-Ensures :
        (s : State) (m : N)
        → is_nonneg fd ≡ true
        → SourceOutcome f path fd (fs s)
        → (stub.write_frame (metadata_frame request) n).0 ≡ true
        → (stub.write_frame (metadata_frame request) n).1 ≡ m
        → Ensures
            ((send_loop os stub (rounds_left (fs s) ((fs s).opened fd) + 1) fd
                >>= after_send os stub)
              (s, m))
            (λ st t. UploadEnd st (fs t.0) t.1)
    unfolding after_send
    send-Ensures s m good (no_source bad g) taken e = cc
    send-Ensures s m good (source_directory _ free g) taken e =
        let there : (fs s).opened fd ≡ some directory =
          rw g (update_self f.opened fd (some directory)) in
        rw there (
          Ensures-bind _ (send_loop-directory os laws stub fd s m there) λ r t ended.
            rw ended.0.1
              (Ensures-some (some directory, ended.1 ∙ g, λ okay. absurd (cc (okay, ended.0.2)))))
    send-Ensures s m good (source_file i _ named free g) taken e =
        let there : IsOpenOn (fs s) fd i 0 = rw g (update_self f.opened fd (some (file i 0))) in
        let same : (fs s).bytes i ≡ f.bytes i = ap (λ (f : Fs). f.bytes i) g in
        rw (there) (
          Ensures-bind _
            (send_loop-Ensures os laws stub fd (length ((fs s).bytes i) - 0 + 1) 0 s m i there
              (omega arith) (omega arith))
            λ r t ended.
              after_send-Ensures i t.0 t.1 r (some (file i 0)) named taken g
                (rw (← e, same) at ended))

    upload-Ensures :
        (s : State)
        → is_nonneg fd ≡ true
        → SourceOutcome f path fd (fs s)
        → Ensures (upload os stub request fd (s, n)) (λ st t. UploadEnd st (fs t.0) t.1)
    unfolding upload
    upload-Ensures s good outcome =
        let m = (stub.write_frame (metadata_frame request) n).1 in
        Ensures-if (stub.write_frame (metadata_frame request) n).0 _ _ (s, m)
          (λ taken. send-Ensures s m good outcome taken refl)
          (λ not_taken.
            let (o, free, g) = SourceOutcome-open good outcome in
            Ensures-some (
              o,
              g,
              λ okay.
                  metadata_refused not_taken
                    (from_grpc_status-ok (stub.finish_put (stub.writes_done m)).0.0 okay) refl,
            ))

module _ (os : Posix) (laws : IsDocumented os) {N : Type 0} (stub : WorkerStub N)
    (to : WorkerEndpoint) (request : PutChunkRequest) (path : FilePath) where
  open os use {State, fs, open_file}

  put_source-Ensures :
      (fd : ℤ) (s t : State) (n : N)
      → SourceOutcome (fs s) path fd (fs t)
      → Ensures (put_source os stub to request fd (t, n)) (λ st u.
        (fs u.0 ≡ fs s)
        × (is_ok st ≡ true
            → Uploaded stub request path (fs s) (stub.start_put (target os to) n) u.1))
  unfolding put_source status
  put_source-Ensures fd s t n outcome =
      Ensures-if (is_nonneg fd) _ _ (t, n)
        (λ good.
          let (o, free, g) = SourceOutcome-open good outcome in
          Ensures-bind _
            (upload-Ensures os laws stub fd request path (fs s) (stub.start_put (target os to) n) t
              good outcome)
            λ st u ended.
              Ensures-bind _ (Ensures-on_first u.1 (destroy-Ensures os laws fd u.0 good))
                λ x v closed.
                  Ensures-some
                    (closed.0.1 ∙ close_opened fd ended.0 free ended.1, rw closed.1 ended.2))
        (λ bad. Ensures-some (SourceOutcome-refused bad outcome, λ okay. cc))

  -- With an operating system that behaves as documented, the client's PutChunk ends, whatever
  -- reads are short or interrupted, and leaves files and descriptors as they were. Where it returns
  -- OK, one of two things has happened. Either gRPC took the metadata, the frames then sent, in
  -- order, the bytes of the file that the source names, all of them or up to a frame that gRPC
  -- refused, and both the call and the worker's response ended with OK. Or gRPC refused the
  -- metadata, no further frame was written, and the call ended with OK; the statement then says
  -- nothing of the worker's response and of the source.
  pub grpc_put-Ensures :
      (s : State) (n : N)
      → Ensures (grpc_put os stub to request path (s, n)) (λ st t.
        (fs t.0 ≡ fs s)
        × (is_ok st ≡ true
            → Uploaded stub request path (fs s) (stub.start_put (target os to) n) t.1))
  unfolding grpc_put
  grpc_put-Ensures s n =
      put_source-Ensures (open_file path read_only s).0 s (open_file path read_only s).1 n
        (laws.open_read path s)
