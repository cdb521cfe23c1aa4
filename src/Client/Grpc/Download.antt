-- ===== src/Client/Grpc/Download.antt =====
-- What GrpcDataPlaneClient::GetChunk leaves of the client's files.
use distributed_cache_system.Prelude.{
  ℕ, ◌≡◌, ◌≢◌, refl, ◌∙◌, Bool, true, false, if◌then◌else◌, Option, none, some, List, ◌==◌, arith,
}
use distributed_cache_system.Prelude.Action.{
  Ensures, Ensures-some, Ensures-if, Ensures-bind, Ensures_mono, Ensures-on_first,
}
use distributed_cache_system.Prelude.Maps.{update_self, update_ne, update-update}
use distributed_cache_system.Status.{Status, status, is_ok, k_already_exists, k_io_error}
use distributed_cache_system.Types.{GetChunkRequest, WorkerEndpoint}
use distributed_cache_system.Posix.{
  ℤ, is_nonneg, FilePath, Fs, Posix, create_new, created, appended, path_eq, nat_eq, int_eq,
}
use distributed_cache_system.Posix.Documented.{IsDocumented, CreateOutcome, refused, made}
use distributed_cache_system.Posix.Unlinking.{unlink-Unlinked}
use distributed_cache_system.Posix.Settling.{settled, settle_closed, settled_contents}
use distributed_cache_system.UniqueFd.{unique_fd, no_fd}
use distributed_cache_system.UniqueFd.Ownership.{destroy-Ensures, destroy-empty}
use distributed_cache_system.Rpc.Codes.{GrpcStatus, is_grpc_ok}
use distributed_cache_system.Rpc.Codes.Errors.{from_grpc_status-error}
use distributed_cache_system.Client.Stub.{WorkerStub, IsFinite}
use distributed_cache_system.Client.DataPlane.{Downloaded}
use distributed_cache_system.Client.Grpc.{
  target, fail, finish_download, fetch, get_created, grpc_get,
}
use distributed_cache_system.Client.Grpc.Receiving.{Received, receive_frames-Ensures}

-- The file that a GetChunk that succeeds has made holds what the call's frames hold, and the
-- call's Finish was OK.
pub record Delivered {N : Type 0} (stub : WorkerStub N) (path : FilePath) (n : N) (g : Fs)
    : Type 0 where
  pub number : ℕ
  pub contents : List ℕ
  pub finished : N
  pub named : g.entry path ≡ some number
  pub holds : g.bytes number ≡ contents
  pub received : Received stub n contents finished
  pub grpc_ok : is_grpc_ok (stub.finish_get finished).0.error_code ≡ true

-- How GetChunk ends: with the new file, or with an error.
abbrev DownloadEnd : Fs → FilePath → ℕ → Status → GrpcStatus → List ℕ → Status → Fs → Type 0
DownloadEnd f path i write_status grpc d st g =
    (x : Option ℕ) × (g ≡ settled f path x i d)
    × (is_ok st ≡ true
        → (x ≡ some i) × (is_ok write_status ≡ true) × (is_grpc_ok grpc.error_code ≡ true))

-- The status of a file that could not be made.
refusal-error :
    (taken : Bool) (m : List ℕ)
    → is_ok (status (if taken then k_already_exists else k_io_error) m) ≡ false
unfolding status
refusal-error true m = refl
refusal-error false m = refl

module _ (os : Posix) {N : Type 0} (stub : WorkerStub N) (to : WorkerEndpoint)
    (request : GetChunkRequest) where
  -- The state of the network once the call is made.
  abbrev pub called : N → N
  called n =
      stub.start_get (target os to)
        (record {
          chunk_id = request.chunk_id.value;
          offset = request.range.offset;
          size = request.range.size;
        })
        n

  -- The files are those of a download, which holds what the call's frames hold.
  abbrev pub GetOutcome : FilePath → Fs → N → Status → Fs → Type 0
  GetOutcome path f n st g =
      Downloaded path f st g × (is_ok st ≡ true → Delivered stub path (called n) g)

module _ (os : Posix) (laws : IsDocumented os) {N : Type 0} (stub : WorkerStub N) where
  open os use {State, fs, errno, eexist, fdatasync, unlink, open_file}

  module _ (f : Fs) (path : FilePath) (i : ℕ) (fd : ℤ) (good : is_nonneg fd ≡ true)
      (free : f.opened fd ≡ none) where
    fail-Ensures :
        (st : Status) (d : List ℕ) (s : State)
        → fs s ≡ appended (created f path i fd) fd i d
        → Ensures
            (fail os path (unique_fd fd) st s)
            (λ r t. (r ≡ st) × (x : Option ℕ) × (fs t ≡ settled f path x i d))
    unfolding fail
    fail-Ensures st d s g = Ensures-bind _ (destroy-Ensures os laws fd s good) λ u t closed.
        let v = unlink-Unlinked os laws path t in
        let g' : fs t ≡ settled f path (some i) i d =
          closed.1 ∙ rw g (settle_closed f path fd i d free) in
        rw (closed.0, destroy-empty os no_fd (unlink path t).1 refl)
          (Ensures-some
            (refl, v.left, v.result ∙ rw (g', update-update f.entry path (some i)) refl))

    fail_end :
        (write_status : Status) (grpc : GrpcStatus) (st : Status) (d : List ℕ) (s : State)
        → fs s ≡ appended (created f path i fd) fd i d
        → is_ok st ≡ false
        → Ensures
            (fail os path (unique_fd fd) st s)
            (λ st t. DownloadEnd f path i write_status grpc d st (fs t))
    fail_end write_status grpc st d s g bad =
        Ensures_mono (fail-Ensures st d s g) λ r t e. (e.1, e.2, λ okay. cc)

    finish_download-Ensures :
        (write_status : Status) (grpc : GrpcStatus) (d : List ℕ) (s : State)
        → fs s ≡ appended (created f path i fd) fd i d
        → Ensures
            (finish_download os path fd write_status grpc s)
            (λ st t. DownloadEnd f path i write_status grpc d st (fs t))
    unfolding finish_download status
    finish_download-Ensures write_status grpc d s g =
        Ensures-if (is_ok write_status) _ _ s
          (λ written.
            Ensures-if (is_grpc_ok grpc.error_code) _ _ s
              (λ fine.
                let t = (fdatasync fd s).1 in
                let g' : fs t ≡ appended (created f path i fd) fd i d =
                  laws.fdatasync_fs fd s ∙ g in
                Ensures-if (fdatasync fd s).0 _ _ t
                  (λ synced. Ensures-bind _ (destroy-Ensures os laws fd t good) λ u v closed.
                    Ensures-some (
                      some i,
                      closed.1 ∙ rw g' (settle_closed f path fd i d free),
                      λ okay. (refl, written, fine),
                    ))
                  (λ unsynced. fail_end write_status grpc _ d t g' refl))
              (λ broken. fail_end write_status grpc _ d s g (from_grpc_status-error grpc broken)))
          (λ unwritten. fail_end write_status grpc write_status d s g unwritten)

  module _ (finite : IsFinite stub) (to : WorkerEndpoint) (request : GetChunkRequest)
      (path : FilePath) where
    downloaded :
        (f : Fs) (i : ℕ) (n m : N) (write_status st : Status) (d : List ℕ) {g : Fs}
        → f.entry path ≡ none
        → ((q : FilePath) → f.entry q ≢ some i)
        → (is_ok write_status ≡ true → Received stub (called os stub to request n) d m)
        → DownloadEnd f path i write_status (stub.finish_get m).0 d st g
        → GetOutcome os stub to request path f n st g
    downloaded f i n m write_status st d {g} unnamed fresh whole e = (
      record {
        others = λ q distinct. rw e.1 (update_ne f.entry path q e.0 distinct);
        contents = λ q j named. rw e.1 (settled_contents f i fresh d q j named);
        descriptors = rw e.1 refl;
        created = λ okay. (i, unnamed, named okay, fresh);
      },
      λ okay. record {
        number = i;
        contents = d;
        finished = m;
        named = named okay;
        holds = rw e.1 (update_self f.bytes i d);
        received = whole (e.2 okay).1;
        grpc_ok = (e.2 okay).2;
      },
    )
      where
        named : is_ok st ≡ true → g.entry path ≡ some i
        named okay = rw e.1 (update_self f.entry path e.0 ∙ (e.2 okay).0)

    not_downloaded :
        (f : Fs) (n : N) {st : Status} {g : Fs}
        → g ≡ f
        → is_ok st ≡ false
        → GetOutcome os stub to request path f n st g
    not_downloaded f n e bad = rw e (
      record {
        others = λ q distinct. refl;
        contents = λ q j named. refl;
        descriptors = refl;
        created = λ okay. cc;
      },
      λ okay. cc,
    )

    fetch-Ensures :
        (f : Fs) (i : ℕ) (fd : ℤ) (good : is_nonneg fd ≡ true) (free : f.opened fd ≡ none)
        → f.entry path ≡ none
        → ((q : FilePath) → f.entry q ≢ some i)
        → (s : State) (n : N) → fs s ≡ created f path i fd
        → Ensures
            (fetch os stub to request path fd (s, n))
            (λ st t. GetOutcome os stub to request path f n st (fs t.0))
    unfolding fetch
    fetch-Ensures f i fd good free unnamed fresh s n g =
        Ensures-bind _
          (receive_frames-Ensures os laws stub fd i finite _ s (called os stub to request n)
            (rw (g, update_self f.bytes i, update_self f.opened fd) refl) (omega arith))
          λ write_status t e.
            Ensures_mono
              (Ensures-on_first (stub.finish_get t.1).1 (
                finish_download-Ensures f path i fd good free write_status (stub.finish_get t.1).0
                  e.added t.0 (rw g at e.result)))
              λ st u ended.
                downloaded f i n t.1 write_status st e.added unnamed fresh e.whole ended.0

    -- With an operating system that behaves as documented and a call of finitely many frames, the
    -- client's GetChunk ends. It touches no file but that at the destination, keeps the bytes of
    -- every other and closes what it opens. Where it returns OK, the destination was free, it
    -- names a new file that holds what all the call's frames hold, and the call ended with OK.
    pub grpc_get-Ensures :
        (s : State) (n : N)
        → Ensures
            (grpc_get os stub to request path (s, n))
            (λ st t. GetOutcome os stub to request path (fs s) n st (fs t.0))
    unfolding grpc_get get_created
    grpc_get-Ensures s n = go (open_file path create_new s).0 refl (laws.open_create path s)
      where
        t : State
        t = (open_file path create_new s).1

        go :
            (fd : ℤ)
            → (open_file path create_new s).0 ≡ fd
            → CreateOutcome (fs s) path fd (fs t)
            → Ensures
                (grpc_get os stub to request path (s, n))
                (λ st u. GetOutcome os stub to request path (fs s) n st (fs u.0))
        go fd e (refused bad g) = rw (e) (
            Ensures-if (is_nonneg fd) _ _ (t, n) (λ good. cc)
              (λ _. Ensures-some (not_downloaded (fs s) n g (refusal-error (errno t == eexist) _))))
        go fd e (made i good unnamed fresh free g) = rw (e) (
            Ensures-if (is_nonneg fd) _ _ (t, n)
              (λ _. fetch-Ensures (fs s) i fd good free unnamed fresh t n g) (λ bad. cc))
