-- ===== src/Worker/FileChunkStore/Put/Success.antt =====
-- Put of a chunk that fits its request, where no call fails.
use distributed_cache_system.Prelude.{
  ℕ, ◌≡◌, ◌≢◌, refl, ◌∙◌, true, none, some, List, length-append, arith,
}
use distributed_cache_system.Prelude.Action.{
  Ensures, Ensures-some, Ensures-if, Ensures-bind, Ensures_mono, Ensures-on_first, Ensures_returned,
  Ensures-of,
}
use distributed_cache_system.Prelude.Maps.{update_self, update_ne}
use distributed_cache_system.Status.{Status, is_ok}
use distributed_cache_system.Types.{PutChunkRequest, validate_checksum}
use distributed_cache_system.Posix.{
  ℤ, is_nonneg, FilePath, create_new, Fs, Posix, created, appended, path_eq, nat_eq, int_eq,
}
use distributed_cache_system.Posix.Documented.{
  IsDocumented, CreateOutcome, refused, made, IsAppending,
}
use distributed_cache_system.Posix.Settling.{settled, settle_closed}
use distributed_cache_system.Blake3.{Blake3, IsBlake3}
use distributed_cache_system.UniqueFd.{unique_fd, no_fd}
use distributed_cache_system.UniqueFd.Ownership.{destroy-Ensures, destroy-empty}
use distributed_cache_system.Worker.Streams.{InputStream, IsHonest, Delivers}
use distributed_cache_system.Worker.Names.{validate_id, path_for, temp_path}
use distributed_cache_system.Worker.Names.Distinct.{temp_path-ne_self}
use distributed_cache_system.Worker.FileChunkStore.Put.{
  k_buffer_size, separator, path_string, Filled, filled, commit_file, after_fill, put_file, put_at,
  after_directories, put,
}
use distributed_cache_system.Worker.FileChunkStore.Put.Fill.{
  IsChunk, chunk_file, FillEnd, fill_abandoned, fill_filled, fill_file-Ensures,
}
use distributed_cache_system.Worker.FileChunkStore.Put.Outcome.{AtFinal, left_alone, stored}
use distributed_cache_system.Worker.FileChunkStore.Put.Atomic.{put-Ensures}
use distributed_cache_system.Worker.FileChunkStore.Put.Progress.{IsBounded, Delivers-unique}
use distributed_cache_system.Worker.FileChunkStore.Put.Filling.{fill_file-filled}
use distributed_cache_system.Worker.FileChunkStore.Put.Working.{Limits, Fits, IsWorking, commit-ok}

module _ (os : Posix) (laws : IsDocumented os) (root : List ℕ) (limits : Limits)
    (working : IsWorking os root limits) where
  open os use {State, fs, fsync, link, open_directory, open_file, create_directories}

  module _ (b : Blake3) (hashes : IsBlake3 b) {W : Type 0} (input : InputStream W)
      (honest : IsHonest input) (bounded : IsBounded input) (request : PutChunkRequest)
      (chunk : List ℕ) (chunk_is : IsChunk b request chunk) {w w' : W}
      (delivered : Delivers input k_buffer_size w chunk w') (temp final : FilePath)
      (distinct : temp ≢ final) (at_root : temp.directory ≡ root)
      (at_root' : final.directory ≡ root) (fits : Fits limits temp)
      (fits' : Fits limits final) where
    module _ (f : Fs) (unused : f.entry final ≡ none) (i : ℕ) (fd : ℤ) (good : is_nonneg fd ≡ true)
        (free : f.opened fd ≡ none) where
      commit_file-ok :
          (d : List ℕ) (s : State)
          → fs s ≡ appended (created f temp i fd) fd i d
          → Ensures
              (commit_file os b input request root temp final (unique_fd fd) s)
              (λ st t. is_ok st ≡ true)
      unfolding commit_file
      commit_file-ok d s g = Ensures-bind _ (destroy-Ensures os laws fd s good) λ u t closed.
          let g' : fs t ≡ settled f temp (some i) i d =
            closed.1 ∙ rw g (settle_closed f temp fd i d free) in
          Ensures-bind _
            (commit-ok os laws root limits working temp final request.chunk_id.value t i at_root
              at_root' fits' (rw g' (update_self f.entry temp (some i)))
              (rw g' (update_ne f.entry temp final (some i) distinct ∙ unused)))
            λ st v okay. rw (closed.0, destroy-empty os no_fd v refl) (Ensures-some okay)

      after_fill-ok :
          (r : Filled) (t : State × W) (v : W)
          → r ≡ filled
          → FillEnd os laws b hashes input honest request (created f temp i fd) fd i w r (fs t.0) v
          → Ensures
              (after_fill os b input request root temp final (unique_fd fd) r t)
              (λ st t. is_ok st ≡ true)
      unfolding after_fill
      after_fill-ok r t v full (fill_abandoned d st e bad g) = cc
      after_fill-ok r t v full (fill_filled got e g is given) = rw full (
          Ensures_mono (Ensures-on_first t.1 (commit_file-ok (chunk_file request got) t.0 g))
            λ st u okay. okay.0)

      put_file-ok :
          (s : State)
          → fs s ≡ created f temp i fd
          → Ensures
              (put_file os b input request root temp final (unique_fd fd) (s, w))
              (λ st t. is_ok st ≡ true)
      unfolding put_file
      put_file-ok s g =
          let appending : IsAppending (created f temp i fd) fd i =
            rw (update_self f.opened fd, update_self f.bytes i) refl in
          Ensures-bind _
            (Ensures_returned (
              fill_file-filled os laws working.taking working.syncing b hashes input honest bounded
                request chunk chunk_is delivered (created f temp i fd) fd i temp s g appending))
            λ r t full. after_fill-ok r t t.1 full.0 (
              Ensures-of
                (fill_file-Ensures os laws b hashes input honest request (created f temp i fd) fd i
                  temp s w g appending)
                full.1)

    module _ (s : State) (unused : (fs s).entry final ≡ none)
        (unmade : (fs s).entry temp ≡ none) where
      put_at-ok :
          (fd : ℤ)
          → (open_file temp create_new s).0 ≡ fd
          → CreateOutcome (fs s) temp fd (fs (open_file temp create_new s).1)
          → Ensures (put_at os b input request root temp final (s, w)) (λ st t. is_ok st ≡ true)
      unfolding put_at
      put_at-ok fd e (refused bad g) = cc (working.creates temp s at_root fits unmade)
      put_at-ok fd e (made i good absent fresh free g) = rw e (
          Ensures-if (is_nonneg fd) _ _ ((open_file temp create_new s).1, w)
            (λ _. put_file-ok (fs s) unused i fd good free (open_file temp create_new s).1 g)
            (λ bad. cc))

    after_directories-ok :
        (s : State)
        → (fs s).entry final ≡ none
        → (fs s).entry temp ≡ none
        → Ensures
            (after_directories os b input request root temp final
              (create_directories root s).0
              ((create_directories root s).1, w))
            (λ st t. is_ok st ≡ true)
    unfolding after_directories
    after_directories-ok s unused unmade =
        let t = (create_directories root s).1 in
        let same : fs t ≡ fs s = laws.create_directories_fs root s in
        rw (working.makes_root s) (
          put_at-ok t (rw same unused) (rw same unmade) (open_file temp create_new t).0 refl
            (laws.open_create temp t))

-- The final name is a prefix of the temporary one.
final-Fits :
    (os : Posix) (root : List ℕ) (limits : Limits) (address : ℕ) (final : FilePath)
    → final.directory ≡ root
    → Fits limits (temp_path os root final address)
    → Fits limits final
unfolding temp_path path_string
final-Fits os root limits address final at_root fits =
    let longer = length-append final.filename in
    record {
      name_fits = omega (arith, fits.name_fits, longer);
      path_fits =
          rw (at_root, length-append root, length-append (separator root))
            (omega
              (arith, fits.path_fits, longer, length-append root, length-append (separator root)));
    }

module _ (os : Posix) (laws : IsDocumented os) (b : Blake3) (hashes : IsBlake3 b) {W : Type 0}
    (input : InputStream W) (honest : IsHonest input) (bounded : IsBounded input)
    (request : PutChunkRequest) (root : List ℕ) (limits : Limits)
    (working : IsWorking os root limits) (address : ℕ) (chunk : List ℕ) {w w' : W} where
  put_succeeds :
      (s : os.State)
      → is_ok (validate_id request.chunk_id) ≡ true
      → is_ok (validate_checksum request.expected_checksum) ≡ true
      → IsChunk b request chunk
      → Delivers input k_buffer_size w chunk w'
      → Fits limits (temp_path os root (path_for root request.chunk_id) address)
      → (os.fs s).entry (path_for root request.chunk_id) ≡ none
      → (os.fs s).entry (temp_path os root (path_for root request.chunk_id) address) ≡ none
      → Ensures (put os b input request root address (s, w)) (λ st t. is_ok st ≡ true)
  unfolding put temp_path path_for
  put_succeeds s named valid chunk_is delivered fits unused unmade =
      let final = path_for root request.chunk_id in
      let temp = temp_path os root final address in
      Ensures-if (is_ok (validate_id request.chunk_id)) _ _ (s, w)
        (λ _.
          Ensures-if (is_ok (validate_checksum request.expected_checksum)) _ _ (s, w)
            (λ _.
              after_directories-ok os laws root limits working b hashes input honest bounded request
                chunk chunk_is delivered temp final (temp_path-ne_self os root final address) refl
                refl fits (final-Fits os root limits address final refl fits) s unused unmade)
            (λ bad. cc))
        (λ bad. cc)

  AtFinal-whole :
      {f g : Fs} {st : Status} {v : W} {final : FilePath}
      → is_ok st ≡ true
      → Delivers input k_buffer_size w chunk w'
      → AtFinal b request input final f w st g v
      → (i : ℕ) × (g.entry final ≡ some i) × (g.bytes i ≡ chunk_file request chunk)
  AtFinal-whole okay delivered (left_alone bad kept) = cc
  AtFinal-whole okay delivered (stored i got free named is chunk_is given) =
      let same : got ≡ chunk = Delivers-unique given delivered in (i, named, is ∙ rw same refl)

  -- With an operating system and a hash that behave as documented, a root that can be made, opened
  -- and written to and that holds regular files only, with space, hard links and descriptors to
  -- spare, and a stream that returns no more bytes than it is asked for: Put with a valid id and
  -- checksum returns OK where the stream delivers a chunk of the size and the checksum of the
  -- request, neither the final nor the temporary name is taken, and the temporary name, which is
  -- the longer one, is within NAME_MAX and its path within PATH_MAX, however short reads and
  -- writes are and whatever signals arrive. The final name then names a file that holds the header
  -- and the chunk.
  pub put-ok :
      (s : os.State)
      → is_ok (validate_id request.chunk_id) ≡ true
      → is_ok (validate_checksum request.expected_checksum) ≡ true
      → IsChunk b request chunk
      → Delivers input k_buffer_size w chunk w'
      → Fits limits (temp_path os root (path_for root request.chunk_id) address)
      → (os.fs s).entry (path_for root request.chunk_id) ≡ none
      → (os.fs s).entry (temp_path os root (path_for root request.chunk_id) address) ≡ none
      → Ensures (put os b input request root address (s, w)) (λ st t.
        (is_ok st ≡ true)
        × ((i : ℕ) × ((os.fs t.0).entry (path_for root request.chunk_id) ≡ some i)
            × ((os.fs t.0).bytes i ≡ chunk_file request chunk)))
  put-ok s named valid chunk_is delivered fits unused unmade =
      Ensures_mono
        (Ensures_returned (put_succeeds s named valid chunk_is delivered fits unused unmade))
        λ st t done. (
          done.0,
          AtFinal-whole done.0 delivered
              (Ensures-of (put-Ensures os laws b hashes input honest request root address s w)
                done.1).at_final,
        )
