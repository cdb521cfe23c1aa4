-- ===== src/Worker/FileChunkStore/Put/Filling.antt =====
-- Put from the header to fdatasync, of a chunk that fits the request, where no call fails.
use distributed_cache_system.Prelude.{
  ℕ, ◌+◌, ◌≡◌, refl, ap, ◌∙◌, true, not, List, [], ◌==◌, length, same_bytes, same_bytes_refl, arith,
}
use distributed_cache_system.Prelude.Action.{
  Ensures, Ensures-some, Ensures-if, Ensures-bind, Ensures_mono, Ensures-on_first, Ensures_at,
  Ensures_returned, Ensures-of,
}
use distributed_cache_system.Status.{is_ok}
use distributed_cache_system.Types.{PutChunkRequest}
use distributed_cache_system.Posix.{ℤ, FilePath, Fs, Posix, appended}
use distributed_cache_system.Posix.Documented.{IsDocumented, IsAppending, IsOpenOn}
use distributed_cache_system.Posix.Appending.{appended-IsAppending}
use distributed_cache_system.Blake3.{Blake3, IsBlake3}
use distributed_cache_system.Worker.Streams.{InputStream, IsHonest, Delivers}
use distributed_cache_system.Worker.Names.{finalize_hex}
use distributed_cache_system.Worker.Calls.Progress.{IsTaking, write_all-ok}
use distributed_cache_system.Worker.Header.{make_header}
use distributed_cache_system.Worker.FileChunkStore.Put.{
  k_buffer_size, Received, stopped, complete, filled, check_received, receive_file, fill_file,
}
use distributed_cache_system.Worker.FileChunkStore.Put.Loop.{LoopEnd, loop_stopped, loop_complete}
use distributed_cache_system.Worker.FileChunkStore.Put.Fill.{IsChunk, receive_all}
use distributed_cache_system.Worker.FileChunkStore.Put.Progress.{
  IsBounded, is_complete, Delivers-unique, receive_loop_complete,
}

-- fdatasync of an open file succeeds.
abbrev pub IsSyncing : Posix → Type 0
IsSyncing os =
    (fd : ℤ) (s : os.State) (i p : ℕ) → IsOpenOn (os.fs s) fd i p → (os.fdatasync fd s).0 ≡ true

digest_differs : (xs ys : List ℕ) → not (same_bytes xs ys) ≡ true → xs ≡ ys → ⊥
digest_differs xs ys differ e = ground (arith, same_bytes_refl xs, ap (same_bytes xs) e)

module _ (os : Posix) (laws : IsDocumented os) (taking : IsTaking os) (syncing : IsSyncing os)
    (b : Blake3) (hashes : IsBlake3 b) {W : Type 0} (input : InputStream W)
    (honest : IsHonest input) (bounded : IsBounded input) (request : PutChunkRequest)
    (chunk : List ℕ) (chunk_is : IsChunk b request chunk) {w w' : W}
    (delivered : Delivers input k_buffer_size w chunk w') (base : Fs) (fd : ℤ) (i : ℕ)
    (temp : FilePath) where
  open os use {State, fs, fdatasync}

  check_received-filled :
      (r : Received b.Hasher) (s : State) (v : W)
      → is_complete r ≡ true
      → LoopEnd os laws b hashes input request base fd i
          (make_header request.expected_size request.expected_checksum)
          []
          w
          r
          (fs s)
          v
      → Ensures (check_received os b input request fd temp r s) (λ x t. x ≡ filled)
  unfolding check_received
  check_received-filled (stopped st) s v all (loop_stopped d st' e bad g) = cc
  check_received-filled (stopped st) s v all (loop_complete got e g given fits) = cc
  check_received-filled (complete h n) s v all (loop_stopped d st' e bad g) = cc
  check_received-filled (complete h n) s v all (loop_complete got e g given fits) =
      let same : got ≡ chunk = Delivers-unique given delivered in
      let hash : h ≡ b.update b.init got = cc in
      let agrees : finalize_hex b h ≡ request.expected_checksum.value =
        rw (hash, same) chunk_is.checksum in
      Ensures-if (not (n == request.expected_size)) _ _ s
        (λ short. absurd (ground (arith, ap length same, chunk_is.size)))
        (λ long.
          Ensures-if (not (same_bytes (finalize_hex b h) request.expected_checksum.value)) _ _ s
            (λ differ.
              absurd
                (digest_differs (finalize_hex b h) request.expected_checksum.value differ agrees))
            (λ agree.
              rw
                (syncing fd s i (length ((fs s).bytes i)) (rw g (appended-IsAppending base fd i _)))
                (Ensures-some refl)))

  receive_file-filled :
      (s : State)
      → IsAppending base fd i
      → fs s ≡ appended base fd i (make_header request.expected_size request.expected_checksum)
      → Ensures (receive_file os b input request fd temp (s, w)) (λ x t. x ≡ filled)
  unfolding receive_file
  receive_file-filled s appending g =
      Ensures-bind _
        (Ensures_returned (
          receive_loop_complete os laws taking b input bounded request fd i
            (request.expected_size + 2) b.init 0 s (rw g (appended-IsAppending base fd i _))
            delivered (omega (arith, chunk_is.size)) (omega (arith, chunk_is.size))))
        λ r u all.
          Ensures_mono
            (Ensures-on_first u.1 (
              check_received-filled r u.0 u.1 all.0 (
                Ensures-of
                  (receive_all os laws b hashes input honest request base fd i temp s w appending g)
                  all.1)))
            λ x v done. done.0

  pub fill_file-filled :
      (s : State)
      → fs s ≡ base
      → IsAppending base fd i
      → Ensures (fill_file os b input request fd temp (s, w)) (λ x t. x ≡ filled)
  unfolding fill_file
  fill_file-filled s g appending =
      Ensures-bind _
        (Ensures-on_first w (
          write_all-ok os laws taking fd
            (make_header request.expected_size request.expected_checksum) s i (rw g appending)))
        λ st t wrote.
          Ensures-if (is_ok st) _ _ t
            (λ okay.
              Ensures_at (receive_file os b input request fd temp) t w wrote.1
                (receive_file-filled t.0 appending (wrote.0.1 ∙ rw g refl)))
            (λ failed. cc)
