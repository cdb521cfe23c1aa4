-- ===== src/Worker/FileChunkStore/Put/Fill.antt =====
-- Put up to fdatasync: either it gives up, or the open file holds the whole verified chunk.
use distributed_cache_system.Prelude.{
  ℕ, ◌+◌, ◌≡◌, refl, subst, ◌∙◌, inl, inr, Bool-cases, false, not, List, [], ◌++◌, append-nil, ◌==◌,
  length, same_bytes, same_bytes→eq, arith,
}
use distributed_cache_system.Prelude.Action.{
  Ensures, Ensures-some, Ensures-if, Ensures-bind, Ensures_mono, Ensures-on_first, Ensures_at,
}
use distributed_cache_system.Status.{Status, status, is_ok}
use distributed_cache_system.Types.{PutChunkRequest}
use distributed_cache_system.Posix.{ℤ, FilePath, Fs, Posix, appended}
use distributed_cache_system.Posix.Documented.{IsDocumented, IsAppending}
use distributed_cache_system.Blake3.{Blake3, IsBlake3}
use distributed_cache_system.Worker.Streams.{InputStream, IsHonest, Delivers}
use distributed_cache_system.Worker.Calls.WriteLaws.{write_all-Ensures}
use distributed_cache_system.Worker.Names.{finalize_hex}
use distributed_cache_system.Worker.Header.{make_header}
use distributed_cache_system.Worker.FileChunkStore.Put.{
  k_buffer_size, Received, stopped, complete, Filled, abandoned, filled, io_error, receive_loop,
  check_received, receive_file, fill_file,
}
use distributed_cache_system.Worker.FileChunkStore.Put.Loop.{
  LoopEnd, loop_stopped, loop_complete, receive_loop-Ensures,
}

-- The chunk that the request describes.
pub record IsChunk (b : Blake3) (request : PutChunkRequest) (chunk : List ℕ) : Type 0 where
  pub size : length chunk ≡ request.expected_size
  pub checksum : finalize_hex b (b.update b.init chunk) ≡ request.expected_checksum.value

-- The contents of a chunk file.
abbrev pub chunk_file : PutChunkRequest → List ℕ → List ℕ
chunk_file request chunk = make_header request.expected_size request.expected_checksum ++ chunk

module _ (os : Posix) (laws : IsDocumented os) (b : Blake3) (hashes : IsBlake3 b) where
  open os use {State, fs}

  module _ {W : Type 0} (input : InputStream W) (honest : IsHonest input)
      (request : PutChunkRequest) where
    pub data FillEnd (base : Fs) (fd : ℤ) (i : ℕ) (w : W) (r : Filled) (g : Fs) (w' : W)
        : Type 0 where
      fill_abandoned :
          (d : List ℕ) (st : Status)
          → r ≡ abandoned st
          → is_ok st ≡ false
          → g ≡ appended base fd i d
          → FillEnd base fd i w r g w'
      fill_filled :
          (chunk : List ℕ)
          → r ≡ filled
          → g ≡ appended base fd i (chunk_file request chunk)
          → IsChunk b request chunk
          → Delivers input k_buffer_size w chunk w'
          → FillEnd base fd i w r g w'

    module _ (base : Fs) (fd : ℤ) (i : ℕ) (temp : FilePath) where
      check_received-Ensures :
          (s : State) (w w' : W) (r : Received b.Hasher)
          → LoopEnd os laws b hashes input request base fd i
              (make_header request.expected_size request.expected_checksum)
              []
              w
              r
              (fs s)
              w'
          → Ensures
              (check_received os b input request fd temp r s)
              (λ x t. FillEnd base fd i w x (fs t) w')
      unfolding check_received status io_error
      check_received-Ensures s w w' (stopped st) (loop_stopped d st' e bad g) =
          Ensures-some (fill_abandoned d st refl (ground arith) g)
      check_received-Ensures s w w' (stopped st) (loop_complete all e g given fits) = cc
      check_received-Ensures s w w' (complete h n) (loop_stopped d st' e bad g) = cc
      check_received-Ensures s w w' (complete h n) (loop_complete all e g given fits) =
          Ensures-if (not (n == request.expected_size)) _ _ s
            (λ short. Ensures-some (fill_abandoned _ _ refl refl g))
            (λ long.
              Ensures-if (not (same_bytes (finalize_hex b h) request.expected_checksum.value)) _ _ s
                (λ differ. Ensures-some (fill_abandoned _ _ refl refl g))
                (λ same. elim (Bool-cases (os.fdatasync fd s).0) [
                  | inl synced ↦ rw synced (
                      Ensures-some (
                        fill_filled all refl g'
                          (record {
                            size = ground arith;
                            checksum = same_bytes→eq _ _ (ground arith);
                          })
                          given))
                  | inr lost ↦ rw lost (Ensures-some (fill_abandoned _ _ refl refl g'))
                ]))
        where
          g' : fs (os.fdatasync fd s).1 ≡ appended base fd i (chunk_file request all)
          g' = laws.fdatasync_fs fd s ∙ g

      -- The loop, from the header on.
      pub receive_all :
          (s : State) (w : W)
          → IsAppending base fd i
          → fs s ≡ appended base fd i (make_header request.expected_size request.expected_checksum)
          → Ensures
              (receive_loop os b input request (request.expected_size + 2) fd b.init 0 (s, w))
              (λ r u.
                LoopEnd os laws b hashes input request base fd i
                  (make_header request.expected_size request.expected_checksum)
                  []
                  w
                  r
                  (fs u.0)
                  u.1)
      receive_all s w h g =
          subst
            (λ x.
              Ensures (receive_loop os b input request (request.expected_size + 2) fd x 0 (s, w))
                (λ r u.
                  LoopEnd os laws b hashes input request base fd i
                    (make_header request.expected_size request.expected_checksum) [] w r (fs u.0)
                    u.1))
            hashes.update-nil
            (receive_loop-Ensures os laws b hashes input request base fd i
              (make_header request.expected_size request.expected_checksum) h honest
              (request.expected_size + 2) [] s w (rw append-nil g) (omega arith) (omega arith))

      receive_file-Ensures :
          (s : State) (w : W)
          → IsAppending base fd i
          → fs s ≡ appended base fd i (make_header request.expected_size request.expected_checksum)
          → Ensures
              (receive_file os b input request fd temp (s, w))
              (λ x t. FillEnd base fd i w x (fs t.0) t.1)
      unfolding receive_file
      receive_file-Ensures s w h g = Ensures-bind _ (receive_all s w h g) λ r u ended.
          Ensures_mono (Ensures-on_first u.1 (check_received-Ensures u.0 w u.1 r ended))
            λ x v done. rw done.1 done.0

      pub fill_file-Ensures :
          (s : State) (w : W)
          → fs s ≡ base
          → IsAppending base fd i
          → Ensures
              (fill_file os b input request fd temp (s, w))
              (λ x t. FillEnd base fd i w x (fs t.0) t.1)
      unfolding fill_file
      fill_file-Ensures s w g h =
          Ensures-bind _
            (Ensures-on_first w (
              write_all-Ensures os laws fd
                (make_header request.expected_size request.expected_checksum) s {i = i} (rw g h)))
            λ st t wrote.
              Ensures-if (is_ok st) _ _ t
                (λ okay.
                  Ensures_at (receive_file os b input request fd temp) t w wrote.1 (
                    receive_file-Ensures t.0 w h
                      (wrote.0.result ∙ rw (g, wrote.0.whole okay) refl)))
                (λ failed.
                  Ensures-some
                    (fill_abandoned wrote.0.added st refl failed (wrote.0.result ∙ rw g refl)))
