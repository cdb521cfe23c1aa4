-- ===== src/Worker/FileChunkStore/Put/Atomic.antt =====
-- What Put leaves of the files, whatever fails on the way.
use distributed_cache_system.Prelude.{
  ℕ, ◌≡◌, ◌≢◌, refl, ◌∙◌, inl, inr, Bool-cases, true, false, Option, none, some, List, ◌==◌,
}
use distributed_cache_system.Prelude.Action.{
  Ensures, Ensures-some, Ensures-if, Ensures-bind, Ensures_mono, Ensures-on_first,
}
use distributed_cache_system.Prelude.Maps.{update_self, update-update}
use distributed_cache_system.Status.{Status, status, is_ok}
use distributed_cache_system.Types.{PutChunkRequest, validate_checksum}
use distributed_cache_system.Posix.{
  ℤ, is_nonneg, FilePath, create_new, Fs, Posix, created, appended, with_entry, path_eq, nat_eq,
  int_eq,
}
use distributed_cache_system.Posix.Documented.{IsDocumented, CreateOutcome, refused, made}
use distributed_cache_system.Posix.Settling.{settled, settle_closed, settle_abandoned}
use distributed_cache_system.Blake3.{Blake3, IsBlake3}
use distributed_cache_system.UniqueFd.{unique_fd, no_fd}
use distributed_cache_system.UniqueFd.Ownership.{destroy-Ensures, destroy-empty}
use distributed_cache_system.Worker.Streams.{InputStream, IsHonest, Delivers}
use distributed_cache_system.Worker.Names.{validate_id, path_for, temp_path}
use distributed_cache_system.Worker.Names.Distinct.{temp_path-ne_self}
use distributed_cache_system.Worker.FileChunkStore.Put.{
  k_buffer_size, Filled, abandon_file, commit_file, after_fill, put_file, put_at, after_directories,
  put, io_error,
}
use distributed_cache_system.Worker.FileChunkStore.Put.Fill.{
  IsChunk, chunk_file, FillEnd, fill_abandoned, fill_filled, fill_file-Ensures,
}
use distributed_cache_system.Worker.FileChunkStore.Put.Outcome.{
  PutOutcome, outcome_unlinked, outcome_linked, outcome_refused,
}
use distributed_cache_system.Worker.FileChunkStore.Put.Commit.{
  CommitEnd, not_linked, linked, cleanup-Ensures, commit-Ensures,
}

module _ (os : Posix) (laws : IsDocumented os) (b : Blake3) (hashes : IsBlake3 b) {W : Type 0}
    (input : InputStream W) (honest : IsHonest input) (request : PutChunkRequest)
    (root : List ℕ) where
  open os use {State, fs, errno, eexist, open_file, create_directories}

  module _ (temp final : FilePath) (distinct : temp ≢ final) where
    -- What put_file gets: the new file `i`, open at `fd`.
    module _ (f : Fs) (i : ℕ) (fd : ℤ) (good : is_nonneg fd ≡ true) (free : f.opened fd ≡ none)
        (fresh : (q : FilePath) → f.entry q ≢ some i) where
      abandon_file-Ensures :
          (st : Status) (d : List ℕ) (s : State) (w w' : W)
          → is_ok st ≡ false
          → fs s ≡ appended (created f temp i fd) fd i d
          → Ensures
              (abandon_file os temp (unique_fd fd) st s)
              (λ st t. PutOutcome b request input temp final f w st (fs t) w')
      unfolding abandon_file
      abandon_file-Ensures st d s w w' bad g =
          Ensures-bind _ (cleanup-Ensures os laws temp s) λ x t u.
            Ensures-bind _ (destroy-Ensures os laws fd t good) λ y v closed. Ensures-some (
              outcome_unlinked b request input temp final distinct u.left d fresh bad
                (closed.1 ∙ rw (u.result, g) (settle_abandoned f temp fd i d u.left free)))

      relink :
          (s : State) (x : Option ℕ) (chunk : List ℕ)
          → fs s ≡ settled f temp (some i) i (chunk_file request chunk)
          → with_entry (fs s) temp x ≡ settled f temp x i (chunk_file request chunk)
      relink s x chunk g = rw (g, update-update f.entry temp (some i) x) refl

      commit_outcome :
          (chunk : List ℕ) (s t : State) (st : Status) (w w' : W)
          → IsChunk b request chunk
          → Delivers input k_buffer_size w chunk w'
          → fs s ≡ settled f temp (some i) i (chunk_file request chunk)
          → CommitEnd (fs s) temp final i st (fs t)
          → PutOutcome b request input temp final f w st (fs t) w'
      commit_outcome chunk s t st w w' is given g (not_linked bad u) =
          outcome_unlinked b request input temp final distinct u.left (chunk_file request chunk)
            fresh bad (u.result ∙ relink s u.left chunk g)
      commit_outcome chunk s t st w w' is given g (linked unnamed u) =
          outcome_linked b request input temp final distinct u.left chunk fresh (rw g at unnamed) is
            given (u.result ∙ rw g refl)

      commit_file-Ensures :
          (chunk : List ℕ) (s : State) (w w' : W)
          → IsChunk b request chunk
          → Delivers input k_buffer_size w chunk w'
          → fs s ≡ appended (created f temp i fd) fd i (chunk_file request chunk)
          → Ensures
              (commit_file os b input request root temp final (unique_fd fd) s)
              (λ st t. PutOutcome b request input temp final f w st (fs t) w')
      unfolding commit_file
      commit_file-Ensures chunk s w w' is given g =
          Ensures-bind _ (destroy-Ensures os laws fd s good) λ u t closed.
            let g' : fs t ≡ settled f temp (some i) i (chunk_file request chunk) =
              closed.1 ∙ rw g (settle_closed f temp fd i _ free) in
            Ensures-bind _
              (commit-Ensures os laws root temp final request.chunk_id.value t i
                (rw g' (update_self f.entry temp (some i))))
              λ st v ended.
                rw (closed.0, destroy-empty os no_fd v refl)
                  (Ensures-some (commit_outcome chunk t v st w w' is given g' ended))

      put_file-Ensures :
          (s : State) (w : W)
          → fs s ≡ created f temp i fd
          → Ensures
              (put_file os b input request root temp final (unique_fd fd) (s, w))
              (λ st t. PutOutcome b request input temp final f w st (fs t.0) t.1)
      unfolding put_file
      put_file-Ensures s w g =
          Ensures-bind _
            (fill_file-Ensures os laws b hashes input honest request (created f temp i fd) fd i temp
              s w g (rw (update_self f.opened fd, update_self f.bytes i) refl))
            λ r t ended. go r t ended
        where
          go :
              (r : Filled) (t : State × W)
              → FillEnd os laws b hashes input honest request
                  (created f temp i fd)
                  fd
                  i
                  w
                  r
                  (fs t.0)
                  t.1
              → Ensures
                  (after_fill os b input request root temp final (unique_fd fd) r t)
                  (λ st t. PutOutcome b request input temp final f w st (fs t.0) t.1)
          go r t (fill_abandoned d st e bad g') = rw e (
              Ensures_mono (Ensures-on_first t.1 (abandon_file-Ensures st d t.0 w t.1 bad g'))
                λ st u done. rw done.1 done.0)
          go r t (fill_filled chunk e g' is given) = rw e (
              Ensures_mono (Ensures-on_first t.1 (commit_file-Ensures chunk t.0 w t.1 is given g'))
                λ st u done. rw done.1 done.0)

    put_at-Ensures :
        (s : State) (w : W)
        → Ensures
            (put_at os b input request root temp final (s, w))
            (λ st t. PutOutcome b request input temp final (fs s) w st (fs t.0) t.1)
    unfolding put_at status io_error
    put_at-Ensures s w = go (open_file temp create_new s).0 refl (laws.open_create temp s)
      where
        t : State
        t = (open_file temp create_new s).1

        go :
            (fd : ℤ)
            → (open_file temp create_new s).0 ≡ fd
            → CreateOutcome (fs s) temp fd (fs t)
            → Ensures
                (put_at os b input request root temp final (s, w))
                (λ st u. PutOutcome b request input temp final (fs s) w st (fs u.0) u.1)
        go fd e (refused bad g) = rw e (
            Ensures-if (is_nonneg fd) _ _ (t, w) (λ good. cc)
              (λ _. elim (Bool-cases (errno t == eexist)) [
                | inl taken ↦
                    rw taken
                      (Ensures-some (outcome_refused b request input temp final distinct refl g))
                | inr other ↦
                    rw other
                      (Ensures-some (outcome_refused b request input temp final distinct refl g))
              ]))
        go fd e (made i good absent fresh free g) = rw e (
            Ensures-if (is_nonneg fd) _ _ (t, w)
              (λ _. put_file-Ensures (fs s) i fd good free fresh t w g) (λ bad. cc))

  pub after_directories-Ensures :
      (final temp : FilePath)
      → temp ≢ final
      → (s : State) (w : W)
      → Ensures
          (after_directories os b input request root temp final
            (create_directories root s).0
            ((create_directories root s).1, w))
          (λ st t. PutOutcome b request input temp final (fs s) w st (fs t.0) t.1)
  unfolding after_directories status
  after_directories-Ensures final temp apart s w = go (create_directories root s).0
    where
      same : fs (create_directories root s).1 ≡ fs s
      same = laws.create_directories_fs root s

      go :
          (error : Option (List ℕ))
          → Ensures
              (after_directories os b input request root temp final error
                ((create_directories root s).1, w))
              (λ st t. PutOutcome b request input temp final (fs s) w st (fs t.0) t.1)
      go none = rw (← same) (put_at-Ensures temp final apart (create_directories root s).1 w)
      go (some message) = Ensures-some (outcome_refused b request input temp final apart refl same)

  -- With an operating system and a hash that behave as documented and a stream that reports an
  -- error where it gives no value, Put ends, whatever fails on the way. Only the temporary and
  -- the final name can have another file than before, what names a file before still holds the
  -- same bytes, and every descriptor that Put opened is closed. The final name is as before and
  -- Put reports an error, or it was free and now names a file that holds the header and the
  -- whole chunk that the stream delivered, of the size and the checksum that were asked for.
  pub put-Ensures :
      (address : ℕ) (s : State) (w : W)
      → let final = path_for root request.chunk_id in
        Ensures (put os b input request root address (s, w)) (λ st t.
          PutOutcome b request input
            (temp_path os root final address)
            final
            (fs s)
            w
            st
            (fs t.0)
            t.1)
  unfolding put
  put-Ensures address s w =
      let final = path_for root request.chunk_id in
      let temp = temp_path os root final address in
      let apart : temp ≢ final = temp_path-ne_self os root final address in
      Ensures-if (is_ok (validate_id request.chunk_id)) _ _ (s, w)
        (λ _.
          Ensures-if (is_ok (validate_checksum request.expected_checksum)) _ _ (s, w)
            (λ _. after_directories-Ensures final temp apart s w)
            (λ bad. Ensures-some (outcome_refused b request input temp final apart bad refl)))
        (λ bad. Ensures-some (outcome_refused b request input temp final apart bad refl))
