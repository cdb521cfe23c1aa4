-- ===== src/Worker/FileChunkStore/Put/Commit.antt =====
-- Put from link on: either the final name is left alone, or it now names the temporary file.
use distributed_cache_system.Prelude.{ℕ, ◌≡◌, refl, ◌∙◌, false, Option, none, some, List, ◌==◌}
use distributed_cache_system.Prelude.Action.{
  Ensures, Ensures-some, Ensures-if, Ensures-bind, Ensures_mono,
}
use distributed_cache_system.Prelude.Maps.{update-update, update_same}
use distributed_cache_system.Status.{Status, status, is_ok}
use distributed_cache_system.Posix.{
  ℤ, is_nonneg, FilePath, Fs, Opened, directory, Posix, with_entry, with_opened, path_eq, int_eq,
}
use distributed_cache_system.Posix.Documented.{
  IsDocumented, EntryOutcome, entry_kept, entry_set, DirectoryOutcome, no_directory,
  opened_directory,
}
use distributed_cache_system.Posix.Unlinking.{Unlinked, unlink-Unlinked}
use distributed_cache_system.UniqueFd.Ownership.{destroy-Ensures}
use distributed_cache_system.Worker.FileChunkStore.Put.{
  io_error, cleanup, sync_directory, finish_commit, refuse_commit, commit,
}

pub data CommitEnd (f : Fs) (temp final : FilePath) (i : ℕ) (st : Status) (g : Fs) : Type 0 where
  not_linked : is_ok st ≡ false → Unlinked f temp g → CommitEnd f temp final i st g
  linked :
      f.entry final ≡ none
      → Unlinked (with_entry f final (some i)) temp g
      → CommitEnd f temp final i st g

module _ (os : Posix) (laws : IsDocumented os) where
  open os use {State, fs, errno, eexist, fsync, link, unlink, open_directory}

  pub cleanup-Ensures :
      (temp : FilePath) (s : State)
      → Ensures (cleanup os temp s) (λ x t. Unlinked (fs s) temp (fs t))
  unfolding cleanup
  cleanup-Ensures temp s = Ensures-some (unlink-Unlinked os laws temp s)

  reopened :
      (f g h k : Fs) (fd : ℤ) (o : Option Opened)
      → f.opened fd ≡ none
      → g ≡ with_opened f fd o
      → h ≡ g
      → k ≡ with_opened h fd none
      → k ≡ f
  reopened f g h k fd o free e p q =
      q ∙ rw (p, e, update-update f.opened fd o none, update_same f.opened fd none free) refl

  sync_directory-Ensures :
      (root : List ℕ) (fd : ℤ) (s t : State)
      → DirectoryOutcome (fs s) fd (fs t)
      → Ensures (sync_directory os root fd t) (λ st u. fs u ≡ fs s)
  unfolding sync_directory
  sync_directory-Ensures root fd s t (no_directory bad g) =
      Ensures-if (is_nonneg fd) _ _ t (λ good. cc) (λ _. Ensures-some g)
  sync_directory-Ensures root fd s t (opened_directory good free g) =
      Ensures-if (is_nonneg fd) _ _ t
        (λ _. Ensures-bind _ (destroy-Ensures os laws fd (fsync fd t).1 good) λ u v closed.
          Ensures-some (
            reopened (fs s) (fs t) (fs (fsync fd t).1) (fs v) fd (some directory) free g
              (laws.fsync_fs fd t) closed.1))
        (λ bad. cc)

  finish_commit-Ensures :
      (root : List ℕ) (temp : FilePath) (s : State)
      → Ensures (finish_commit os root temp s) (λ st t. Unlinked (fs s) temp (fs t))
  unfolding finish_commit
  finish_commit-Ensures root temp s = Ensures-bind _ (cleanup-Ensures temp s) λ x t u.
      Ensures_mono
        (sync_directory-Ensures root (open_directory root t).0 t (open_directory root t).1
          (laws.open_dir root t))
        λ st v same. record { left = u.left; result = same ∙ u.result }

  refuse_commit-Ensures :
      (temp final : FilePath) (id : List ℕ) (s : State)
      → Ensures
          (refuse_commit os temp final id s)
          (λ st t. (is_ok st ≡ false) × Unlinked (fs s) temp (fs t))
  unfolding refuse_commit status io_error
  refuse_commit-Ensures temp final id s =
      let t = (unlink temp s).1 in
      let u = unlink-Unlinked os laws temp s in
      Ensures-if (errno s == eexist) _ _ t (λ taken. Ensures-some (refl, u))
        (λ other.
          Ensures-some
            (refl, record { left = u.left; result = laws.set_errno_fs (errno s) t ∙ u.result }))

  pub commit-Ensures :
      (root : List ℕ) (temp final : FilePath) (id : List ℕ) (s : State) (i : ℕ)
      → (fs s).entry temp ≡ some i
      → Ensures (commit os root temp final id s) (λ st t. CommitEnd (fs s) temp final i st (fs t))
  unfolding commit
  commit-Ensures root temp final id s i named =
      let t = (link temp final s).1 in go (laws.link_adds temp final s named)
    where
      go :
          EntryOutcome (fs s) final (some i) (link temp final s).0 (fs (link temp final s).1)
          → Ensures
              (commit os root temp final id s)
              (λ st t. CommitEnd (fs s) temp final i st (fs t))
      go (entry_kept failed g) =
          rw (failed, commit)
            (Ensures_mono (refuse_commit-Ensures temp final id (link temp final s).1)
              λ st u e. not_linked e.0 (rw g at e.1))
      go (entry_set done g) =
          rw (done, commit)
            (Ensures_mono (finish_commit-Ensures root temp (link temp final s).1)
              λ st u e. linked (laws.link_exclusive temp final s done) (rw g at e))
