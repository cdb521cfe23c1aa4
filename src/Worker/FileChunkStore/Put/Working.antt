-- ===== src/Worker/FileChunkStore/Put/Working.antt =====
-- Put from link on, where no call fails.
use distributed_cache_system.Prelude.{ℕ, ◌≤◌, ◌≡◌, refl, true, none, some, List, length}
use distributed_cache_system.Prelude.Action.{Ensures, Ensures-some, Ensures-if, Ensures-bind}
use distributed_cache_system.Prelude.Maps.{update_self}
use distributed_cache_system.Status.{is_ok}
use distributed_cache_system.Posix.{
  ℤ, is_nonneg, FilePath, create_new, directory, Posix, path_eq, nat_eq, int_eq,
}
use distributed_cache_system.Posix.Documented.{
  IsDocumented, DirectoryOutcome, no_directory, opened_directory,
}
use distributed_cache_system.UniqueFd.Ownership.{destroy-Ensures}
use distributed_cache_system.Worker.Calls.Progress.{IsTaking}
use distributed_cache_system.Worker.FileChunkStore.Put.{
  path_string, sync_directory, finish_commit, commit,
}
use distributed_cache_system.Worker.FileChunkStore.Put.Commit.{cleanup-Ensures}
use distributed_cache_system.Worker.FileChunkStore.Put.Filling.{IsSyncing}

-- NAME_MAX and PATH_MAX of the file system, above which a call fails with ENAMETOOLONG.
pub record Limits : Type 0 where
  pub name_max : ℕ
  pub path_max : ℕ

pub record Fits (limits : Limits) (path : FilePath) : Type 0 where
  pub name_fits : length path.filename ≤ limits.name_max
  pub path_fits : length (path_string path) ≤ limits.path_max

-- A root that can be made, opened and written to and that holds regular files only, on a file
-- system with space, descriptors and hard links. Names beyond the limits may be refused, and so may
-- names that are taken.
pub record IsWorking (os : Posix) (root : List ℕ) (limits : Limits) : Type 0 where
  pub taking : IsTaking os
  pub syncing : IsSyncing os
  pub makes_root : (s : os.State) → (os.create_directories root s).0 ≡ none
  pub creates :
      (path : FilePath) (s : os.State)
      → path.directory ≡ root
      → Fits limits path
      → (os.fs s).entry path ≡ none
      → is_nonneg (os.open_file path create_new s).0 ≡ true
  pub links :
      (from to : FilePath) (s : os.State) (i : ℕ)
      → from.directory ≡ root
      → to.directory ≡ root
      → Fits limits to
      → (os.fs s).entry from ≡ some i
      → (os.fs s).entry to ≡ none
      → (os.link from to s).0 ≡ true
  pub opens_root : (s : os.State) → is_nonneg (os.open_directory root s).0 ≡ true
  pub syncs_directory :
      (fd : ℤ) (s : os.State) → (os.fs s).opened fd ≡ some directory → (os.fsync fd s).0 ≡ true

module _ (os : Posix) (laws : IsDocumented os) (root : List ℕ) (limits : Limits)
    (working : IsWorking os root limits) where
  open os use {State, fs, fsync, link, open_directory, open_file, create_directories}

  sync_directory-ok :
      (fd : ℤ) (s t : State)
      → is_nonneg fd ≡ true
      → DirectoryOutcome (fs s) fd (fs t)
      → Ensures (sync_directory os root fd t) (λ st u. is_ok st ≡ true)
  unfolding sync_directory
  sync_directory-ok fd s t good (no_directory bad g) = cc
  sync_directory-ok fd s t good (opened_directory good' free g) =
      Ensures-if (is_nonneg fd) _ _ t
        (λ _.
          rw (working.syncs_directory fd t (rw g (update_self (fs s).opened fd (some directory)))) (
            Ensures-bind _ (destroy-Ensures os laws fd (fsync fd t).1 good)
              λ u v closed. Ensures-some refl))
        (λ bad. cc)

  finish_commit-ok :
      (temp : FilePath) (s : State)
      → Ensures (finish_commit os root temp s) (λ st t. is_ok st ≡ true)
  unfolding finish_commit
  finish_commit-ok temp s = Ensures-bind _ (cleanup-Ensures os laws temp s) λ x t u.
      sync_directory-ok (open_directory root t).0 t (open_directory root t).1 (working.opens_root t)
        (laws.open_dir root t)

  pub commit-ok :
      (temp final : FilePath) (id : List ℕ) (s : State) (i : ℕ)
      → temp.directory ≡ root
      → final.directory ≡ root
      → Fits limits final
      → (fs s).entry temp ≡ some i
      → (fs s).entry final ≡ none
      → Ensures (commit os root temp final id s) (λ st t. is_ok st ≡ true)
  unfolding commit
  commit-ok temp final id s i at_root at_root' fits named free =
      rw (working.links temp final s i at_root at_root' fits named free)
        (finish_commit-ok temp (link temp final s).1)
