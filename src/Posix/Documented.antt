-- ===== src/Posix/Documented.antt =====
-- What the code relies on in the calls, from their manual pages, where no other process changes
-- the files meanwhile. Every call may fail; a failing call changes no file.
use distributed_cache_system.Prelude.{
  ℕ, ◌+◌, ◌≤◌, ◌<◌, ◌≡◌, ◌≢◌, Bool, true, false, Option, none, some, List, length, take, drop,
}
use distributed_cache_system.Posix.{
  ℤ, pos, is_nonneg, FilePath, Fs, file, directory, create_new, read_no_follow, read_only, Posix,
  created, appended, with_opened, with_entry,
}

-- open with O_CREAT | O_EXCL. A file that it makes is new: no entry shows it.
pub data CreateOutcome (f : Fs) (path : FilePath) (fd : ℤ) (g : Fs) : Type 0 where
  refused : is_nonneg fd ≡ false → g ≡ f → CreateOutcome f path fd g
  made :
      (i : ℕ)
      → is_nonneg fd ≡ true
      → f.entry path ≡ none
      → ((q : FilePath) → f.entry q ≢ some i)
      → f.opened fd ≡ none
      → g ≡ created f path i fd
      → CreateOutcome f path fd g

-- open for reading.
pub data OpenOutcome (f : Fs) (path : FilePath) (fd : ℤ) (g : Fs) : Type 0 where
  not_opened : is_nonneg fd ≡ false → g ≡ f → OpenOutcome f path fd g
  opened_file :
      (i : ℕ)
      → is_nonneg fd ≡ true
      → f.entry path ≡ some i
      → f.opened fd ≡ none
      → g ≡ with_opened f fd (some (file i 0))
      → OpenOutcome f path fd g

-- open with O_RDONLY alone, which opens directories too.
pub data SourceOutcome (f : Fs) (path : FilePath) (fd : ℤ) (g : Fs) : Type 0 where
  no_source : is_nonneg fd ≡ false → g ≡ f → SourceOutcome f path fd g
  source_directory :
      is_nonneg fd ≡ true
      → f.opened fd ≡ none
      → g ≡ with_opened f fd (some directory)
      → SourceOutcome f path fd g
  source_file :
      (i : ℕ)
      → is_nonneg fd ≡ true
      → f.entry path ≡ some i
      → f.opened fd ≡ none
      → g ≡ with_opened f fd (some (file i 0))
      → SourceOutcome f path fd g

-- open of a directory.
pub data DirectoryOutcome (f : Fs) (fd : ℤ) (g : Fs) : Type 0 where
  no_directory : is_nonneg fd ≡ false → g ≡ f → DirectoryOutcome f fd g
  opened_directory :
      is_nonneg fd ≡ true
      → f.opened fd ≡ none
      → g ≡ with_opened f fd (some directory)
      → DirectoryOutcome f fd g

-- write at the end of the file `i`: it takes any number of the bytes, none included.
pub data WriteOutcome (f : Fs) (fd : ℤ) (i : ℕ) (buffer : List ℕ) (n : Option ℕ) (g : Fs)
    : Type 0 where
  write_failed : n ≡ none → g ≡ f → WriteOutcome f fd i buffer n g
  wrote :
      (k : ℕ)
      → n ≡ some k
      → k ≤ length buffer
      → g ≡ appended f fd i (take k buffer)
      → WriteOutcome f fd i buffer n g

-- pread from a file with these contents. It returns no bytes only at the end of the file.
pub data ReadOutcome (contents : List ℕ) (count offset : ℕ) (r : Option (List ℕ)) : Type 0 where
  read_failed : r ≡ none → ReadOutcome contents count offset r
  got :
      (n : ℕ)
      → r ≡ some (take n (drop offset contents))
      → n ≤ count
      → n ≤ length (drop offset contents)
      → (n ≡ 0 → 0 < count → length contents ≤ offset)
      → ReadOutcome contents count offset r

-- read: it fails, as on a directory, or moves the position of a file on by what it returns, which
-- is nothing only at the end of the file.
pub data SequentialOutcome (f : Fs) (fd : ℤ) (count : ℕ) (r : Option (List ℕ)) (g : Fs)
    : Type 0 where
  not_read : r ≡ none → g ≡ f → SequentialOutcome f fd count r g
  advanced :
      (i p n : ℕ)
      → f.opened fd ≡ some (file i p)
      → r ≡ some (take n (drop p (f.bytes i)))
      → n ≤ count
      → n ≤ length (drop p (f.bytes i))
      → (n ≡ 0 → 0 < count → length (f.bytes i) ≤ p)
      → g ≡ with_opened f fd (some (file i (p + n)))
      → SequentialOutcome f fd count r g

-- link and unlink: on success one entry changes.
pub data EntryOutcome (f : Fs) (path : FilePath) (o : Option ℕ) (done : Bool) (g : Fs)
    : Type 0 where
  entry_kept : done ≡ false → g ≡ f → EntryOutcome f path o done g
  entry_set : done ≡ true → g ≡ with_entry f path o → EntryOutcome f path o done g

-- The descriptor `fd` writes at the end of the file `i`.
abbrev pub IsAppending : Fs → ℤ → ℕ → Type 0
IsAppending f fd i = f.opened fd ≡ some (file i (length (f.bytes i)))

-- The descriptor `fd` is open on the file `i`.
abbrev pub IsOpenOn : Fs → ℤ → ℕ → ℕ → Type 0
IsOpenOn f fd i p = f.opened fd ≡ some (file i p)

module _ (os : Posix) where
  open os use {
    State, fs, signals, errno, set_errno, eintr, eexist, enoent, open_file, open_directory, close,
    write, pread, read, exists, fstat_size, fdatasync, fsync, link, unlink, create_directories,
  }

  pub record IsDocumented : Type 0 where
    pub set_errno_fs : (e : ℕ) (s : State) → fs (set_errno e s) ≡ fs s
    pub open_create :
        (path : FilePath) (s : State)
        → CreateOutcome
            (fs s)
            path
            (open_file path create_new s).0
            (fs (open_file path create_new s).1)
    pub open_no_follow :
        (path : FilePath) (s : State)
        → OpenOutcome
            (fs s)
            path
            (open_file path read_no_follow s).0
            (fs (open_file path read_no_follow s).1)
    pub open_enoent :
        (path : FilePath) (s : State)
        → is_nonneg (open_file path read_no_follow s).0 ≡ false
        → errno (open_file path read_no_follow s).1 ≡ enoent
        → (fs s).entry path ≡ none
    pub open_read :
        (path : FilePath) (s : State)
        → SourceOutcome
            (fs s)
            path
            (open_file path read_only s).0
            (fs (open_file path read_only s).1)
    pub open_dir :
        (path : List ℕ) (s : State)
        → DirectoryOutcome (fs s) (open_directory path s).0 (fs (open_directory path s).1)
    -- On Linux the descriptor is released also where close reports an error.
    pub close_releases : (fd : ℤ) (s : State) → fs (close fd s).1 ≡ with_opened (fs s) fd none
    pub write_appends :
        (fd : ℤ) (buffer : List ℕ) (s : State) (i : ℕ)
        → IsAppending (fs s) fd i
        → WriteOutcome (fs s) fd i buffer (write fd buffer s).0 (fs (write fd buffer s).1)
    -- A call that EINTR ends has used up a signal.
    pub write_signals :
        (fd : ℤ) (buffer : List ℕ) (s : State) → signals (write fd buffer s).1 ≤ signals s
    pub write_interrupted :
        (fd : ℤ) (buffer : List ℕ) (s : State)
        → (write fd buffer s).0 ≡ none
        → errno (write fd buffer s).1 ≡ eintr
        → signals (write fd buffer s).1 < signals s
    pub pread_fs : (fd : ℤ) (count offset : ℕ) (s : State) → fs (pread fd count offset s).1 ≡ fs s
    pub pread_reads :
        (fd : ℤ) (count offset : ℕ) (s : State) (i p : ℕ)
        → IsOpenOn (fs s) fd i p
        → ReadOutcome ((fs s).bytes i) count offset (pread fd count offset s).0
    pub pread_interrupted :
        (fd : ℤ) (count offset : ℕ) (s : State)
        → (pread fd count offset s).0 ≡ none
        → errno (pread fd count offset s).1 ≡ eintr
        → signals (pread fd count offset s).1 < signals s
    pub read_reads :
        (fd : ℤ) (count : ℕ) (s : State)
        → SequentialOutcome (fs s) fd count (read fd count s).0 (fs (read fd count s).1)
    pub read_interrupted :
        (fd : ℤ) (count : ℕ) (s : State)
        → (read fd count s).0 ≡ none
        → errno (read fd count s).1 ≡ eintr
        → signals (read fd count s).1 < signals s
    pub fstat_fs : (fd : ℤ) (s : State) → fs (fstat_size fd s).1 ≡ fs s
    pub fstat_length :
        (fd : ℤ) (s : State) (i p : ℕ) {n : ℤ}
        → IsOpenOn (fs s) fd i p
        → (fstat_size fd s).0 ≡ some n
        → n ≡ pos (length ((fs s).bytes i))
    pub fdatasync_fs : (fd : ℤ) (s : State) → fs (fdatasync fd s).1 ≡ fs s
    pub fsync_fs : (fd : ℤ) (s : State) → fs (fsync fd s).1 ≡ fs s
    -- link makes a second name of a file, and never replaces an entry.
    pub link_adds :
        (from to : FilePath) (s : State) {i : ℕ}
        → (fs s).entry from ≡ some i
        → EntryOutcome (fs s) to (some i) (link from to s).0 (fs (link from to s).1)
    pub link_exclusive :
        (from to : FilePath) (s : State) → (link from to s).0 ≡ true → (fs s).entry to ≡ none
    pub unlink_removes :
        (path : FilePath) (s : State)
        → EntryOutcome (fs s) path none (unlink path s).0 (fs (unlink path s).1)
    pub unlink_entry :
        (path : FilePath) (s : State) → (unlink path s).0 ≡ true → (fs s).entry path ≢ none
    pub unlink_enoent :
        (path : FilePath) (s : State)
        → (unlink path s).0 ≡ false
        → errno (unlink path s).1 ≡ enoent
        → (fs s).entry path ≡ none
    pub exists_fs : (path : FilePath) (s : State) → fs (exists path s).1 ≡ fs s
    pub exists_entry :
        (path : FilePath) (s : State) → (exists path s).0 ≡ false → (fs s).entry path ≡ none
    pub create_directories_fs :
        (path : List ℕ) (s : State) → fs (create_directories path s).1 ≡ fs s
