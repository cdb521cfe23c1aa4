-- ===== src/Posix.antt =====
-- The operating system as the code sees it: the calls of <fcntl.h>, <unistd.h>, <sys/stat.h> and
-- std::filesystem that src/storage makes. Nothing of it is under src/, so it is a parameter,
-- `Posix`, of the modules that make the calls; `Posix.Documented` states what they rely on.
pub mod Documented
pub mod Appending
pub mod Unlinking
pub mod Settling
use distributed_cache_system.Prelude.{
  ℕ, ◌+◌, ◌≡◌, refl, ◌↔◌, Bool, true, false, ◌&&◌, Option, none, some, List, [], ◌++◌, ◌==◌, ==_iff,
  same_bytes, same_bytes→eq, same_bytes_refl, length, arith,
}
use distributed_cache_system.Prelude.Maps.{Eq, update}

-- A C++ int, of which a descriptor is one. `negsuc n` is -(n + 1).
pub data ℤ : Type 0 where
  pos : ℕ → ℤ
  negsuc : ℕ → ℤ

-- `fd >= 0`
abbrev pub is_nonneg : ℤ → Bool
is_nonneg (pos n) = true
is_nonneg (negsuc n) = false

abbrev pub same_int : ℤ → ℤ → Bool
same_int (pos a) (pos b) = a == b
same_int (negsuc a) (negsuc b) = a == b
same_int _ _ = false

pub same_int_iff : (a b : ℤ) → (same_int a b ≡ true) ↔ (a ≡ b)
same_int_iff (pos a) (pos b) = ground arith
same_int_iff (pos a) (negsuc b) = ground arith
same_int_iff (negsuc a) (pos b) = ground arith
same_int_iff (negsuc a) (negsuc b) = ground arith

-- A std::filesystem::path, taken apart the one way in which the code builds paths:
-- `parent / name`, with a name that holds no separator.
pub record FilePath : Type 0 where
  pub directory : List ℕ
  pub filename : List ℕ

abbrev pub same_path : FilePath → FilePath → Bool
same_path p q = same_bytes p.directory q.directory && same_bytes p.filename q.filename

pub same_path_iff : (p q : FilePath) → (same_path p q ≡ true) ↔ (p ≡ q)
same_path_iff p q = ground (
  arith,
  same_bytes→eq p.directory q.directory,
  same_bytes→eq p.filename q.filename,
  same_bytes_refl p.directory,
  same_bytes_refl p.filename,
)

instance abbrev pub int_eq : Eq ℤ
int_eq = record { beq = same_int; beq_iff = same_int_iff }

instance abbrev pub nat_eq : Eq ℕ
nat_eq = record { beq = λ a b. a == b; beq_iff = ==_iff }

instance abbrev pub path_eq : Eq FilePath
path_eq = record { beq = same_path; beq_iff = same_path_iff }

-- An open file description: a regular file at a position, or a directory.
pub data Opened : Type 0 where
  file : ℕ → ℕ → Opened
  directory : Opened

-- What the documentation of the calls speaks of: the entries that name regular files, the
-- contents of these by file number, and the table of descriptors.
pub record Fs : Type 0 where
  pub entry : FilePath → Option ℕ
  pub bytes : ℕ → List ℕ
  pub opened : ℤ → Option Opened

-- The flags with which the code opens a file.
pub data OpenMode : Type 0 where
  -- O_WRONLY | O_CREAT | O_EXCL | O_CLOEXEC, 0600
  create_new : OpenMode
  -- O_RDONLY | O_CLOEXEC | O_NOFOLLOW
  read_no_follow : OpenMode
  -- O_RDONLY | O_CLOEXEC
  read_only : OpenMode

-- The calls. A call that returns a count or a status in C returns `none` or `false` here where C
-- returns -1, and the bytes that a read has put into its buffer stand for their count.
pub record Posix : Type 1 where
  pub State : Type 0
  pub errno : State → ℕ
  pub set_errno : ℕ → State → State
  pub eintr : ℕ
  pub eexist : ℕ
  pub enoent : ℕ
  pub strerror : ℕ → List ℕ
  -- std::to_string
  pub to_string : ℕ → List ℕ
  pub getpid : ℕ
  pub open_file : FilePath → OpenMode → State → ℤ × State
  -- open with O_RDONLY | O_DIRECTORY | O_CLOEXEC
  pub open_directory : List ℕ → State → ℤ × State
  pub close : ℤ → State → Bool × State
  pub write : ℤ → List ℕ → State → Option ℕ × State
  -- descriptor, size of the buffer, offset
  pub pread : ℤ → ℕ → ℕ → State → Option (List ℕ) × State
  pub read : ℤ → ℕ → State → Option (List ℕ) × State
  -- st_size after a call of fstat that succeeds
  pub fstat_size : ℤ → State → Option ℤ × State
  pub fdatasync : ℤ → State → Bool × State
  pub fsync : ℤ → State → Bool × State
  pub link : FilePath → FilePath → State → Bool × State
  pub unlink : FilePath → State → Bool × State
  -- std::filesystem::create_directories; `some` holds the error code's message
  pub create_directories : List ℕ → State → Option (List ℕ) × State
  -- std::filesystem::exists
  pub exists : FilePath → State → Bool × State
  -- What the calls do to files, and a bound on the signals still to come: neither is in C.
  pub fs : State → Fs
  pub signals : State → ℕ

-- A new, empty file at `path`, open for writing at `fd`.
abbrev pub created : Fs → FilePath → ℕ → ℤ → Fs
created f path i fd = record {
  entry = update f.entry path (some i);
  bytes = update f.bytes i [];
  opened = update f.opened fd (some (file i 0));
}

-- `data` written at the end of the file that `fd` is open on.
abbrev pub appended : Fs → ℤ → ℕ → List ℕ → Fs
appended f fd i written = record f {
  bytes = update f.bytes i (f.bytes i ++ written);
  opened = update f.opened fd (some (file i (length (f.bytes i ++ written))));
}

abbrev pub with_opened : Fs → ℤ → Option Opened → Fs
with_opened f fd o = record f { opened = update f.opened fd o }

abbrev pub with_entry : Fs → FilePath → Option ℕ → Fs
with_entry f path o = record f { entry = update f.entry path o }
