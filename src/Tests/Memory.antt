-- ===== src/Tests/Memory.antt =====
-- An operating system in memory, on which the code runs: files, entries and descriptors as lists of
-- updates, writes that take at most 40 bytes at a time, and signals that end some of the writes.
pub mod Documented
use distributed_cache_system.Prelude.{
  ℕ, zero, suc, ◌+◌, ◌≤◌, ◌<◌, ◌≡◌, ◌≢◌, refl, sym, ◌∙◌, inl, inr, Bool, Bool-cases, true, false,
  Option, none, some, List, [], ◌∷◌, ◌++◌, ◌==◌, leb, if◌then◌else◌, length, take, drop, arith,
}
use distributed_cache_system.Prelude.Maps.{Eq, update, update_self, update_ne}
use distributed_cache_system.Posix.{
  ℤ, pos, negsuc, FilePath, Opened, file, directory, OpenMode, create_new, read_no_follow,
  read_only, Fs, Posix, path_eq, nat_eq, int_eq,
}

abbrev pub plays : {K V : Type 0} → ⦃e : Eq K⦄ → List (K × V) → V → K → V
plays [] v = λ _. v
plays ((k, x) ∷ l) v = update (plays l v) k x

pub record Memory : Type 0 where
  pub entries : List (FilePath × Option ℕ)
  pub files : List (ℕ × List ℕ)
  pub descriptors : List (ℤ × Option Opened)
  pub error : ℕ
  pub pending : ℕ

abbrev pub fs : Memory → Fs
fs m = record {
  entry = plays m.entries none;
  bytes = plays m.files [];
  opened = plays m.descriptors none;
}

-- Above every file number and every descriptor in use.
unfoldable pub next_file : List (FilePath × Option ℕ) → ℕ
next_file [] = 0
next_file ((_, none) ∷ l) = next_file l
next_file ((_, some i) ∷ l) = suc (i + next_file l)

unfoldable pub next_fd : List (ℤ × Option Opened) → ℕ
next_fd [] = 0
next_fd ((pos k, _) ∷ l) = suc (k + next_fd l)
next_fd ((negsuc k, _) ∷ l) = next_fd l

abbrev pub with_error : ℕ → Memory → Memory
with_error e m = record m { error = e }

abbrev pub enter : FilePath → Option ℕ → Memory → Memory
enter path x m = record m { entries = (path, x) ∷ m.entries }

abbrev pub open_at : ℤ → Option Opened → Memory → Memory
open_at fd o m = record m { descriptors = (fd, o) ∷ m.descriptors }

abbrev pub free_fd : Memory → ℤ
free_fd m = pos (next_fd m.descriptors)

abbrev pub make : FilePath → ℕ → Memory → Memory
make path i m = record m {
  entries = (path, some i) ∷ m.entries;
  files = (i, []) ∷ m.files;
  descriptors = (free_fd m, some (file i 0)) ∷ m.descriptors;
}

abbrev pub create_as : FilePath → Option ℕ → Memory → ℤ × Memory
create_as path (some _) m = (negsuc 0, with_error 17 m)
create_as path none m = (free_fd m, make path (next_file m.entries) m)

abbrev pub open_as : Option ℕ → Memory → ℤ × Memory
open_as none m = (negsuc 0, with_error 2 m)
open_as (some i) m = (free_fd m, open_at (free_fd m) (some (file i 0)) m)

abbrev pub open_with : FilePath → OpenMode → Memory → ℤ × Memory
open_with path create_new m = create_as path ((fs m).entry path) m
open_with path read_no_follow m = open_as ((fs m).entry path) m
open_with path read_only m = open_as ((fs m).entry path) m

abbrev pub append : ℤ → ℕ → List ℕ → Memory → Memory
append fd i written m = record m {
  files = (i, (fs m).bytes i ++ written) ∷ m.files;
  descriptors = (fd, some (file i (length ((fs m).bytes i ++ written)))) ∷ m.descriptors;
}

abbrev pub write_to : ℤ → List ℕ → Option Opened → ℕ → Memory → Option ℕ × Memory
write_to fd buffer _ (suc n) m = (none, record m { error = 4; pending = n })
write_to fd buffer (some (file i _)) zero m =
    (some (length (take 40 buffer)), append fd i (take (length (take 40 buffer)) buffer) m)
write_to fd buffer _ zero m = (none, with_error 9 m)

abbrev pub pread_from : Memory → ℕ → ℕ → Option Opened → Option (List ℕ) × Memory
pread_from m count offset (some (file i _)) = (
  some (take (length (take count (drop offset ((fs m).bytes i)))) (drop offset ((fs m).bytes i))),
  m,
)
pread_from m count offset _ = (none, with_error 9 m)

-- At most two bytes at a time.
abbrev pub read_from : ℤ → ℕ → Option Opened → Memory → Option (List ℕ) × Memory
read_from fd count (some (file i p)) m =
    let n : ℕ = length (take 2 (take count (drop p ((fs m).bytes i)))) in
    (some (take n (drop p ((fs m).bytes i))), open_at fd (some (file i (p + n))) m)
read_from fd count _ m = (none, with_error 21 m)

abbrev pub size_of : Memory → Option Opened → Option ℤ × Memory
size_of m (some (file i _)) = (some (pos (length ((fs m).bytes i))), m)
size_of m _ = (none, with_error 9 m)

abbrev pub link_as : FilePath → Option ℕ → Option ℕ → Memory → Bool × Memory
link_as to (some i) none m = (true, enter to (some i) m)
link_as to (some i) (some _) m = (false, with_error 17 m)
link_as to none _ m = (false, with_error 2 m)

abbrev pub unlink_as : FilePath → Option ℕ → Memory → Bool × Memory
unlink_as path (some _) m = (true, enter path none m)
unlink_as path none m = (false, with_error 2 m)

abbrev pub is_there : Option ℕ → Bool
is_there none = false
is_there (some _) = true

abbrev pub memory : Posix
memory = record {
  State = Memory;
  errno = λ m. m.error;
  set_errno = with_error;
  eintr = 4;
  eexist = 17;
  enoent = 2;
  strerror = λ e. e ∷ [];
  to_string = λ n. n ∷ [];
  getpid = 48;
  open_file = open_with;
  open_directory = λ path m. (free_fd m, open_at (free_fd m) (some directory) m);
  close = λ fd m. (true, open_at fd none m);
  write = λ fd buffer m. write_to fd buffer ((fs m).opened fd) m.pending m;
  pread = λ fd count offset m. pread_from m count offset ((fs m).opened fd);
  read = λ fd count m. read_from fd count ((fs m).opened fd) m;
  fstat_size = λ fd m. size_of m ((fs m).opened fd);
  fdatasync = λ fd m. (true, m);
  fsync = λ fd m. (true, m);
  link = λ from to m. link_as to ((fs m).entry from) ((fs m).entry to) m;
  unlink = λ path m. unlink_as path ((fs m).entry path) m;
  create_directories = λ path m. (none, m);
  exists = λ path m. (is_there ((fs m).entry path), m);
  fs = fs;
  signals = λ m. m.pending;
}
