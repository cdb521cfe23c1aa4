-- ===== src/Tests/Memory/Documented.antt =====
-- The operating system in memory behaves as documented.
use distributed_cache_system.Prelude.{
  ◌⊎◌, ℕ, zero, suc, ◌≤◌, ◌<◌, ◌≡◌, ◌≢◌, refl, sym, inl, inr, Bool-cases, true, false, Option, none,
  some, List, [], ◌∷◌, length, take, drop, arith, length-take, length-drop,
}
use mathlib.Core.Option.{some-injective}
use distributed_cache_system.Prelude.Maps.{update}
use distributed_cache_system.Posix.{
  ℤ, pos, negsuc, FilePath, Opened, file, directory, is_nonneg, same_path, path_eq, nat_eq, int_eq,
}
use distributed_cache_system.Posix.Documented.{
  IsDocumented, CreateOutcome, refused, made, OpenOutcome, not_opened, opened_file,
  opened_directory, WriteOutcome, write_failed, wrote, ReadOutcome, got, EntryOutcome, entry_kept,
  entry_set,
}
use distributed_cache_system.Posix.Documented.{
  SourceOutcome, no_source, source_file, SequentialOutcome, not_read, advanced,
}
use distributed_cache_system.Worker.Calls.Progress.{IsTaking}
use distributed_cache_system.Tests.Memory.{
  read_from, is_there, Memory, plays, fs, next_file, next_fd, create_as, open_as, write_to,
  pread_from, size_of, link_as, unlink_as, memory,
}

entries_bound :
    (l : List (FilePath × Option ℕ)) (q : FilePath) (i : ℕ)
    → plays l none q ≡ some i
    → i < next_file l
unfolding next_file update
entries_bound [] q i h = cc
entries_bound ((p, none) ∷ l) q i h = elim (Bool-cases (same_path p q)) [
  | inl same ↦ cc
  | inr other ↦ entries_bound l q i (rw other at h)
]
entries_bound ((p, some j) ∷ l) q i h = elim (Bool-cases (same_path p q)) [
  | inl same ↦ omega (arith, some-injective _ _ (rw same at h))
  | inr other ↦ omega (arith, entries_bound l q i (rw other at h))
]

descriptors_bound :
    (l : List (ℤ × Option Opened)) (n : ℕ) → next_fd l ≤ n → plays l none (pos n) ≡ none
unfolding next_fd update
descriptors_bound [] n h = refl
descriptors_bound ((pos k, x) ∷ l) n h = ground (arith, descriptors_bound l n)
descriptors_bound ((negsuc k, x) ∷ l) n h = descriptors_bound l n h

create_outcome :
    (m : Memory) (path : FilePath) (x : Option ℕ)
    → (fs m).entry path ≡ x
    → CreateOutcome (fs m) path (create_as path x m).0 (fs (create_as path x m).1)
create_outcome m path (some j) e = refused refl refl
create_outcome m path none e =
    made (next_file m.entries) refl e
      (λ q h. omega (arith, entries_bound m.entries q (next_file m.entries) h))
      (descriptors_bound m.descriptors (next_fd m.descriptors) (omega arith)) refl

open_outcome :
    (m : Memory) (path : FilePath) (x : Option ℕ)
    → (fs m).entry path ≡ x
    → OpenOutcome (fs m) path (open_as x m).0 (fs (open_as x m).1)
open_outcome m path none e = not_opened refl refl
open_outcome m path (some i) e =
    opened_file i refl e (descriptors_bound m.descriptors (next_fd m.descriptors) (omega arith))
      refl

source_outcome :
    (m : Memory) (path : FilePath) (x : Option ℕ)
    → (fs m).entry path ≡ x
    → SourceOutcome (fs m) path (open_as x m).0 (fs (open_as x m).1)
source_outcome m path none e = no_source refl refl
source_outcome m path (some i) e =
    source_file i refl e (descriptors_bound m.descriptors (next_fd m.descriptors) (omega arith))
      refl

open_missing :
    (m : Memory) (path : FilePath) (x : Option ℕ) → is_nonneg (open_as x m).0 ≡ false → x ≡ none
open_missing m path none h = refl
open_missing m path (some i) h = cc

write_outcome :
    (m : Memory) (fd : ℤ) (buffer : List ℕ) (i p n : ℕ)
    → WriteOutcome
        (fs m)
        fd
        i
        buffer
        (write_to fd buffer (some (file i p)) n m).0
        (fs (write_to fd buffer (some (file i p)) n m).1)
write_outcome m fd buffer i p zero =
    wrote (length (take 40 buffer)) refl (omega (arith, length-take 40 buffer)) refl
write_outcome m fd buffer i p (suc n) = write_failed refl refl

write_pending :
    (m : Memory) (fd : ℤ) (buffer : List ℕ) (o : Option Opened) (n : ℕ)
    → m.pending ≡ n
    → (write_to fd buffer o n m).1.pending ≤ n
write_pending m fd buffer o (suc n) e = omega arith
write_pending m fd buffer none zero e = omega arith
write_pending m fd buffer (some directory) zero e = omega arith
write_pending m fd buffer (some (file i p)) zero e = omega arith

write_ended :
    (m : Memory) (fd : ℤ) (buffer : List ℕ) (o : Option Opened) (n : ℕ)
    → (write_to fd buffer o n m).0 ≡ none
    → (write_to fd buffer o n m).1.error ≡ 4
    → (write_to fd buffer o n m).1.pending < n
write_ended m fd buffer o (suc n) h e = omega arith
write_ended m fd buffer none zero h e = omega arith
write_ended m fd buffer (some directory) zero h e = omega arith
write_ended m fd buffer (some (file i p)) zero h e = cc

read_fs :
    (m : Memory) (count offset : ℕ) (o : Option Opened) → fs (pread_from m count offset o).1 ≡ fs m
read_fs m count offset none = refl
read_fs m count offset (some directory) = refl
read_fs m count offset (some (file i p)) = refl

read_ended :
    (m : Memory) (count offset : ℕ) (o : Option Opened)
    → (pread_from m count offset o).0 ≡ none
    → (pread_from m count offset o).1.error ≡ 4
    → (pread_from m count offset o).1.pending < m.pending
read_ended m count offset none h e = omega arith
read_ended m count offset (some directory) h e = omega arith
read_ended m count offset (some (file i p)) h e = cc

read_outcome :
    (m : Memory) (count offset i p : ℕ)
    → ReadOutcome ((fs m).bytes i) count offset (pread_from m count offset (some (file i p))).0
read_outcome m count offset i p =
    let rest = drop offset ((fs m).bytes i) in
    got (length (take count rest)) refl (omega (arith, length-take count rest))
      (omega (arith, length-take count rest))
      (λ e h. omega (arith, e, h, length-take count rest, length-drop offset ((fs m).bytes i)))

sequential_outcome :
    (m : Memory) (fd : ℤ) (count : ℕ) (o : Option Opened)
    → (fs m).opened fd ≡ o
    → SequentialOutcome (fs m) fd count (read_from fd count o m).0 (fs (read_from fd count o m).1)
sequential_outcome m fd count none e = not_read refl refl
sequential_outcome m fd count (some directory) e = not_read refl refl
sequential_outcome m fd count (some (file i p)) e =
    let rest = drop p ((fs m).bytes i) in
    advanced i p (length (take 2 (take count rest))) e refl
      (omega (arith, length-take 2 (take count rest), length-take count rest))
      (omega (arith, length-take 2 (take count rest), length-take count rest))
      (λ z h. omega (
        arith,
        z,
        h,
        length-take 2 (take count rest),
        length-take count rest,
        length-drop p ((fs m).bytes i),
      ))
      refl

sequential_ended :
    (m : Memory) (fd : ℤ) (count : ℕ) (o : Option Opened)
    → (read_from fd count o m).0 ≡ none
    → (read_from fd count o m).1.error ≡ 4
    → (read_from fd count o m).1.pending < m.pending
sequential_ended m fd count none h e = omega arith
sequential_ended m fd count (some directory) h e = omega arith
sequential_ended m fd count (some (file i p)) h e = cc

missing : (o : Option ℕ) → is_there o ≡ false → o ≡ none
missing none h = refl
missing (some i) h = cc

size_fs : (m : Memory) (o : Option Opened) → fs (size_of m o).1 ≡ fs m
size_fs m none = refl
size_fs m (some directory) = refl
size_fs m (some (file i p)) = refl

known_size :
    (m : Memory) (o : Option Opened) (i p : ℕ) {n : ℤ}
    → o ≡ some (file i p)
    → (size_of m o).0 ≡ some n
    → n ≡ pos (length ((fs m).bytes i))
known_size m o i p h e = some-injective _ _ (sym (rw h at e))

link_outcome :
    (m : Memory) (to : FilePath) (i : ℕ) (y : Option ℕ)
    → EntryOutcome (fs m) to (some i) (link_as to (some i) y m).0 (fs (link_as to (some i) y m).1)
link_outcome m to i none = entry_set refl refl
link_outcome m to i (some j) = entry_kept refl refl

link_free : (m : Memory) (to : FilePath) (x y : Option ℕ) → (link_as to x y m).0 ≡ true → y ≡ none
link_free m to (some i) none h = refl
link_free m to (some i) (some j) h = cc
link_free m to none y h = cc

unlink_outcome :
    (m : Memory) (path : FilePath) (x : Option ℕ)
    → EntryOutcome (fs m) path none (unlink_as path x m).0 (fs (unlink_as path x m).1)
unlink_outcome m path none = entry_kept refl refl
unlink_outcome m path (some i) = entry_set refl refl

unlink_present :
    (m : Memory) (path : FilePath) (x : Option ℕ) → (unlink_as path x m).0 ≡ true → x ≢ none
unlink_present m path none h = cc
unlink_present m path (some i) h = λ e. cc

unlink_missing :
    (m : Memory) (path : FilePath) (x : Option ℕ) → (unlink_as path x m).0 ≡ false → x ≡ none
unlink_missing m path none h = refl
unlink_missing m path (some i) h = cc

pub memory-IsDocumented : IsDocumented memory
memory-IsDocumented = record {
  set_errno_fs = λ e m. refl;
  open_create = λ path m. create_outcome m path ((fs m).entry path) refl;
  open_no_follow = λ path m. open_outcome m path ((fs m).entry path) refl;
  open_enoent = λ path m h e. open_missing m path ((fs m).entry path) h;
  open_read = λ path m. source_outcome m path ((fs m).entry path) refl;
  open_dir = λ path m.
      opened_directory refl (descriptors_bound m.descriptors (next_fd m.descriptors) (omega arith))
        refl;
  close_releases = λ fd m. refl;
  write_appends =
      λ fd buffer m i h. rw h (write_outcome m fd buffer i (length ((fs m).bytes i)) m.pending);
  write_signals = λ fd buffer m. write_pending m fd buffer ((fs m).opened fd) m.pending refl;
  write_interrupted = λ fd buffer m. write_ended m fd buffer ((fs m).opened fd) m.pending;
  pread_fs = λ fd count offset m. read_fs m count offset ((fs m).opened fd);
  pread_reads = λ fd count offset m i p h. rw h (read_outcome m count offset i p);
  pread_interrupted = λ fd count offset m. read_ended m count offset ((fs m).opened fd);
  read_reads = λ fd count m. sequential_outcome m fd count ((fs m).opened fd) refl;
  read_interrupted = λ fd count m. sequential_ended m fd count ((fs m).opened fd);
  fstat_fs = λ fd m. size_fs m ((fs m).opened fd);
  fstat_length = λ fd m i p h e. known_size m ((fs m).opened fd) i p h e;
  fdatasync_fs = λ fd m. refl;
  fsync_fs = λ fd m. refl;
  link_adds = λ from to m h. rw h (link_outcome m to _ ((fs m).entry to));
  link_exclusive = λ from to m h. link_free m to ((fs m).entry from) ((fs m).entry to) h;
  unlink_removes = λ path m. unlink_outcome m path ((fs m).entry path);
  unlink_entry = λ path m h. unlink_present m path ((fs m).entry path) h;
  unlink_enoent = λ path m h e. unlink_missing m path ((fs m).entry path) h;
  exists_fs = λ path m. refl;
  exists_entry = λ path m h. missing ((fs m).entry path) h;
  create_directories_fs = λ path m. refl;
}

write_taken :
    (m : Memory) (fd : ℤ) (buffer : List ℕ) (i p n : ℕ)
    → 0 < length buffer
    → (((write_to fd buffer (some (file i p)) n m).0 ≡ none)
        × ((write_to fd buffer (some (file i p)) n m).1.error ≡ 4))
      ⊎ ((k : ℕ) × ((write_to fd buffer (some (file i p)) n m).0 ≡ some k) × (0 < k))
write_taken m fd buffer i p zero h =
    inr (length (take 40 buffer), refl, omega (arith, length-take 40 buffer))
write_taken m fd buffer i p (suc n) h = inl (refl, refl)

pub memory-IsTaking : IsTaking memory
memory-IsTaking = λ fd buffer m i h full.
    rw h (write_taken m fd buffer i (length ((fs m).bytes i)) m.pending full)
