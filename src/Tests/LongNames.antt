-- ===== src/Tests/LongNames.antt =====
-- Put of a long id in memory, on a file system whose names have 255 bytes at most.
use distributed_cache_system.Prelude.{[], ◌≡◌, refl, Bool, true, false, ltb, length, arith}
use distributed_cache_system.Prelude.Action.{Ensures}
use distributed_cache_system.Status.{is_ok}
use distributed_cache_system.Types.{PutChunkRequest}
use distributed_cache_system.Posix.{
  ℤ, negsuc, FilePath, OpenMode, create_new, read_no_follow, read_only, Posix, path_eq, nat_eq,
  int_eq,
}
use distributed_cache_system.Posix.Documented.{IsDocumented, CreateOutcome, refused}
use distributed_cache_system.Worker.Names.{validate_id}
use distributed_cache_system.Worker.FileChunkStore.Put.{put}
use distributed_cache_system.Worker.FileChunkStore.Put.LongIds.{IsLimited, put-long_id}
use distributed_cache_system.Tests.Memory.{Memory, fs, memory, open_with, with_error}
use distributed_cache_system.Tests.Memory.Documented.{memory-IsDocumented}
use distributed_cache_system.Tests.Inputs.{toy_hash, pieces, request, root, empty, padded}

abbrev create_if : Bool → FilePath → Memory → ℤ × Memory
create_if true path m = (negsuc 0, with_error 36 m)
create_if false path m = open_with path create_new m

abbrev open_short : FilePath → OpenMode → Memory → ℤ × Memory
open_short path create_new m = create_if (ltb 255 (length path.filename)) path m
open_short path read_no_follow m = open_with path read_no_follow m
open_short path read_only m = open_with path read_only m

abbrev short_names : Posix
short_names = record memory { open_file = open_short }

create_if-CreateOutcome :
    (b : Bool) (path : FilePath) (m : Memory)
    → CreateOutcome (fs m) path (create_if b path m).0 (fs (create_if b path m).1)
create_if-CreateOutcome true path m = refused refl refl
create_if-CreateOutcome false path m = memory-IsDocumented.open_create path m

short_names-IsDocumented : IsDocumented short_names
short_names-IsDocumented = record {
  set_errno_fs = memory-IsDocumented.set_errno_fs;
  open_create = λ path m. create_if-CreateOutcome (ltb 255 (length path.filename)) path m;
  open_no_follow = memory-IsDocumented.open_no_follow;
  open_enoent = memory-IsDocumented.open_enoent;
  open_read = memory-IsDocumented.open_read;
  open_dir = memory-IsDocumented.open_dir;
  close_releases = memory-IsDocumented.close_releases;
  write_appends = memory-IsDocumented.write_appends;
  write_signals = memory-IsDocumented.write_signals;
  write_interrupted = memory-IsDocumented.write_interrupted;
  pread_fs = memory-IsDocumented.pread_fs;
  pread_reads = memory-IsDocumented.pread_reads;
  pread_interrupted = memory-IsDocumented.pread_interrupted;
  read_reads = memory-IsDocumented.read_reads;
  read_interrupted = memory-IsDocumented.read_interrupted;
  fstat_fs = memory-IsDocumented.fstat_fs;
  fstat_length = memory-IsDocumented.fstat_length;
  fdatasync_fs = memory-IsDocumented.fdatasync_fs;
  fsync_fs = memory-IsDocumented.fsync_fs;
  link_adds = memory-IsDocumented.link_adds;
  link_exclusive = memory-IsDocumented.link_exclusive;
  unlink_removes = memory-IsDocumented.unlink_removes;
  unlink_entry = memory-IsDocumented.unlink_entry;
  unlink_enoent = memory-IsDocumented.unlink_enoent;
  exists_fs = memory-IsDocumented.exists_fs;
  exists_entry = memory-IsDocumented.exists_entry;
  create_directories_fs = memory-IsDocumented.create_directories_fs;
}

short_names-IsLimited : IsLimited short_names 255
short_names-IsLimited path m long = ground arith

-- 122 times "k".
abbrev long_id : PutChunkRequest
long_id = record request { chunk_id = record { value = padded 122 b'k' } }

put-long_id_example :
    (is_ok (validate_id long_id.chunk_id) ≡ true)
    × Ensures
        (put short_names toy_hash pieces long_id root 7 (empty, []))
        (λ st t. (is_ok st ≡ false) × (fs t.0 ≡ fs empty) × (t.1 ≡ []))
put-long_id_example =
    put-long_id short_names short_names-IsDocumented toy_hash pieces long_id root 255
      short_names-IsLimited 7 empty [] (omega arith) (omega arith) (omega arith)
