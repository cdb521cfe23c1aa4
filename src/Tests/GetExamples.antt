-- ===== src/Tests/GetExamples.antt =====
-- A Head and a Get that succeed in memory.
use distributed_cache_system.Prelude.{
  ℕ, ◌≡◌, refl, true, Option, none, some, [], length, drop, arith,
}
use distributed_cache_system.Prelude.Action.{Ensures}
use distributed_cache_system.Prelude.Maps.{update}
use distributed_cache_system.Prelude.Tests.{same_bytes}
use distributed_cache_system.Status.{is_ok, from_value}
use distributed_cache_system.Types.{validate_checksum}
use distributed_cache_system.Posix.{Opened, file, directory}
use distributed_cache_system.Worker.Streams.{Sent}
use distributed_cache_system.Worker.Calls.{write_all}
use distributed_cache_system.Worker.Names.{validate_id, path_for, temp_path, finalize_hex}
use distributed_cache_system.Worker.Header.{k_header_size, make_header}
use distributed_cache_system.Worker.FileChunkStore.Put.{put}
use distributed_cache_system.Worker.FileChunkStore.Head.{head}
use distributed_cache_system.Worker.FileChunkStore.Head.Header.{reported}
use distributed_cache_system.Worker.FileChunkStore.Head.Filling.{IsReadable}
use distributed_cache_system.Worker.FileChunkStore.Get.{get}
use distributed_cache_system.Worker.FileChunkStore.Get.Loop.{slice}
use distributed_cache_system.Worker.FileChunkStore.Get.Success.{IsAccepting, get-ok}
use distributed_cache_system.Tests.Memory.{Memory, fs, memory, pread_from, next_fd, next_file}
use distributed_cache_system.Tests.Memory.Documented.{memory-IsDocumented}
use distributed_cache_system.Tests.Inputs.{kept, request, root}
use distributed_cache_system.Tests.Examples.{after_put, filled, range}
use distributed_cache_system.Tests.ContractExamples.{filled-IsSound}

pread_runs :
    {e : ℕ} (count offset : ℕ) (m : Memory) (i p : ℕ) (o : Option Opened)
    → o ≡ some (file i p)
    → (pread_from m count offset o).0 ≡ none
    → (pread_from m count offset o).1.error ≡ e
pread_runs count offset m i p none h failed = cc
pread_runs count offset m i p (some (file j q)) h failed = cc
pread_runs count offset m i p (some directory) h failed = cc

memory-IsReadable : IsReadable memory
memory-IsReadable = record {
  preading = λ fd count offset m i p h failed. pread_runs count offset m i p _ h failed;
  opens = λ path m i named. rw named refl;
  fstats = λ fd m i p h. rw h (λ e. cc);
}

kept-IsAccepting : IsAccepting kept
kept-IsAccepting = λ bytes v. refl

id_is_valid : is_ok (validate_id request.chunk_id) ≡ true
unfolding validate_id
id_is_valid = refl

filled_named : (fs filled).entry (path_for root request.chunk_id) ≡ some 0
unfolding after_put put validate_id validate_checksum write_all make_header update next_fd
    from_value same_bytes finalize_hex temp_path path_for next_file
filled_named = refl

filled_size : length ((fs filled).bytes 0) ≡ 83
unfolding after_put put validate_id validate_checksum write_all make_header update next_fd
    from_value same_bytes finalize_hex temp_path path_for next_file
filled_size = refl

get-ok_example :
    Ensures (head memory root request.chunk_id filled) (λ r t.
      (r.held_value ≡ some (reported request.chunk_id ((fs filled).bytes 0))) × (fs t ≡ fs filled))
    × Ensures (get memory kept root range (filled, [])) (λ st u.
      (is_ok st ≡ true)
      × Sent kept st [] (slice (drop k_header_size ((fs filled).bytes 0)) 1 2) u.1
      × (fs u.0 ≡ fs filled))
get-ok_example =
    get-ok memory memory-IsDocumented memory-IsReadable kept kept-IsAccepting root range filled 0
      id_is_valid filled_named
      (filled-IsSound.well_formed request.chunk_id 0 (omega arith, tt) filled_named)
      (omega (arith, filled_size)) (omega (arith, filled_size)) []
