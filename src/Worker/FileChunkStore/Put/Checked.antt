-- ===== src/Worker/FileChunkStore/Put/Checked.antt =====
-- Put refuses a request whose checksum is not valid, before it touches a file.
use distributed_cache_system.Prelude.{ℕ, ◌≡◌, ◌≢◌, refl, ◌⊎◌, inl, inr, true, false, List}
use distributed_cache_system.Prelude.Action.{Ensures, Ensures-some, Ensures-if, Ensures_mono}
use distributed_cache_system.Status.{is_ok}
use distributed_cache_system.Types.{PutChunkRequest, validate_checksum}
use distributed_cache_system.Posix.{Posix}
use distributed_cache_system.Posix.Documented.{IsDocumented}
use distributed_cache_system.Blake3.{Blake3, IsBlake3}
use distributed_cache_system.Worker.Streams.{InputStream, IsHonest}
use distributed_cache_system.Worker.Names.{validate_id, path_for, temp_path}
use distributed_cache_system.Worker.Names.Distinct.{temp_path-ne_self}
use distributed_cache_system.Worker.FileChunkStore.Put.{put}
use distributed_cache_system.Worker.FileChunkStore.Put.Atomic.{after_directories-Ensures}

-- The checksum that was asked for is valid, or Put fails and changes no file.
pub put_checked :
    (os : Posix) (laws : IsDocumented os) (b : Blake3) (hashes : IsBlake3 b) {W : Type 0}
    (input : InputStream W) (honest : IsHonest input) (request : PutChunkRequest) (root : List ℕ)
    (address : ℕ) (s : os.State) (w : W)
    → Ensures (put os b input request root address (s, w)) (λ st t.
      (is_ok (validate_checksum request.expected_checksum) ≡ true)
      ⊎ ((is_ok st ≡ false) × (os.fs t.0 ≡ os.fs s)))
unfolding put
put_checked os laws b hashes input honest request root address s w =
    let final = path_for root request.chunk_id in
    let temp = temp_path os root final address in
    let apart : temp ≢ final = temp_path-ne_self os root final address in
    Ensures-if (is_ok (validate_id request.chunk_id)) _ _ (s, w)
      (λ _.
        Ensures-if (is_ok (validate_checksum request.expected_checksum)) _ _ (s, w)
          (λ valid.
            Ensures_mono
              (after_directories-Ensures os laws b hashes input honest request root final temp apart
                s w)
              λ _ _ _. inl valid)
          (λ bad. Ensures-some (inr (bad, refl))))
      (λ bad. Ensures-some (inr (bad, refl)))
