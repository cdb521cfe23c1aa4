-- ===== src/Worker/FileChunkStore/Put/LongIds.antt =====
-- Put where the name of the temporary file is longer than the file system allows.
use distributed_cache_system.Prelude.{
  ℕ, ◌+◌, ◌*◌, ◌≤◌, ◌<◌, ◌≡◌, refl, ◌∙◌, true, false, Option, none, some, List, length,
  length-append, arith,
}
use distributed_cache_system.Prelude.Action.{Ensures, Ensures-some, Ensures-if, Ensures_mono}
use distributed_cache_system.Status.{status, is_ok}
use distributed_cache_system.Types.{ChunkId, PutChunkRequest, validate_checksum}
use distributed_cache_system.Posix.{is_nonneg, FilePath, create_new, Posix, path_eq, nat_eq, int_eq}
use distributed_cache_system.Posix.Documented.{IsDocumented, refused, made}
use distributed_cache_system.Blake3.{Blake3}
use distributed_cache_system.Worker.Streams.{InputStream}
use distributed_cache_system.Worker.Names.{encode_hex, validate_id, path_for, temp_path}
use distributed_cache_system.Worker.Names.Hex.{length-encode_hex}
use distributed_cache_system.Worker.FileChunkStore.Put.{io_error, put_at, after_directories, put}

-- open(2) fails with ENAMETOOLONG.
abbrev pub IsLimited : Posix → ℕ → Type 0
IsLimited os name_max =
    (path : FilePath) (s : os.State)
    → name_max < length path.filename
    → is_nonneg (os.open_file path create_new s).0 ≡ false

length-temp_path :
    (os : Posix) (root : List ℕ) (id : ChunkId) (address : ℕ)
    → 2 * length id.value + 12 ≤ length (temp_path os root (path_for root id) address).filename
unfolding temp_path path_for
length-temp_path os root id address =
    let name = path_for root id in
    omega (
      arith,
      length-encode_hex id.value,
      length-append (encode_hex id.value),
      length-append name.filename,
      length-append (os.to_string os.getpid),
    )

long_id-valid :
    (id : ChunkId) → 0 < length id.value → length id.value ≤ 1024 → is_ok (validate_id id) ≡ true
unfolding validate_id status
long_id-valid id some_bytes short = ground arith

module _ (os : Posix) (laws : IsDocumented os) (b : Blake3) {W : Type 0} (input : InputStream W)
    (request : PutChunkRequest) (root : List ℕ) (name_max : ℕ)
    (limited : IsLimited os name_max) where
  open os use {State, fs, open_file, create_directories}

  unopened :
      (temp : FilePath) (s : State)
      → is_nonneg (open_file temp create_new s).0 ≡ false
      → fs (open_file temp create_new s).1 ≡ fs s
  unopened temp s bad = elim (laws.open_create temp s) [
    | refused _ g ↦ g
    | made i good absent fresh free g ↦ cc
  ]

  put_at-long :
      (temp final : FilePath) (s : State) (w : W)
      → name_max < length temp.filename
      → Ensures
          (put_at os b input request root temp final (s, w))
          (λ st t. (is_ok st ≡ false) × (fs t.0 ≡ fs s) × (t.1 ≡ w))
  unfolding put_at io_error status
  put_at-long temp final s w long =
      let bad = limited temp s long in
      rw bad (Ensures-some (ground arith, unopened temp s bad, refl))

  after_directories-long :
      (temp final : FilePath) (r : Option (List ℕ)) (s : State) (w : W)
      → name_max < length temp.filename
      → Ensures
          (after_directories os b input request root temp final r (s, w))
          (λ st t. (is_ok st ≡ false) × (fs t.0 ≡ fs s) × (t.1 ≡ w))
  unfolding after_directories status
  after_directories-long temp final (some message) s w long = Ensures-some (refl, refl, refl)
  after_directories-long temp final none s w long = put_at-long temp final s w long

  -- With an operating system that behaves as documented, where no file can be created whose name
  -- is longer than NAME_MAX: an id of one to 1024 bytes is valid, and yet Put ends with an error
  -- where twice the id's length plus 12 exceeds NAME_MAX, whatever the rest of the request and the
  -- stream are. It leaves the stream, files, entries and descriptors as they were.
  pub put-long_id :
      (address : ℕ) (s : State) (w : W)
      → 0 < length request.chunk_id.value
      → length request.chunk_id.value ≤ 1024
      → name_max < 2 * length request.chunk_id.value + 12
      → (is_ok (validate_id request.chunk_id) ≡ true)
        × Ensures
            (put os b input request root address (s, w))
            (λ st t. (is_ok st ≡ false) × (fs t.0 ≡ fs s) × (t.1 ≡ w))
  unfolding put
  put-long_id address s w some_bytes short long =
      let final = path_for root request.chunk_id in
      let temp = temp_path os root final address in
      let t = (create_directories root s).1 in
      let named = long_id-valid request.chunk_id some_bytes short in
      (
        named,
        rw named (
            Ensures-if (is_ok (validate_checksum request.expected_checksum)) _ _ (s, w)
              (λ _.
                Ensures_mono
                  (after_directories-long temp final (create_directories root s).0 t w
                    (omega (arith, long, length-temp_path os root request.chunk_id address)))
                  λ st u failed. (failed.0, failed.1 ∙ laws.create_directories_fs root s, failed.2))
              (λ bad. Ensures-some (bad, refl, refl))),
      )
