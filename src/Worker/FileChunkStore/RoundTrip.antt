-- ===== src/Worker/FileChunkStore/RoundTrip.antt =====
-- A chunk that Put has stored is the chunk that Head and Get report.
use distributed_cache_system.Prelude.{
  ℕ, ◌+◌, ◌≤◌, ◌<◌, ◌≡◌, refl, sym, ap, ◌∙◌, ◌⊎◌, inl, inr, true, false, none, some, List, ◌++◌,
  length, length-append, take, drop, take-append_left, drop-append_left, arith,
}
use mathlib.Core.Option.{some-injective}
use distributed_cache_system.Prelude.Action.{Ensures, Ensures-of, Ensures_mono}
use distributed_cache_system.Status.{Status, is_ok, StatusOr}
use distributed_cache_system.Types.{
  u64, ByteRange, ChunkId, PutChunkRequest, HeadChunkResponse, k_blake3, ChecksumAlgorithm,
  validate_checksum,
}
use distributed_cache_system.Posix.{Posix}
use distributed_cache_system.Posix.Documented.{IsDocumented}
use distributed_cache_system.Worker.Streams.{InputStream, OutputStream, IsHonest, Delivers, Sent}
use distributed_cache_system.Worker.Names.{path_for}
use distributed_cache_system.Types.Checksums.{validate_checksum_iff}
use distributed_cache_system.Worker.Header.{
  k_magic, k_header_size, make_header, header_magic, header_size, header_checksum,
}
use distributed_cache_system.Worker.Header.RoundTrip.{
  length-make_header, header_size-make_header, header_checksum-make_header,
}
use distributed_cache_system.Blake3.{Blake3, IsBlake3}
use distributed_cache_system.Worker.FileChunkStore.Put.Fill.{IsChunk, chunk_file}
use distributed_cache_system.Worker.FileChunkStore.Put.{k_buffer_size, put}
use distributed_cache_system.Worker.FileChunkStore.Put.Outcome.{AtFinal, left_alone, stored}
use distributed_cache_system.Worker.FileChunkStore.Put.Atomic.{put-Ensures}
use distributed_cache_system.Worker.FileChunkStore.Put.Checked.{put_checked}
use distributed_cache_system.Worker.FileChunkStore.Head.{head}
use distributed_cache_system.Worker.FileChunkStore.Head.Header.{reported, IsChunkFile}
use distributed_cache_system.Worker.FileChunkStore.Head.Outcome.{
  HeadOutcome, bad_id, io_failed, not_found, corrupt, found, head-Ensures,
}
use distributed_cache_system.Worker.FileChunkStore.Get.{get}
use distributed_cache_system.Worker.FileChunkStore.Get.Loop.{slice}
use distributed_cache_system.Worker.FileChunkStore.Get.Outcome.{
  GetOutcome, nothing_sent, range_sent, get-Ensures,
}

same_algorithm : (a b : ChecksumAlgorithm) → a ≡ b
same_algorithm k_blake3 k_blake3 = refl

module _ (request : PutChunkRequest) (chunk : List ℕ)
    (valid : is_ok (validate_checksum request.expected_checksum) ≡ true)
    (size : length chunk ≡ request.expected_size)
    (fits : request.expected_size + k_header_size < u64) where
  full : length request.expected_checksum.value ≡ 64
  full = ((validate_checksum_iff request.expected_checksum).0 valid).0

  header : List ℕ
  header = make_header request.expected_size request.expected_checksum

  counted : length header ≡ k_header_size
  unfolding header
  counted = length-make_header request.expected_size request.expected_checksum (omega arith) full

  take-header : take k_header_size (chunk_file request chunk) ≡ header
  unfolding header
  take-header = take-append_left _ chunk k_header_size (sym counted)

  pub drop-chunk_file : drop k_header_size (chunk_file request chunk) ≡ chunk
  unfolding header
  drop-chunk_file = drop-append_left _ chunk k_header_size (sym counted)

  same_checksum : header_checksum header ≡ request.expected_checksum
  unfolding header
  same_checksum = λ i. record {
    algorithm =
        same_algorithm (header_checksum header).algorithm request.expected_checksum.algorithm i;
    value =
        header_checksum-make_header request.expected_size request.expected_checksum (omega arith)
          full i;
  }

  same_size : header_size header ≡ request.expected_size
  unfolding header
  same_size =
      header_size-make_header request.expected_size request.expected_checksum (omega arith) full

  magic_header : header_magic header ≡ k_magic
  unfolding header make_header
  magic_header = refl

  whole : length (chunk_file request chunk) ≡ request.expected_size + k_header_size
  whole =
      omega
        (arith, length-append header chunk, counted, ap (λ (c : List ℕ). length (c ++ chunk)) named)
    where
      named : make_header request.expected_size request.expected_checksum ≡ header
      named = unfold header in refl

  -- The file of a stored chunk is well formed.
  pub chunk_file-IsChunkFile : IsChunkFile (chunk_file request chunk)
  chunk_file-IsChunkFile = record {
    magic = rw take-header magic_header;
    checksum = rw (take-header, same_checksum) valid;
    size = rw (take-header, same_size) whole;
    fits = omega (arith, whole);
  }

  -- Head reports the size and the checksum with which the chunk was stored.
  pub reported-chunk_file :
      (chunk_id : ChunkId)
      → reported chunk_id (chunk_file request chunk) ≡ record {
        chunk_id = chunk_id;
        size = request.expected_size;
        checksum = request.expected_checksum;
      }
  reported-chunk_file chunk_id = rw (take-header, same_checksum, same_size) refl

-- Head's answer and Get's, once the chunk is stored.
pub record Serves (os : Posix) (root : List ℕ) (request : PutChunkRequest) (chunk : List ℕ)
    (t : os.State) : Type 1 where
  pub heads : Ensures (head os root request.chunk_id t) (λ r u.
      (r.held_value ≡ none)
      ⊎ (r.held_value
          ≡ some (record {
            chunk_id = request.chunk_id;
            size = request.expected_size;
            checksum = request.expected_checksum;
          })))
  pub gets :
      {V : Type 0} (output : OutputStream V) (range : ByteRange) (v : V)
      → Ensures
          (get os output root (record { chunk_id = request.chunk_id; range = range }) (t, v))
          (λ st u.
            ((is_ok st ≡ false) × (u.1 ≡ v))
            ⊎ ((range.offset + range.size ≤ length chunk)
                × Sent output st v (slice chunk range.offset range.size) u.1))

module _ (os : Posix) (laws : IsDocumented os) (root : List ℕ) (request : PutChunkRequest)
    (chunk : List ℕ) (valid : is_ok (validate_checksum request.expected_checksum) ≡ true)
    (size : length chunk ≡ request.expected_size)
    (fits : request.expected_size + k_header_size < u64) (t : os.State) (i : ℕ)
    (named : (os.fs t).entry (path_for root request.chunk_id) ≡ some i)
    (is : (os.fs t).bytes i ≡ chunk_file request chunk) where
  head_stored :
      (r : StatusOr HeadChunkResponse)
      → HeadOutcome root request.chunk_id (os.fs t) r
      → (r.held_value ≡ none)
        ⊎ (r.held_value
            ≡ some (record {
              chunk_id = request.chunk_id;
              size = request.expected_size;
              checksum = request.expected_checksum;
            }))
  head_stored r (bad_id e why bad) = inl e
  head_stored r (io_failed e why) = inl e
  head_stored r (not_found e why absent) = inl e
  head_stored r (corrupt j e why there bad) = inl e
  head_stored r (found j e there well) =
      let same : i ≡ j = some-injective _ _ (sym named ∙ there) in
      inr (
        e
        ∙ rw (← same, is, reported-chunk_file request chunk valid size fits request.chunk_id) refl)

  get_stored :
      {V : Type 0} (output : OutputStream V) (range : ByteRange) (v v' : V) (st : Status)
      → GetOutcome output root
          (record { chunk_id = request.chunk_id; range = range })
          (os.fs t)
          v
          st
          v'
      → ((is_ok st ≡ false) × (v' ≡ v))
        ⊎ ((range.offset + range.size ≤ length chunk)
            × Sent output st v (slice chunk range.offset range.size) v')
  get_stored output range v v' st (nothing_sent bad e) = inl (bad, e)
  get_stored output range v v' st (range_sent j there well inside sent) =
      let same : i ≡ j = some-injective _ _ (sym named ∙ there) in
      let file : (os.fs t).bytes j ≡ chunk_file request chunk = rw (← same) is in
      inr (
        omega (arith, inside, ap length file, whole request chunk valid size fits),
        rw (file, drop-chunk_file request chunk valid size fits) at sent,
      )

  pub stored-Serves : Serves os root request chunk t
  stored-Serves = record {
    heads = Ensures_mono (head-Ensures os laws root request.chunk_id t) λ r u h. head_stored r h.0;
    gets = λ output range v.
        Ensures_mono
          (get-Ensures os laws output root (record { chunk_id = request.chunk_id; range = range }) t
            v)
          λ st u h. get_stored output range v u.1 st h.0;
  }

-- With an operating system and a hash that behave as documented, and a request whose size and
-- header stay below 2^64 bytes: if Put returns OK, then the stream has delivered a chunk of the
-- size and the checksum asked for. From the state that Put leaves, Head reports just these or
-- fails. Get of a range either fails and sends nothing, or the range lies inside the chunk and
-- Get sends its bytes in order, all of them where it returns OK and no others where it fails on
-- the way.
pub put-Serves :
    (os : Posix) (laws : IsDocumented os) (b : Blake3) (hashes : IsBlake3 b) {W : Type 0}
    (input : InputStream W) (honest : IsHonest input) (request : PutChunkRequest) (root : List ℕ)
    (address : ℕ) (s t : os.State) (w w' : W) (st : Status)
    → request.expected_size + k_header_size < u64
    → put os b input request root address (s, w) ≡ some (st, (t, w'))
    → is_ok st ≡ true
    → (chunk : List ℕ) × IsChunk b request chunk
      × Delivers input k_buffer_size w chunk w'
      × Serves os root request chunk t
put-Serves os laws b hashes input honest request root address s t w w' st fits ran okay =
    go
      (Ensures-of (put-Ensures os laws b hashes input honest request root address s w) ran).at_final
  where
    go :
        AtFinal b request input (path_for root request.chunk_id) (os.fs s) w st (os.fs t) w'
        → (chunk : List ℕ) × IsChunk b request chunk
          × Delivers input k_buffer_size w chunk w'
          × Serves os root request chunk t
    go (left_alone bad kept) = cc
    go (stored i chunk free named is chunk_is given) = (
      chunk,
      chunk_is,
      given,
      stored-Serves os laws root request chunk
          (elim (Ensures-of (put_checked os laws b hashes input honest request root address s w)
            ran) [ inl valid ↦ valid | inr bad ↦ cc ])
          chunk_is.size fits t i named is,
    )
