-- ===== src/Client/Storage/Get.antt =====
-- What StorageClient::Get leaves of the client's files.
use distributed_cache_system.Prelude.{
  ℕ, ◌+◌, ◌%◌, ◌≡◌, ◌≢◌, refl, sym, ap, ◌∙◌, inl, inr, Bool-cases, false, true, Option, none, some,
  List, length, length-append, arith,
}
use distributed_cache_system.Prelude.Action.{
  Ensures, Ensures-some, Ensures-if, Ensures-bind, Ensures_mono, Ensures-on_first, Ensures_returned,
  Ensures_at, Ensures-of,
}
use distributed_cache_system.Status.{
  Status, status, is_ok, StatusOr, from_status, from_value, normalize_error,
}
use distributed_cache_system.Types.{
  u64, ObjectId, ChunkId, valid, GetChunkRequest, HeadChunkResponse, WorkerEndpoint,
}
use distributed_cache_system.Posix.{FilePath, Fs, Posix, path_eq}
use distributed_cache_system.Posix.Documented.{IsDocumented}
use distributed_cache_system.Blake3.{Blake3, IsBlake3}
use distributed_cache_system.Client.DataPlane.{DataPlaneClient, IsDataPlaneClient}
use distributed_cache_system.Client.Storage.{
  temp_destination, download, get_headed, get_chunk_id, client_get, to_chunk_id,
}
use distributed_cache_system.Client.Storage.Staging.{
  GetEnd, IsStaged-GetEnd, IsStaged-same, after_download-Ensures,
}

-- The temporary file is not the destination.
temp_destination-ne_self :
    (os : Posix) (destination : FilePath) (id : ℕ)
    → temp_destination os destination id ≢ destination
unfolding temp_destination
temp_destination-ne_self os destination id e =
    let p = ap (λ (f : FilePath). length f.filename) e in
    absurd (omega (arith, p, length-append destination.filename))

-- The request of Get for a chunk that Head has reported.
abbrev pub whole_chunk : ChunkId → HeadChunkResponse → GetChunkRequest
whole_chunk chunk_id head = record {
  chunk_id = chunk_id;
  range = record { offset = 0; size = head.size };
}

module _ (os : Posix) (laws : IsDocumented os) (b : Blake3) (hashes : IsBlake3 b) {N : Type 0}
    (client : DataPlaneClient os N) (lawful : IsDataPlaneClient os client) (worker : WorkerEndpoint)
    (destination : FilePath) where
  open os use {State, fs, exists}

  module _ (Reports : HeadChunkResponse → List ℕ → Type 0) where
    -- What a download of this chunk, of the size that Head has reported, puts at `temp` when it is
    -- asked for from the state `n` of the network.
    abbrev DownloadsTo : ChunkId → N → FilePath → HeadChunkResponse → Type 0
    DownloadsTo chunk_id n temp head =
        (u : State)
        → Ensures (client.get_chunk worker (whole_chunk chunk_id head) temp (u, n)) (λ st v.
          is_ok st ≡ true
          → (i : ℕ) → (fs v.0).entry temp ≡ some i
          → Reports head ((fs v.0).bytes i))

    download-Ensures :
        (chunk_id : ChunkId) (temp : FilePath) (head : HeadChunkResponse) (s : State) (n : N)
        → temp ≢ destination
        → DownloadsTo chunk_id n temp head
        → Ensures
            (download os b client worker chunk_id temp destination head (s, n))
            (λ st t. GetEnd b Reports temp destination (fs s) st (fs t.0))
    unfolding download status
    download-Ensures chunk_id temp head s n distinct delivers =
        let t = (exists temp s).1 in
        let same : fs t ≡ fs s = laws.exists_fs temp s in
        Ensures-if (exists temp s).0 _ _ (t, n)
          (λ there. Ensures-some (
            IsStaged-GetEnd b Reports temp destination
              (IsStaged-same b Reports temp destination same) refl))
          (λ free. rw (← same) (
            Ensures-bind _ (Ensures_returned (delivers t)) λ st u arrived.
              Ensures_mono
                (Ensures-on_first u.1 (
                  after_download-Ensures b Reports temp destination distinct os laws hashes head u.0
                    st
                    (Ensures-of
                      (lawful.get_chunk-Ensures worker (whole_chunk chunk_id head) temp t n)
                      arrived.1)
                    arrived.0))
                λ st v ended. ended.0))

    get_headed-Ensures :
        (chunk_id : ChunkId) (failure : Status) (value : Option HeadChunkResponse) (s : State)
        (n : N) (id : ℕ)
        → (value ≡ none → is_ok failure ≡ false)
        → ((head : HeadChunkResponse)
            → value ≡ some head
            → DownloadsTo chunk_id n (temp_destination os destination id) head)
        → Ensures
            (get_headed os b client worker chunk_id destination failure value ((s, n), id))
            (λ st t.
              GetEnd b Reports
                (temp_destination os destination id)
                destination
                (fs s)
                st
                (fs t.0.0))
    unfolding get_headed
    get_headed-Ensures chunk_id failure none s n id honest delivers =
        let temp = temp_destination os destination id in
        Ensures-some (
          IsStaged-GetEnd b Reports temp destination (IsStaged-same b Reports temp destination refl)
            (honest refl))
    get_headed-Ensures chunk_id failure (some head) s n id honest delivers =
        Ensures_mono
          (Ensures-on_first ((id + 1) % u64) (
            download-Ensures chunk_id (temp_destination os destination id) head s n
              (temp_destination-ne_self os destination id) (delivers head refl)))
          λ st t ended. ended.0

-- Once Head has answered from the state `t`, a download of the whole chunk leaves at `temp` what
-- `Reports` says of the answer.
abbrev pub Downloads :
    (os : Posix) {N : Type 0}
    → DataPlaneClient os N
    → WorkerEndpoint
    → ObjectId
    → os.State × N
    → FilePath
    → (HeadChunkResponse → List ℕ → Type 0)
    → Type 0
Downloads os {N} client worker object_id x temp Reports =
    (r : StatusOr HeadChunkResponse) (y : os.State × N) (head : HeadChunkResponse)
    → client.head_chunk worker (record { value = object_id.value }) x ≡ some (r, y)
    → r.held_value ≡ some head
    → (u : os.State)
    → Ensures
        (client.get_chunk worker (whole_chunk (record { value = object_id.value }) head) temp
          (u, y.1))
        (λ st v.
          is_ok st ≡ true
          → (i : ℕ) → (os.fs v.0).entry temp ≡ some i
          → Reports head ((os.fs v.0).bytes i))

-- Get, where the contents of what a download delivers are known.
pub client_get-Downloads :
    (os : Posix) (laws : IsDocumented os) (b : Blake3) (hashes : IsBlake3 b) {N : Type 0}
    (client : DataPlaneClient os N) (lawful : IsDataPlaneClient os client) (worker : WorkerEndpoint)
    (object_id : ObjectId) (destination : FilePath) (s : os.State) (n : N) (id : ℕ)
    (Reports : HeadChunkResponse → List ℕ → Type 0)
    → Downloads os client worker object_id
        ((os.exists destination s).1, n)
        (temp_destination os destination id)
        Reports
    → Ensures (client_get os b client worker object_id destination ((s, n), id)) (λ st t.
      GetEnd b Reports (temp_destination os destination id) destination (os.fs s) st (os.fs t.0.0))
unfolding client_get get_chunk_id to_chunk_id from_status from_value normalize_error status
client_get-Downloads os laws b hashes client lawful worker object_id destination s n id Reports
      delivers =
    elim (Bool-cases (valid object_id.value)) [
      | inr absent ↦ rw absent (Ensures-some (nothing refl refl))
      | inl there ↦ rw there (
          Ensures-if (os.exists destination s).0 _ _ ((t, n), id)
            (λ taken. Ensures-some (nothing refl same))
            (λ free.
              Ensures-bind _
                (Ensures-on_first id (
                  Ensures_returned
                    (lawful.head_chunk-Ensures worker (record { value = object_id.value }) t n)))
                λ r u answered.
                  Ensures_at
                    (get_headed os b client worker _ destination r.held_status r.held_value) u id
                    answered.1
                    (rw (sym same ∙ sym answered.0.0.1) (
                      get_headed-Ensures os laws b hashes client lawful worker destination Reports _
                        r.held_status r.held_value u.0.0 u.0.1 id answered.0.0.0
                        (λ head e. delivers r u.0 head answered.0.1 e)))))
    ]
  where
    t : os.State
    t = (os.exists destination s).1

    same : os.fs t ≡ os.fs s
    same = laws.exists_fs destination s

    nothing :
        {st : Status} {g : Fs}
        → is_ok st ≡ false
        → g ≡ os.fs s
        → GetEnd b Reports (temp_destination os destination id) destination (os.fs s) st g
    nothing bad e =
        let temp = temp_destination os destination id in
        IsStaged-GetEnd b Reports temp destination (IsStaged-same b Reports temp destination e) bad

-- The worker has answered a Head of the object, asked from the state `x`, with `head`.
abbrev pub Answers :
    (os : Posix) {N : Type 0}
    → DataPlaneClient os N
    → WorkerEndpoint
    → ObjectId
    → os.State × N
    → HeadChunkResponse
    → Type 0
Answers os {N} client worker object_id x head =
    (r : StatusOr HeadChunkResponse) × (y : os.State × N) × (client.head_chunk worker
        (record { value = object_id.value }) x
      ≡ some (r, y))
    × (r.held_value ≡ some head)

-- With an operating system, a hash and transfers that behave as documented, Get ends. Only the
-- temporary name beside the destination and the destination can name another file than before,
-- what names a file before still holds the same bytes, and every descriptor is closed. The
-- destination is as before and Get reports an error, or Get returns OK, the destination was free,
-- and it names a file whose size, modulo 2^64, and BLAKE3 checksum are those that the worker has
-- answered to Head.
pub client_get-Ensures :
    (os : Posix) (laws : IsDocumented os) (b : Blake3) (hashes : IsBlake3 b) {N : Type 0}
    (client : DataPlaneClient os N) (lawful : IsDataPlaneClient os client) (worker : WorkerEndpoint)
    (object_id : ObjectId) (destination : FilePath) (s : os.State) (n : N) (id : ℕ)
    → Ensures (client_get os b client worker object_id destination ((s, n), id)) (λ st t.
      GetEnd b
        (λ head contents. Answers os client worker object_id ((os.exists destination s).1, n) head)
        (temp_destination os destination id)
        destination
        (os.fs s)
        st
        (os.fs t.0.0))
client_get-Ensures os laws b hashes client lawful worker object_id destination s n id =
    client_get-Downloads os laws b hashes client lawful worker object_id destination s n id _
      λ r y head ran answered u.
        Ensures_mono
          (lawful.get_chunk-Ensures worker (whole_chunk (record { value = object_id.value }) head)
            (temp_destination os destination id) u y.1)
          λ st v d okay i named. (r, y, ran, answered)
