-- ===== src/Contract/Accounts.antt =====
-- Puts and Deletes of one id that returned OK, counted over a sequence of calls of
-- src/storage/worker/data_plane_service.cpp over a FileChunkStore.
use distributed_cache_system.Prelude.{
  ℕ, ◌+◌, ◌≤◌, ◌≡◌, ◌≢◌, sym, ap, ◌∙◌, inl, inr, Bool, Bool-cases, true, false, ◌&&◌, Option, none,
  some, List, ◌∷◌, All, if◌then◌else◌, same_bytes, same_bytes→eq, same_bytes_refl, arith,
}
use distributed_cache_system.Prelude.Action.{Ensures, Ensures_mono}
use distributed_cache_system.Status.{Status, is_ok}
use distributed_cache_system.Types.{ChunkId, PutChunkRequest}
use distributed_cache_system.Posix.{Posix}
use distributed_cache_system.Posix.Documented.{IsDocumented}
use distributed_cache_system.Blake3.{Blake3, IsBlake3}
use distributed_cache_system.Worker.Streams.{InputStream, OutputStream, IsHonest}
use distributed_cache_system.Rpc.DataPlane.{file_chunk_store}
use distributed_cache_system.Contract.{
  StoredChunk, ChunkMap, IsId, PutObeys, put_refused, put_stored, DeleteObeys, removed, not_removed,
}
use distributed_cache_system.Contract.Files.{chunks, IsSound}
use distributed_cache_system.Contract.FilePaths.{same_or_other}
use distributed_cache_system.Contract.FileChunkStore.{file_chunk_store-IsChunkStore}
use distributed_cache_system.Contract.Histories.{
  Call, put_call, delete_call, Reply, put_reply, delete_reply, serve_all, IsProper, Obeys,
  put_obeyed, get_obeyed, head_obeyed, delete_obeyed, History, no_calls, then_calls,
}
use distributed_cache_system.Contract.Service.{serve_all-History}

abbrev pub is_id : ChunkId → ChunkId → Bool
is_id chunk_id q = same_bytes q.value chunk_id.value

abbrev pub counted : Bool → ℕ
counted c = if c then 1 else 0

-- 1 for a Put, a Delete of this id that returned OK.
abbrev pub put_count : {W V : Type 0} → ChunkId → Call W V → Reply V → ℕ
put_count chunk_id (put_call address request w) (put_reply st) =
    counted (is_id chunk_id request.chunk_id && is_ok st)
put_count chunk_id _ _ = 0

abbrev pub delete_count : {W V : Type 0} → ChunkId → Call W V → Reply V → ℕ
delete_count chunk_id (delete_call q) (delete_reply st) = counted (is_id chunk_id q && is_ok st)
delete_count chunk_id _ _ = 0

unfoldable pub puts_ok : {W V : Type 0} → ChunkId → List (Call W V) → List (Reply V) → ℕ
puts_ok chunk_id (call ∷ calls) (reply ∷ replies) =
    put_count chunk_id call reply + puts_ok chunk_id calls replies
puts_ok chunk_id _ _ = 0

unfoldable pub deletes_ok : {W V : Type 0} → ChunkId → List (Call W V) → List (Reply V) → ℕ
deletes_ok chunk_id (call ∷ calls) (reply ∷ replies) =
    delete_count chunk_id call reply + deletes_ok chunk_id calls replies
deletes_ok chunk_id _ _ = 0

abbrev pub held : Option StoredChunk → ℕ
held none = 0
held (some c) = 1

pub is_id_self : (chunk_id q : ChunkId) → chunk_id ≡ q → is_id chunk_id q ≡ true
is_id_self chunk_id q e = rw (← e) (same_bytes_refl chunk_id.value)

is_id→eq : (chunk_id q : ChunkId) → is_id chunk_id q ≡ true → q ≡ chunk_id
is_id→eq chunk_id q e i = record { value = same_bytes→eq q.value chunk_id.value e i }

held_bound : (o : Option StoredChunk) → held o ≤ 1
held_bound none = omega arith
held_bound (some c) = omega arith

counted_bound : (c : Bool) → counted c ≤ 1
counted_bound true = omega arith
counted_bound false = omega arith

counted_other :
    (chunk_id q : ChunkId) (okay : Bool) → q ≢ chunk_id → counted (is_id chunk_id q && okay) ≡ 0
counted_other chunk_id q okay other = elim (Bool-cases (is_id chunk_id q)) [
  | inl same ↦ absurd (other (is_id→eq chunk_id q same))
  | inr differs ↦ ground arith
]

module _ {W V : Type 0} (b : Blake3) (input : InputStream W) (output : OutputStream V)
    (chunk_id : ChunkId) (is : IsId chunk_id) where
  put_balance :
      {m n : ChunkMap} {request : PutChunkRequest} {w : W} {st : Status}
      → PutObeys b input request w st m n
      → held (m chunk_id) + counted (is_id chunk_id request.chunk_id && is_ok st)
        ≤ held (n chunk_id)
  put_balance (put_refused bad kept) = ground (arith, ap held (kept chunk_id is))
  put_balance {m} {n} {request} {st} (put_stored chunk w' free sets chunk_is given) =
      elim (same_or_other request.chunk_id chunk_id) [
        | inl same ↦ omega (
          arith,
          ap held (ap m (sym same) ∙ free),
          ap held (ap n (sym same) ∙ sets.at_id),
          counted_bound (is_id chunk_id request.chunk_id && is_ok st),
        )
        | inr other ↦ omega (
          arith,
          ap held (sets.elsewhere chunk_id is other),
          counted_other chunk_id request.chunk_id (is_ok st) other,
        )
      ]

  delete_balance :
      {m n : ChunkMap} {q : ChunkId} {st : Status}
      → DeleteObeys q st m n
      → held (m chunk_id) ≤ held (n chunk_id) + counted (is_id chunk_id q && is_ok st)
  delete_balance {m} {q} (removed okay there sets) = elim (same_or_other q chunk_id) [
    | inl same ↦ ground (arith, held_bound (m chunk_id), is_id_self chunk_id q (sym same))
    | inr other ↦ omega (arith, ap held (sets.elsewhere chunk_id is other))
  ]
  delete_balance (not_removed bad missing kept) = omega (arith, ap held (kept chunk_id is))

  step_balance :
      {m n : ChunkMap} {call : Call W V} {reply : Reply V}
      → Obeys b input output m n call reply
      → held (m chunk_id) + put_count chunk_id call reply
        ≤ held (n chunk_id) + delete_count chunk_id call reply
  step_balance (put_obeyed h) = omega (arith, put_balance h)
  step_balance (get_obeyed h kept) = omega (arith, ap held (kept chunk_id is))
  step_balance (head_obeyed h kept) = omega (arith, ap held (kept chunk_id is))
  step_balance (delete_obeyed h) = omega (arith, delete_balance h)

  pub History-balance :
      {m n : ChunkMap} {calls : List (Call W V)} {replies : List (Reply V)}
      → History b input output m n calls replies
      → held (m chunk_id) + puts_ok chunk_id calls replies
        ≤ held (n chunk_id) + deletes_ok chunk_id calls replies
  unfolding puts_ok deletes_ok
  History-balance no_calls = omega arith
  History-balance (then_calls first rest) = omega (arith, step_balance first, History-balance rest)

-- With an operating system and a hash that behave as documented, from files that are each well
-- formed and match the checksum in their header: every sequence of calls of DataPlaneService over a
-- FileChunkStore, with ids that are byte strings and requests to Put whose size and header stay
-- below 2^64 bytes, ends. For each id that is a byte string, the Puts that returned OK, with one
-- more where the id held a chunk before, are at most the Deletes of it that returned OK, with one
-- more where the id holds a chunk afterwards.
pub serve_all-balance :
    (os : Posix) (laws : IsDocumented os) (b : Blake3) (hashes : IsBlake3 b) (root : List ℕ)
    {W V : Type 0} (input : InputStream W) (honest : IsHonest input) (output : OutputStream V)
    (calls : List (Call W V)) (s : os.State) (chunk_id : ChunkId)
    → All IsProper calls
    → IsSound b root (os.fs s)
    → IsId chunk_id
    → Ensures (serve_all (file_chunk_store os b root) input output calls s) (λ replies t.
      held (chunks root (os.fs s) chunk_id) + puts_ok chunk_id calls replies
      ≤ held (chunks root (os.fs t) chunk_id) + deletes_ok chunk_id calls replies)
serve_all-balance os laws b hashes root input honest output calls s chunk_id proper sound is =
    Ensures_mono
      (serve_all-History b (file_chunk_store os b root) _ _
        (file_chunk_store-IsChunkStore os laws b hashes root) input honest output calls s proper
        sound)
      λ replies t h. History-balance b input output chunk_id is h.0
