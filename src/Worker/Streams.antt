-- ===== src/Worker/Streams.antt =====
-- include/storage/storage/worker/streams.h and chunk_store.h: the interfaces between the stages.
use distributed_cache_system.Prelude.{ℕ, ◌≡◌, ◌≢◌, length, true, false, none, some, List, [], ◌++◌}
use distributed_cache_system.Status.{Status, is_ok, StatusOr}

-- class ChunkInputStream. `Read` gets the size of a buffer; the bytes that it has put into the
-- buffer stand for the count that it returns.
pub record InputStream (W : Type 0) : Type 0 where
  pub read : ℕ → W → StatusOr (List ℕ) × W

-- A StatusOr with no value has an error, as its constructors see to.
abbrev pub IsHonest : {W : Type 0} → InputStream W → Type 0
IsHonest {W} input =
    (w : W) (capacity : ℕ)
    → (input.read capacity w).0.held_value ≡ none
    → is_ok (input.read capacity w).0.held_status ≡ false

-- class ChunkOutputStream
pub record OutputStream (W : Type 0) : Type 0 where
  pub write : List ℕ → W → Status × W

-- Reading with buffers of one size until Read returns no bytes gives these bytes in all.
pub data Delivers {W : Type 0} (input : InputStream W) (capacity : ℕ)
    : W → List ℕ → W → Type 0 where
  at_end :
      {w w' : W} {bytes : List ℕ}
      → (input.read capacity w).0.held_value ≡ some []
      → (input.read capacity w).1 ≡ w'
      → bytes ≡ []
      → Delivers input capacity w bytes w'
  more :
      {w w' : W} {bytes : List ℕ} (first rest : List ℕ)
      → (input.read capacity w).0.held_value ≡ some first
      → length first ≢ 0
      → bytes ≡ first ++ rest
      → Delivers input capacity (input.read capacity w).1 rest w'
      → Delivers input capacity w bytes w'

-- The calls of Write that hand over these bytes, in order and in any pieces. They end with the
-- bytes, with an error before a piece, or with the error of Write on a piece.
pub data Sent {V : Type 0} (output : OutputStream V) (st : Status) : V → List ℕ → V → Type 0 where
  sent_all :
      {v v' : V} {bytes : List ℕ}
      → is_ok st ≡ true
      → bytes ≡ []
      → v' ≡ v
      → Sent output st v bytes v'
  gave_up : {v v' : V} {bytes : List ℕ} → is_ok st ≡ false → v' ≡ v → Sent output st v bytes v'
  not_taken :
      {v v' : V} {bytes : List ℕ} (piece rest : List ℕ)
      → bytes ≡ piece ++ rest
      → (output.write piece v).0 ≡ st
      → is_ok st ≡ false
      → v' ≡ (output.write piece v).1
      → Sent output st v bytes v'
  taken :
      {v v' : V} {bytes : List ℕ} (piece rest : List ℕ)
      → bytes ≡ piece ++ rest
      → is_ok (output.write piece v).0 ≡ true
      → Sent output st (output.write piece v).1 rest v'
      → Sent output st v bytes v'
