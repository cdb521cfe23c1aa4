-- ===== src/Tests/Inputs.antt =====
-- A hash and streams that run, and the requests of the examples.
use distributed_cache_system.Prelude.{
  ℕ, zero, suc, ◌+◌, ◌<◌, refl, List, [], ◌∷◌, ◌++◌, All, append_assoc, ◌%◌, arith,
}
use distributed_cache_system.Status.{ok, StatusOr, from_value}
use distributed_cache_system.Types.{k_blake3, PutChunkRequest}
use distributed_cache_system.Blake3.{Blake3, IsBlake3}
use distributed_cache_system.Worker.Streams.{InputStream, OutputStream, IsHonest}
use distributed_cache_system.Tests.Memory.{Memory}

abbrev pub total : List ℕ → ℕ
total [] = 0
total (x ∷ xs) = x + total xs

abbrev pub padded : ℕ → ℕ → List ℕ
padded zero x = []
padded (suc n) x = x ∷ padded n x

-- 32 bytes from the sum of the bytes that went in.
abbrev pub toy_hash : Blake3
toy_hash = record {
  Hasher = List ℕ;
  init = [];
  update = λ h bytes. h ++ bytes;
  finalize = λ h. padded 32 (total h % 256);
}

-- Read hands over one piece at a time, Write keeps what it gets.
abbrev pub read_piece : List (List ℕ) → StatusOr (List ℕ) × List (List ℕ)
read_piece [] = (from_value [], [])
read_piece (piece ∷ pieces) = (from_value piece, pieces)

abbrev pub pieces : InputStream (List (List ℕ))
pieces = record { read = λ capacity. read_piece }

abbrev pub kept : OutputStream (List ℕ)
kept = record { write = λ bytes v. (ok, v ++ bytes) }

pub pieces-IsHonest : IsHonest pieces
unfolding from_value
pieces-IsHonest [] capacity = λ h. cc
pieces-IsHonest (piece ∷ rest) capacity = λ h. cc

padded-IsByte : (n x : ℕ) → x < 256 → All (λ y. y < 256) (padded n x)
padded-IsByte zero x h = tt
padded-IsByte (suc n) x h = (h, padded-IsByte n x h)

pub toy_hash-IsBlake3 : IsBlake3 toy_hash
toy_hash-IsBlake3 = record {
  update-nil = refl;
  update-update = append_assoc;
  length-finalize = λ h. refl;
  finalize-IsByte = λ h. padded-IsByte 32 _ (omega arith);
}

abbrev pub root : List ℕ
root = b'r' ∷ []

-- "f2" for each of the 32 bytes of the digest of "hi!", whose sum is 0xf2.
abbrev pub hex_text : ℕ → List ℕ
hex_text zero = []
hex_text (suc n) = b'f' ∷ b'2' ∷ hex_text n

abbrev pub request : PutChunkRequest
request = record {
  chunk_id = record { value = b'k' ∷ [] };
  expected_size = 3;
  expected_checksum = record { algorithm = k_blake3; value = hex_text 32 };
}

-- No files; two of the calls of write to come are interrupted.
abbrev pub empty : Memory
empty = record { entries = []; files = []; descriptors = []; error = 0; pending = 2 }
