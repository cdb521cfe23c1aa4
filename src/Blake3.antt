-- ===== src/Blake3.antt =====
-- The BLAKE3 library, <blake3.h>: not under src/, so a parameter of the code that hashes.
use distributed_cache_system.Prelude.{ℕ, ◌<◌, ◌≡◌, List, [], ◌++◌, All, length}

-- blake3_hasher_init, blake3_hasher_update, blake3_hasher_finalize with BLAKE3_OUT_LEN bytes.
pub record Blake3 : Type 1 where
  pub Hasher : Type 0
  pub init : Hasher
  pub update : Hasher → List ℕ → Hasher
  pub finalize : Hasher → List ℕ

-- The digest of a whole text.
abbrev pub digest : Blake3 → List ℕ → List ℕ
digest b bytes = b.finalize (b.update b.init bytes)

-- Hashing is incremental, and a digest is BLAKE3_OUT_LEN = 32 bytes.
pub record IsBlake3 (b : Blake3) : Type 0 where
  pub update-nil : b.update b.init [] ≡ b.init
  pub update-update :
      (h : b.Hasher) (x y : List ℕ) → b.update (b.update h x) y ≡ b.update h (x ++ y)
  pub length-finalize : (h : b.Hasher) → length (b.finalize h) ≡ 32
  pub finalize-IsByte : (h : b.Hasher) → All (λ x. x < 256) (b.finalize h)
