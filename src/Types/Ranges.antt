-- ===== src/Types/Ranges.antt =====
-- `ValidateByteRange` against the interval that it guards.
use distributed_cache_system.Prelude.{ℕ, ◌+◌, ◌≤◌, ◌<◌, ◌≡◌, ◌↔◌, true, arith}
use distributed_cache_system.Status.{is_ok}
use distributed_cache_system.Types.{ByteRange, u64, validate_byte_range}

-- For an object of a size that a uint64 holds, a range is accepted exactly when
-- offset + size, added without wrapping, does not exceed the object's size.
pub validate_byte_range_iff :
    (range : ByteRange) (total_size : ℕ)
    → total_size < u64
    → (is_ok (validate_byte_range range total_size) ≡ true)
      ↔ (range.offset + range.size ≤ total_size)
unfolding validate_byte_range
validate_byte_range_iff range total_size h = ground arith
