-- ===== src/Rpc/Streams.antt =====
-- RpcInputStream and RpcOutputStream: a chunk's stream over the frames of a gRPC call. The call,
-- grpc::ServerReader and grpc::ServerWriter, is a parameter.
pub mod Frames
use distributed_cache_system.Prelude.{
  ℕ, ◌+◌, ◌-◌, List, [], Option, none, some, Bool, true, false, ◌==◌, min, if◌then◌else◌, length,
  take, drop, text,
}
use distributed_cache_system.Status.{
  Status, ok, status, StatusOr, from_status, from_value, k_invalid_argument, k_unavailable,
}
use distributed_cache_system.Worker.Streams.{InputStream, OutputStream}

-- message PutChunkMetadata
pub record PutChunkMetadata : Type 0 where
  pub chunk_id : List ℕ
  pub expected_size : ℕ
  pub expected_checksum : List ℕ

-- message PutChunkFrame: the oneof, which may be unset
pub data PutChunkFrame : Type 0 where
  metadata : PutChunkMetadata → PutChunkFrame
  data_bytes : List ℕ → PutChunkFrame
  payload_not_set : PutChunkFrame

-- grpc::ServerReader<PutChunkFrame>: Read's frame, or `none` where it returns false
pub record Reader (R : Type 0) : Type 0 where
  pub read : R → Option PutChunkFrame × R

-- grpc::ServerWriter<ChunkData>: whether Write has taken the frame
pub record Writer (R : Type 0) : Type 0 where
  pub write : List ℕ → R → Bool × R

-- class RpcInputStream
pub record RpcInput (R : Type 0) : Type 0 where
  pub reader : R
  pub data_ : List ℕ
  pub offset_ : ℕ

module _ {R : Type 0} where
  -- A stream as its constructor leaves it.
  abbrev pub rpc_input : R → RpcInput R
  rpc_input reader = record { reader = reader; data_ = []; offset_ = 0 }

  -- Read from `std::min` on: the bytes that memcpy has put into the buffer.
  unfoldable pub take_data : ℕ → RpcInput R → StatusOr (List ℕ) × RpcInput R
  unfolding from_value
  take_data capacity s =
      let count = min capacity (length s.data_ - s.offset_) in
      (from_value (take count (drop s.offset_ s.data_)), record s { offset_ = s.offset_ + count })

  -- Read with the next frame.
  unfoldable pub take_frame : ℕ → Option PutChunkFrame → RpcInput R → StatusOr (List ℕ) × RpcInput R
  unfolding take_data from_status status
  take_frame capacity none s = (from_value [], s)
  take_frame capacity (some (data_bytes bytes)) s =
      let s' = record s { data_ = bytes; offset_ = 0 } in
      if length bytes == 0
      then (from_status (status k_invalid_argument (text "empty data frame")), s')
      else take_data capacity s'
  take_frame capacity (some _) s =
      (from_status (status k_invalid_argument (text "metadata must be the first frame only")), s)

  -- RpcInputStream::Read
  unfoldable pub rpc_read : Reader R → ℕ → RpcInput R → StatusOr (List ℕ) × RpcInput R
  unfolding take_frame
  rpc_read reader capacity s =
      if capacity == 0
      then (from_status (status k_invalid_argument (text "input buffer cannot be empty")), s)
      else if s.offset_ == length s.data_
      then (let (frame, rest) = reader.read s.reader in
          take_frame capacity frame (record s { reader = rest }))
      else take_data capacity s

  abbrev pub rpc_input_stream : Reader R → InputStream (RpcInput R)
  rpc_input_stream reader = record { read = rpc_read reader }

  -- RpcOutputStream::Write
  unfoldable pub rpc_write : Writer R → List ℕ → R → Status × R
  unfolding status
  rpc_write writer bytes r =
      let (taken, r') = writer.write bytes r in
      (if taken then ok else status k_unavailable (text "client closed get stream"), r')

  abbrev pub rpc_output_stream : Writer R → OutputStream R
  rpc_output_stream writer = record { write = rpc_write writer }
