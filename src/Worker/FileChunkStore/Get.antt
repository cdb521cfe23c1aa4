-- ===== src/Worker/FileChunkStore/Get.antt =====
-- FileChunkStore::Get, over the operating system's state and the output stream's.
pub mod Loop
pub mod Outcome
pub mod Success
use distributed_cache_system.Prelude.{
  ℕ, zero, suc, ◌+◌, ◌-◌, ◌%◌, Option, none, some, List, ◌++◌, ◌==◌, ltb, min, if◌then◌else◌,
  length, text,
}
use distributed_cache_system.Prelude.Action.{Action, pure, call, gets, ◌>>=◌, ◌>>◌, on_first}
use distributed_cache_system.Status.{Status, ok, status, is_ok, unless_failed, k_corruption}
use distributed_cache_system.Types.{u64, GetChunkRequest, HeadChunkResponse, validate_byte_range}
use distributed_cache_system.Posix.{ℤ, read_no_follow, Posix}
use distributed_cache_system.UniqueFd.{unique_fd, owns, destroy}
use distributed_cache_system.Worker.Streams.{OutputStream}
use distributed_cache_system.Worker.Calls.{pread_some}
use distributed_cache_system.Worker.Names.{path_for}
use distributed_cache_system.Worker.Header.{k_header_size}
use distributed_cache_system.Worker.FileChunkStore.Put.{k_buffer_size}
use distributed_cache_system.Worker.FileChunkStore.Head.{head, open_failure}

module _ (os : Posix) {V : Type 0} (output : OutputStream V) where
  open os use {State, errno}

  -- output.Write
  abbrev pub put_out : List ℕ → Action (State × V) Status
  put_out bytes (s, v) = let (st, v') = output.write bytes v in some (st, (s, v'))

  -- What a round of Get's loop does with PreadSome's result.
  unfoldable pub get_round :
      (ℕ → ℕ → Action (State × V) Status)
      → ℕ
      → ℕ
      → Status
      → Option (List ℕ)
      → Action (State × V) Status
  get_round again remaining offset failure none = pure failure
  get_round again remaining offset failure (some bytes) =
      if length bytes == 0
      then pure (status k_corruption (text "unexpected EOF while reading chunk"))
      else (do
        st ← put_out bytes
        if is_ok st
            then again (remaining - length bytes) ((offset + length bytes) % u64)
            else pure st)

  -- `while (remaining > 0)`. PreadSome returns no more than is wanted, so `remaining` cannot wrap.
  unfoldable pub get_loop : ℕ → ℤ → ℕ → ℕ → Action (State × V) Status
  unfolding get_round
  get_loop zero fd remaining offset s = none
  get_loop (suc fuel) fd remaining offset s =
      (if ltb 0 remaining
          then (do
            r ← on_first (pread_some os fd (min remaining k_buffer_size) offset)
            get_round (get_loop fuel fd) remaining offset r.held_status r.held_value)
          else pure ok)
        s

  -- Get with the descriptor that open has returned. A round takes a byte at least off `remaining`.
  unfoldable pub get_opened : List ℕ → GetChunkRequest → ℤ → Action (State × V) Status
  unfolding get_loop open_failure
  get_opened root request fd =
      if owns (unique_fd fd)
      then (do
        st ←
            get_loop (request.range.size + 1) fd request.range.size
              ((request.range.offset + k_header_size) % u64)
        on_first (destroy os (unique_fd fd))
        pure st)
      else (do
        e ← on_first (gets errno)
        pure (open_failure os request.chunk_id (path_for root request.chunk_id) e))

  -- Get once Head has returned.
  unfoldable pub get_headed :
      List ℕ → GetChunkRequest → Status → Option HeadChunkResponse → Action (State × V) Status
  unfolding get_opened
  get_headed root request failure none = pure failure
  get_headed root request failure (some response) =
      unless_failed (validate_byte_range request.range response.size) (do
        fd ← on_first (call (os.open_file (path_for root request.chunk_id) read_no_follow))
        get_opened root request fd)

  -- FileChunkStore::Get
  unfoldable pub get : List ℕ → GetChunkRequest → Action (State × V) Status
  unfolding get_headed head destroy
  get root request = do
    r ← on_first (head os root request.chunk_id)
    get_headed root request r.held_status r.held_value
