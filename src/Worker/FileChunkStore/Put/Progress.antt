-- ===== src/Worker/FileChunkStore/Put/Progress.antt =====
-- The receiving loop of Put on a chunk that fits the request, where no call fails.
use distributed_cache_system.Prelude.{
  ℕ, zero, suc, ◌+◌, ◌≤◌, ◌<◌, ◌≡◌, refl, sym, ap, ◌∙◌, Bool, true, false, some, List, ◌==◌, length,
  length-append, arith,
}
use mathlib.Core.Option.{some-injective}
use distributed_cache_system.Prelude.Action.{
  Action, Ensures, Ensures-some, Ensures-if, Ensures-bind, Ensures-on_first, Ensures_at,
}
use distributed_cache_system.Status.{is_ok}
use distributed_cache_system.Types.{PutChunkRequest}
use distributed_cache_system.Posix.{ℤ, Posix}
use distributed_cache_system.Posix.Documented.{IsDocumented, IsAppending}
use distributed_cache_system.Posix.Appending.{appended-IsAppending}
use distributed_cache_system.Blake3.{Blake3}
use distributed_cache_system.Worker.Streams.{InputStream, Delivers, at_end, more}
use distributed_cache_system.Worker.Calls.Progress.{IsTaking, write_all-ok}
use distributed_cache_system.Worker.FileChunkStore.Put.{
  k_buffer_size, Received, stopped, complete, exceeds, take_bytes, receive_round, receive_loop,
}

-- Read returns at most as many bytes as the buffer has.
abbrev pub IsBounded : {W : Type 0} → InputStream W → Type 0
IsBounded {W} input =
    (w : W) (capacity : ℕ) (bytes : List ℕ)
    → (input.read capacity w).0.held_value ≡ some bytes
    → length bytes ≤ capacity

abbrev pub is_complete : {H : Type 0} → Received H → Bool
is_complete (stopped st) = false
is_complete (complete hasher received) = true

-- A stream delivers one list of bytes.
pub Delivers-unique :
    {W : Type 0} {input : InputStream W} {capacity : ℕ} {w v v' : W} {xs ys : List ℕ}
    → Delivers input capacity w xs v
    → Delivers input capacity w ys v'
    → xs ≡ ys
Delivers-unique (at_end e to p) (at_end e' to' p') = p ∙ sym p'
Delivers-unique (at_end e to p) (more first rest e' full p' d) =
    absurd (full (ap length (some-injective _ _ (sym e' ∙ e))))
Delivers-unique (more first rest e full p d) (at_end e' to p') =
    absurd (full (ap length (some-injective _ _ (sym e ∙ e'))))
Delivers-unique (more first rest e full p d) (more first' rest' e' full' p' d') =
    let same : first ≡ first' = some-injective _ _ (sym e ∙ e') in
    rw (p, p', same, Delivers-unique d d') refl

module _ (os : Posix) (laws : IsDocumented os) (taking : IsTaking os) (b : Blake3) {W : Type 0}
    (input : InputStream W) (bounded : IsBounded input) (request : PutChunkRequest) (fd : ℤ)
    (i : ℕ) where
  open os use {State, fs}

  take_bytes_complete :
      (again : b.Hasher → ℕ → Action (State × W) (Received b.Hasher)) (h : b.Hasher) (received : ℕ)
      (bytes : List ℕ) (s : State) (w : W)
      → IsAppending (fs s) fd i
      → ((t : State)
          → IsAppending (fs t) fd i
          → Ensures
              (again (b.update h bytes) (received + length bytes) (t, w))
              (λ r u. is_complete r ≡ true))
      → Ensures
          (take_bytes os b input request again fd h received bytes (s, w))
          (λ r u. is_complete r ≡ true)
  unfolding take_bytes
  take_bytes_complete again h received bytes s w appending next =
      Ensures-bind _ (Ensures-on_first w (write_all-ok os laws taking fd bytes s i appending))
        λ st t written.
          Ensures-if (is_ok st) _ _ t
            (λ okay.
              Ensures_at (again _ _) t w written.1
                (next t.0 (rw written.0.1 (appended-IsAppending (fs s) fd i bytes))))
            (λ failed. cc)

  pub receive_loop_complete :
      (fuel : ℕ) (h : b.Hasher) (received : ℕ) (s : State) {w w' : W} {rest : List ℕ}
      → IsAppending (fs s) fd i
      → Delivers input k_buffer_size w rest w'
      → received + length rest ≤ request.expected_size
      → length rest < fuel
      → Ensures
          (receive_loop os b input request fuel fd h received (s, w))
          (λ r u. is_complete r ≡ true)
  unfolding receive_loop receive_round
  receive_loop_complete zero h received s appending d fits enough = absurd (omega arith)
  receive_loop_complete (suc fuel) h received s appending (at_end e to p) fits enough =
      rw e (Ensures-some refl)
  receive_loop_complete (suc fuel) h received s {w} {rest = bytes} appending
        (more first rest e full parts d) fits enough =
      let counted = length-append first rest in
      let all = ap length parts in
      rw e (
        Ensures-if (length first == 0) _ _ (s, (input.read k_buffer_size w).1)
          (λ empty. absurd (ground arith))
          (λ some_bytes.
            Ensures-if (exceeds os b input request received (length first)) _ _
              (s, (input.read k_buffer_size w).1)
              (λ too_many. absurd (ground (arith, bounded w k_buffer_size first e)))
              (λ small.
                take_bytes_complete (receive_loop os b input request fuel fd) h received first s
                  (input.read k_buffer_size w).1 appending
                  λ t appending'.
                    receive_loop_complete fuel (b.update h first) (received + length first) t
                      appending' d (omega arith) (omega arith))))
