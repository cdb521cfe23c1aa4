-- ===== src/Worker/FileChunkStore/Get/Outcome.antt =====
-- What Get sends, from the file that the chunk's path names.
use distributed_cache_system.Prelude.{
  ℕ, ◌+◌, ◌%◌, ◌≤◌, ◌≡◌, refl, sym, ap, ◌∙◌, inl, inr, Bool-cases, false, some, List, ◌==◌, take,
  drop, drop-drop, length, arith,
}
use native.Mathlib.Nat.{mod-eq_of_lt}
use mathlib.Core.Option.{some-injective}
use distributed_cache_system.Prelude.Action.{
  Ensures, Ensures-some, Ensures-if, Ensures-bind, Ensures-on_first,
}
use distributed_cache_system.Prelude.Maps.{update_self}
use distributed_cache_system.Status.{Status, status, is_k_ok, is_ok, StatusOr}
use distributed_cache_system.Types.{u64, GetChunkRequest, HeadChunkResponse, validate_byte_range}
use distributed_cache_system.Types.Ranges.{validate_byte_range_iff}
use distributed_cache_system.Posix.{ℤ, is_nonneg, Fs, read_no_follow, Posix, int_eq}
use distributed_cache_system.Posix.Documented.{IsDocumented, OpenOutcome, not_opened, opened_file}
use distributed_cache_system.UniqueFd.Ownership.{destroy-Ensures}
use distributed_cache_system.Worker.Streams.{OutputStream, Sent}
use distributed_cache_system.Worker.Names.{path_for}
use distributed_cache_system.Worker.Header.{k_header_size, header_size}
use distributed_cache_system.Worker.FileChunkStore.Put.{io_error}
use distributed_cache_system.Worker.FileChunkStore.Head.{open_failure}
use distributed_cache_system.Worker.FileChunkStore.Head.Header.{IsChunkFile}
use distributed_cache_system.Worker.FileChunkStore.Head.Outcome.{
  HeadOutcome, bad_id, io_failed, not_found, corrupt, found, opened_closed, head-Ensures,
}
use distributed_cache_system.Worker.FileChunkStore.Get.{get_opened, get_headed, get}
use distributed_cache_system.Worker.FileChunkStore.Get.Loop.{slice, get_loop-Ensures}

-- An error and nothing sent, or the range's bytes of a well-formed chunk file's data, sent in
-- order until they end or an error stops them.
pub data GetOutcome {V : Type 0} (output : OutputStream V) (root : List ℕ)
    (request : GetChunkRequest) (f : Fs) (v : V) (st : Status) (v' : V) : Type 0 where
  nothing_sent : is_ok st ≡ false → v' ≡ v → GetOutcome output root request f v st v'
  range_sent :
      (i : ℕ)
      → f.entry (path_for root request.chunk_id) ≡ some i
      → IsChunkFile (f.bytes i)
      → request.range.offset + request.range.size + k_header_size ≤ length (f.bytes i)
      → Sent output st v
          (slice (drop k_header_size (f.bytes i)) request.range.offset request.range.size)
          v'
      → GetOutcome output root request f v st v'

module _ (os : Posix) (laws : IsDocumented os) {V : Type 0} (output : OutputStream V)
    (root : List ℕ) (request : GetChunkRequest) where
  open os use {State, fs, errno, enoent, open_file}

  get_opened-Ensures :
      (s : State) (t : State) (v : V) (fd : ℤ)
      → OpenOutcome (fs s) (path_for root request.chunk_id) fd (fs t)
      → ((i : ℕ)
          → (fs s).entry (path_for root request.chunk_id) ≡ some i
          → IsChunkFile ((fs s).bytes i)
            × (request.range.offset + request.range.size + k_header_size ≤ length ((fs s).bytes i)))
      → Ensures
          (get_opened os output root request fd (t, v))
          (λ st u. GetOutcome output root request (fs s) v st u.1 × (fs u.0 ≡ fs s))
  unfolding get_opened open_failure io_error status
  get_opened-Ensures s t v fd (not_opened bad g) inside =
      Ensures-if (is_nonneg fd) _ _ (t, v) (λ good. cc)
        (λ _. elim (Bool-cases (errno t == enoent)) [
          | inl absent ↦ rw absent (Ensures-some (nothing_sent refl refl, g))
          | inr other ↦ rw other (Ensures-some (nothing_sent refl refl, g))
        ])
  get_opened-Ensures s t v fd (opened_file i good e free g) inside =
      let contents = (fs s).bytes i in
      let bounds = inside i e in
      let start : (request.range.offset + k_header_size) % u64
          ≡ request.range.offset + k_header_size =
        mod-eq_of_lt (omega (arith, bounds.1, bounds.0.fits)) in
      Ensures-if (is_nonneg fd) _ _ (t, v)
        (λ _. rw start (
          Ensures-bind _
            (get_loop-Ensures os laws output fd contents bounds.0.fits (request.range.size + 1)
              request.range.size (request.range.offset + k_header_size) t v i 0
              (rw g (update_self (fs s).opened fd _)) (rw g refl) (omega (arith, bounds.1))
              (omega arith))
            λ st u sent.
              Ensures-bind _ (Ensures-on_first u.1 (destroy-Ensures os laws fd u.0 good))
                λ x w closed. Ensures-some (
                  range_sent i e bounds.0 bounds.1 (
                      rw
                        (
                          closed.1,
                          drop-drop k_header_size request.range.offset
                              (request.range.offset + k_header_size) contents (omega arith),
                        )
                        sent.0),
                  opened_closed (fs s) (fs t) (fs w.0) fd i free g (rw sent.1 at closed.0.1),
                )))
        (λ bad. cc)

  get_headed-Ensures :
      (s t : State) (v : V) (r : StatusOr HeadChunkResponse)
      → HeadOutcome root request.chunk_id (fs s) r
      → fs t ≡ fs s
      → Ensures
          (get_headed os output root request r.held_status r.held_value (t, v))
          (λ st u. GetOutcome output root request (fs s) v st u.1 × (fs u.0 ≡ fs s))
  unfolding get_headed
  get_headed-Ensures s t v r (bad_id e why bad) g =
      rw (e, get_headed) (Ensures-some (nothing_sent (ap is_k_ok why) refl, g))
  get_headed-Ensures s t v r (io_failed e why) g =
      rw (e, get_headed) (Ensures-some (nothing_sent (ap is_k_ok why) refl, g))
  get_headed-Ensures s t v r (not_found e why absent) g =
      rw (e, get_headed) (Ensures-some (nothing_sent (ap is_k_ok why) refl, g))
  get_headed-Ensures s t v r (corrupt i e why named bad) g =
      rw (e, get_headed) (Ensures-some (nothing_sent (ap is_k_ok why) refl, g))
  get_headed-Ensures s t v r (found i e named is) g =
      let path = path_for root request.chunk_id in
      let size = header_size (take k_header_size ((fs s).bytes i)) in
      rw (e, get_headed)
        (Ensures-if (is_ok (validate_byte_range request.range size)) _ _ (t, v)
          (λ valid.
            get_opened-Ensures s (open_file path read_no_follow t).1 v
              (open_file path read_no_follow t).0 (rw g at (laws.open_no_follow path t))
              λ j same.
                let one : i ≡ j = some-injective _ _ (sym named ∙ same) in
                rw (← one) (
                  is,
                  omega (
                    arith,
                    is.size,
                    (validate_byte_range_iff request.range size (omega (arith, is.size, is.fits))).0
                        valid,
                  ),
                ))
          (λ bad. Ensures-some (nothing_sent bad refl, g)))

  -- With an operating system that behaves as documented Get ends and changes no file. It sends
  -- nothing and fails, or there is a well-formed chunk file under the chunk's path, the range
  -- lies inside its data, and what Get sends is the bytes of the range, in order, all of them
  -- where it returns OK.
  pub get-Ensures :
      (s : State) (v : V)
      → Ensures
          (get os output root request (s, v))
          (λ st u. GetOutcome output root request (fs s) v st u.1 × (fs u.0 ≡ fs s))
  unfolding get
  get-Ensures s v =
      Ensures-bind _ (Ensures-on_first v (head-Ensures os laws root request.chunk_id s))
        λ r t headed. rw (← headed.1) (get_headed-Ensures s t.0 t.1 r headed.0.0 headed.0.1)
