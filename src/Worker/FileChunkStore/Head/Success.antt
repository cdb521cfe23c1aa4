-- ===== src/Worker/FileChunkStore/Head/Success.antt =====
-- Head of a well-formed chunk file, where no call fails but for a signal.
use distributed_cache_system.Prelude.{
  ℕ, ◌+◌, ◌≤◌, ◌≡◌, ◌≢◌, refl, sym, ◌∙◌, true, none, some, List, length, take, arith,
}
use mathlib.Core.Option.{some-injective}
use distributed_cache_system.Prelude.Action.{
  Ensures, Ensures-some, Ensures-if, Ensures-bind, Ensures_mono, Ensures_returned, Ensures-of,
}
use distributed_cache_system.Status.{is_ok, StatusOr, k_io_error}
use distributed_cache_system.Types.{ChunkId, HeadChunkResponse}
use distributed_cache_system.Posix.{ℤ, is_nonneg, read_no_follow, Posix, int_eq}
use distributed_cache_system.Posix.Documented.{
  IsDocumented, IsOpenOn, OpenOutcome, not_opened, opened_file,
}
use distributed_cache_system.Prelude.Maps.{update_self}
use distributed_cache_system.UniqueFd.Ownership.{destroy-Ensures}
use distributed_cache_system.Worker.Names.{validate_id, path_for}
use distributed_cache_system.Worker.Header.{k_header_size}
use distributed_cache_system.Worker.FileChunkStore.Head.{
  checked_header, read_header, head_opened, head,
}
use distributed_cache_system.Worker.FileChunkStore.Head.Array.{header_loop-Ensures}
use distributed_cache_system.Worker.FileChunkStore.Head.Header.{
  reported, IsChunkFile, HeaderEnd, header_io_error, header_corrupt, header_read,
  read_header-Ensures,
}
use distributed_cache_system.Worker.FileChunkStore.Head.Outcome.{
  HeadOutcome, bad_id, io_failed, not_found, corrupt, found, head-Ensures,
}
use distributed_cache_system.Worker.FileChunkStore.Head.Filling.{
  IsReadable, header_loop-full, check_header-code,
}

module _ (os : Posix) (laws : IsDocumented os) (readable : IsReadable os) where
  open os use {State, fs, fstat_size, open_file}

  module _ (fd : ℤ) (contents : List ℕ) where
    read_header-code :
        (chunk_id : ChunkId) (s : State) (i p : ℕ)
        → IsOpenOn (fs s) fd i p
        → (fs s).bytes i ≡ contents
        → k_header_size ≤ length contents
        → Ensures (read_header os fd chunk_id s) (λ r t. r.held_status.code ≢ k_io_error)
    unfolding read_header
    read_header-code chunk_id s i p h is whole =
        Ensures-bind _
          (Ensures_returned (
            header_loop-full os laws readable fd contents (k_header_size + 1) 0 s i p h is
              (omega arith) whole (omega arith)))
          λ r t full.
            let kept =
              Ensures-of
                (header_loop-Ensures os laws fd contents (k_header_size + 1) 0 s i p h is
                  (omega arith) (omega arith) (omega arith))
                full.1 in
            rw (full.0, checked_header)
              (check_header-code os laws readable fd contents chunk_id (take k_header_size contents)
                t i p (rw kept.1 h))

    -- ReadHeader of a well-formed chunk file returns a value.
    read_header-value :
        (chunk_id : ChunkId) (s : State) (i p : ℕ)
        → IsOpenOn (fs s) fd i p
        → (fs s).bytes i ≡ contents
        → IsChunkFile contents
        → Ensures (read_header os fd chunk_id s) (λ r t. r.held_value ≢ none)
    read_header-value chunk_id s i p h is well =
        Ensures_mono
          (Ensures_returned (read_header-code chunk_id s i p h is (omega (arith, well.size))))
          λ r t coded.
            header_value r coded.0
              (Ensures-of (read_header-Ensures os laws fd contents chunk_id s i p h is) coded.1).0
      where
        header_value :
            (r : StatusOr HeadChunkResponse)
            → r.held_status.code ≢ k_io_error
            → HeaderEnd chunk_id contents r
            → r.held_value ≢ none
        header_value r coded (header_io_error e why) = absurd (coded why)
        header_value r coded (header_corrupt e why bad) = absurd (bad well)
        header_value r coded (header_read e is) = λ x. cc

  module _ (root : List ℕ) (chunk_id : ChunkId) where
    head_opened-value :
        (s t : State) (fd : ℤ) (i : ℕ)
        → is_nonneg fd ≡ true
        → (fs s).entry (path_for root chunk_id) ≡ some i
        → IsChunkFile ((fs s).bytes i)
        → OpenOutcome (fs s) (path_for root chunk_id) fd (fs t)
        → Ensures
            (head_opened os fd chunk_id (path_for root chunk_id) t)
            (λ r u. r.held_value ≢ none)
    unfolding head_opened
    head_opened-value s t fd i good named well (not_opened bad g) = cc
    head_opened-value s t fd i good named well (opened_file j good' e free g) =
        let same : i ≡ j = some-injective _ _ (sym named ∙ e) in
        Ensures-if (is_nonneg fd) _ _ t
          (λ _.
            Ensures-bind _
              (read_header-value fd ((fs t).bytes j) chunk_id t j 0
                (rw g (update_self (fs s).opened fd _)) refl (rw (g, ← same) well))
              λ r u full.
                Ensures-bind _ (destroy-Ensures os laws fd u good) λ x v closed. Ensures-some full)
          (λ bad. cc)

    head-value :
        (s : State) (i : ℕ)
        → is_ok (validate_id chunk_id) ≡ true
        → (fs s).entry (path_for root chunk_id) ≡ some i
        → IsChunkFile ((fs s).bytes i)
        → Ensures (head os root chunk_id s) (λ r t. r.held_value ≢ none)
    unfolding head
    head-value s i valid named well =
        let path = path_for root chunk_id in
        Ensures-if (is_ok (validate_id chunk_id)) _ _ s
          (λ _.
            head_opened-value s (open_file path read_no_follow s).1
              (open_file path read_no_follow s).0 i (readable.opens path s i named) named well
              (laws.open_no_follow path s))
          (λ bad. cc)

    -- Head of a well-formed chunk file reports its header.
    pub head-reported :
        (s : State) (i : ℕ)
        → is_ok (validate_id chunk_id) ≡ true
        → (fs s).entry (path_for root chunk_id) ≡ some i
        → IsChunkFile ((fs s).bytes i)
        → Ensures
            (head os root chunk_id s)
            (λ r t. (r.held_value ≡ some (reported chunk_id ((fs s).bytes i))) × (fs t ≡ fs s))
    head-reported s i valid named well =
        Ensures_mono (Ensures_returned (head-value s i valid named well)) λ r t full.
          let outcome = Ensures-of (head-Ensures os laws root chunk_id s) full.1 in
          (outcome_value r full.0 outcome.0, outcome.1)
      where
        outcome_value :
            (r : StatusOr HeadChunkResponse)
            → r.held_value ≢ none
            → HeadOutcome root chunk_id (fs s) r
            → r.held_value ≡ some (reported chunk_id ((fs s).bytes i))
        outcome_value r full (bad_id e why bad) = absurd (full e)
        outcome_value r full (io_failed e why) = absurd (full e)
        outcome_value r full (not_found e why absent) = absurd (full e)
        outcome_value r full (corrupt j e why there bad) = absurd (full e)
        outcome_value r full (found j e there is) =
            let same : i ≡ j = some-injective _ _ (sym named ∙ there) in e ∙ rw same refl
