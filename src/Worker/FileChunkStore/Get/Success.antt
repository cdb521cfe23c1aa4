-- ===== src/Worker/FileChunkStore/Get/Success.antt =====
-- Get of a range of a well-formed chunk file, where no call fails but for a signal and the output
-- takes everything.
use distributed_cache_system.Prelude.{
  ℕ, zero, suc, ◌+◌, ◌-◌, ◌%◌, ◌≤◌, ◌<◌, ◌≡◌, refl, sym, ◌∙◌, true, some, List, ◌==◌, ltb, min,
  length, length-take, take, drop, arith,
}
use mathlib.Core.Option.{some-injective}
use native.Mathlib.Nat.{mod-eq_of_lt}
use distributed_cache_system.Prelude.Action.{
  Action, Ensures, Ensures-some, Ensures-if, Ensures-bind, Ensures_mono, Ensures-on_first,
  Ensures_returned, Ensures-of,
}
use distributed_cache_system.Prelude.Maps.{update_self}
use distributed_cache_system.Status.{Status, is_ok, StatusOr}
use distributed_cache_system.Types.{u64, GetChunkRequest, validate_byte_range}
use distributed_cache_system.Types.Ranges.{validate_byte_range_iff}
use distributed_cache_system.Posix.{ℤ, is_nonneg, read_no_follow, Posix, int_eq}
use distributed_cache_system.Posix.Documented.{
  IsDocumented, IsOpenOn, OpenOutcome, not_opened, opened_file,
}
use distributed_cache_system.UniqueFd.Ownership.{destroy-Ensures}
use distributed_cache_system.Worker.Streams.{OutputStream, Sent}
use distributed_cache_system.Worker.Names.{validate_id, path_for}
use distributed_cache_system.Worker.Calls.{off_t_max}
use distributed_cache_system.Worker.Calls.Reading.{ReadSome, pread_some-ReadSome}
use distributed_cache_system.Worker.Header.{k_header_size, header_size}
use distributed_cache_system.Worker.FileChunkStore.Put.{k_buffer_size}
use distributed_cache_system.Worker.FileChunkStore.Head.{head}
use distributed_cache_system.Worker.FileChunkStore.Head.Header.{reported, IsChunkFile}
use distributed_cache_system.Worker.FileChunkStore.Head.Success.{head-reported}
use distributed_cache_system.Worker.FileChunkStore.Head.Filling.{IsReadable}
use distributed_cache_system.Worker.FileChunkStore.Get.{
  get_round, get_loop, get_opened, get_headed, get,
}
use distributed_cache_system.Worker.FileChunkStore.Get.Loop.{slice}
use distributed_cache_system.Worker.FileChunkStore.Get.Outcome.{
  GetOutcome, nothing_sent, range_sent, get-Ensures,
}

-- Write takes every piece.
abbrev pub IsAccepting : {V : Type 0} → OutputStream V → Type 0
IsAccepting {V} output = (bytes : List ℕ) (v : V) → is_ok (output.write bytes v).0 ≡ true

module _ (os : Posix) (laws : IsDocumented os) (readable : IsReadable os) {V : Type 0}
    (output : OutputStream V) (accepting : IsAccepting output) where
  open os use {State, fs, open_file}

  module _ (fd : ℤ) (contents : List ℕ) (small : length contents ≤ off_t_max) where
    get_round-ok :
        (again : ℕ → ℕ → Action (State × V) Status) (remaining offset count : ℕ) (t : State × V)
        (r : StatusOr (List ℕ))
        → 0 < count
        → count ≤ remaining
        → offset + remaining ≤ length contents
        → ReadSome contents count offset r
        → ((k : ℕ) (v : V)
            → 0 < k
            → k ≤ remaining
            → Ensures (again (remaining - k) (offset + k) (t.0, v)) (λ st u. is_ok st ≡ true))
        → Ensures
            (get_round os output again remaining offset r.held_status r.held_value t)
            (λ st u. is_ok st ≡ true)
    unfolding get_round
    get_round-ok again remaining offset count t r pos_c le_c inside read next =
        let piece = take read.n (drop offset contents) in
        let counted : length piece ≡ read.n =
          omega (arith, length-take read.n (drop offset contents), read.there) in
        let nonzero : 0 < read.n = read.nonzero pos_c (omega arith) in
        let there : State × V = (t.0, (output.write piece t.1).1) in
        rw (read.value, get_round)
          (Ensures-if (length piece == 0) _ _ t (λ empty. absurd (ground arith))
            (λ some_bytes.
              Ensures-if (is_ok (output.write piece t.1).0) _ _ there
                (λ okay.
                  let no_wrap : (offset + length piece) % u64 ≡ offset + read.n =
                    rw counted
                      (mod-eq_of_lt {n = offset + read.n} {m = u64} (omega (arith, read.asked))) in
                  rw (no_wrap, counted)
                    (next read.n (output.write piece t.1).1 nonzero (omega (arith, read.asked))))
                (λ failed. cc (accepting piece t.1))))

    get_loop-ok :
        (fuel remaining offset : ℕ) (s : State) (v : V) (i p : ℕ)
        → IsOpenOn (fs s) fd i p
        → (fs s).bytes i ≡ contents
        → offset + remaining ≤ length contents
        → remaining < fuel
        → Ensures (get_loop os output fuel fd remaining offset (s, v)) (λ st u. is_ok st ≡ true)
    unfolding get_loop
    get_loop-ok zero remaining offset s v i p h is inside enough = absurd (omega arith)
    get_loop-ok (suc fuel) remaining offset s v i p h is inside enough =
        Ensures-if (ltb 0 remaining) _ _ (s, v)
          (λ more.
            let left : 0 < remaining = ground arith in
            Ensures-bind _
              (Ensures-on_first v (
                pread_some-ReadSome os laws readable.preading fd (min remaining k_buffer_size)
                  offset s i p h (omega arith)))
              λ r t read.
                get_round-ok (get_loop os output fuel fd) remaining offset
                  (min remaining k_buffer_size) t r (omega arith) (omega arith) inside
                  (rw is at read.0.0)
                  λ k w nonzero le.
                    get_loop-ok fuel (remaining - k) (offset + k) t.0 w i p (rw read.0.1 h)
                      (rw read.0.1 is) (omega arith) (omega arith))
          (λ all. Ensures-some refl)

  module _ (root : List ℕ) (request : GetChunkRequest) where
    get_opened-ok :
        (s t : State) (v : V) (fd : ℤ) (i : ℕ)
        → is_nonneg fd ≡ true
        → (fs s).entry (path_for root request.chunk_id) ≡ some i
        → length ((fs s).bytes i) ≤ off_t_max
        → request.range.offset + request.range.size + k_header_size ≤ length ((fs s).bytes i)
        → OpenOutcome (fs s) (path_for root request.chunk_id) fd (fs t)
        → Ensures (get_opened os output root request fd (t, v)) (λ st u. is_ok st ≡ true)
    unfolding get_opened
    get_opened-ok s t v fd i good named small inside (not_opened bad g) = cc
    get_opened-ok s t v fd i good named small inside (opened_file j good' e free g) =
        let same : i ≡ j = some-injective _ _ (sym named ∙ e) in
        let start : (request.range.offset + k_header_size) % u64
            ≡ request.range.offset + k_header_size =
          mod-eq_of_lt (omega arith) in
        Ensures-if (is_nonneg fd) _ _ (t, v)
          (λ _. rw start (
            Ensures-bind _
              (get_loop-ok fd ((fs s).bytes j) (rw (← same) small) (request.range.size + 1)
                request.range.size (request.range.offset + k_header_size) t v j 0
                (rw g (update_self (fs s).opened fd _)) (rw g refl) (rw (← same) (omega arith))
                (omega arith))
              λ st u okay.
                Ensures-bind _ (Ensures-on_first u.1 (destroy-Ensures os laws fd u.0 good))
                  λ x w closed. Ensures-some okay))
          (λ bad. cc)

    module _ (s : State) (i : ℕ) (valid : is_ok (validate_id request.chunk_id) ≡ true)
        (named : (fs s).entry (path_for root request.chunk_id) ≡ some i)
        (well : IsChunkFile ((fs s).bytes i)) (small : length ((fs s).bytes i) ≤ off_t_max)
        (inside : request.range.offset + request.range.size + k_header_size
          ≤ length ((fs s).bytes i)) where
      get_headed-ok :
          (failure : Status) (t : State) (v : V)
          → fs t ≡ fs s
          → Ensures
              (get_headed os output root request failure
                (some (reported request.chunk_id ((fs s).bytes i)))
                (t, v))
              (λ st u. is_ok st ≡ true)
      unfolding get_headed
      get_headed-ok failure t v g =
          let path = path_for root request.chunk_id in
          let size = header_size (take k_header_size ((fs s).bytes i)) in
          Ensures-if (is_ok (validate_byte_range request.range size)) _ _ (t, v)
            (λ _.
              get_opened-ok s (open_file path read_no_follow t).1 v
                (open_file path read_no_follow t).0 i (readable.opens path t i (rw g named)) named
                small inside (rw g at (laws.open_no_follow path t)))
            (λ bad. cc (
              (validate_byte_range_iff request.range size (omega (arith, well.size, well.fits))).1
                (omega (arith, well.size))))

      get_succeeds : (v : V) → Ensures (get os output root request (s, v)) (λ st u. is_ok st ≡ true)
      unfolding get
      get_succeeds v =
          Ensures-bind _
            (Ensures-on_first v
              (head-reported os laws readable root request.chunk_id s i valid named well))
            λ r t headed. rw headed.0.0 (get_headed-ok r.held_status t.0 t.1 headed.0.1)

      outcome_sent :
          {st : Status} {v v' : V}
          → is_ok st ≡ true
          → GetOutcome output root request (fs s) v st v'
          → Sent output st v
              (slice (drop k_header_size ((fs s).bytes i)) request.range.offset request.range.size)
              v'
      outcome_sent okay (nothing_sent bad e) = cc
      outcome_sent okay (range_sent j there is bounds sent) =
          let same : i ≡ j = some-injective _ _ (sym named ∙ there) in rw same sent

      -- With an operating system that behaves as documented, whose calls succeed on a file that is
      -- there but for signals, and an output that takes every piece: where a well-formed chunk
      -- file, no longer than an off_t can count, is under the path of a valid id and a range lies
      -- inside its data, Head ends and reports the file's header, and Get ends, returns OK and has
      -- sent the bytes of the range in order, however short the reads are. Neither changes a file.
      pub get-ok :
          (v : V)
          → Ensures (head os root request.chunk_id s) (λ r t.
            (r.held_value ≡ some (reported request.chunk_id ((fs s).bytes i))) × (fs t ≡ fs s))
            × Ensures (get os output root request (s, v)) (λ st u.
              (is_ok st ≡ true)
              × Sent output st v
                  (slice
                    (drop k_header_size ((fs s).bytes i))
                    request.range.offset
                    request.range.size)
                  u.1
              × (fs u.0 ≡ fs s))
      get-ok v = (
        head-reported os laws readable root request.chunk_id s i valid named well,
        Ensures_mono (Ensures_returned (get_succeeds v)) λ st u done.
            let outcome = Ensures-of (get-Ensures os laws output root request s v) done.1 in
            (done.0, outcome_sent done.0 outcome.0, outcome.1),
      )
