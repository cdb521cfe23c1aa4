-- ===== src/Worker/FileChunkStore/Put/Loop.antt =====
-- The receiving loop of Put ends on every stream. When the stream has ended, the file holds the
-- header and what the stream delivered, and the hasher has seen the same bytes.
use distributed_cache_system.Prelude.{
  ℕ, zero, suc, ◌+◌, ◌≤◌, ◌<◌, ◌≡◌, ◌≢◌, refl, ap, ◌∙◌, true, false, Option, none, some, List, [],
  ◌∷◌, ◌++◌, append-nil, append_assoc, ◌==◌, length, length-append, arith,
}
use distributed_cache_system.Prelude.Action.{
  Action, Ensures, Ensures-some, Ensures-if, Ensures-bind, Ensures_mono, Ensures-on_first,
  Ensures_at,
}
use distributed_cache_system.Status.{Status, status, is_ok}
use distributed_cache_system.Types.{PutChunkRequest}
use distributed_cache_system.Posix.{ℤ, Fs, Posix, appended}
use distributed_cache_system.Posix.Documented.{IsDocumented, IsAppending}
use distributed_cache_system.Posix.Appending.{appended-appended, appended-IsAppending}
use distributed_cache_system.Blake3.{Blake3, IsBlake3}
use distributed_cache_system.Worker.Streams.{InputStream, IsHonest, Delivers, at_end, more}
use distributed_cache_system.Worker.Calls.WriteLaws.{Appends, write_all-Ensures}
use distributed_cache_system.Worker.FileChunkStore.Put.{
  k_buffer_size, Received, stopped, complete, exceeds, take_bytes, receive_round, receive_loop,
}

no_bytes : (bytes : List ℕ) → length bytes ≡ 0 → bytes ≡ []
no_bytes [] h = refl
no_bytes (x ∷ bytes) h = absurd (omega arith)

module _ (os : Posix) (laws : IsDocumented os) (b : Blake3) (hashes : IsBlake3 b) where
  open os use {State, fs}

  module _ {W : Type 0} (input : InputStream W) (request : PutChunkRequest) where
    module _ (base : Fs) (fd : ℤ) (i : ℕ) (before : List ℕ) where
      -- What the loop leaves, from a file that held `before` and a stream at `w`.
      pub data LoopEnd (got : List ℕ) (w : W) (r : Received b.Hasher) (g : Fs) (w' : W)
          : Type 0 where
        loop_stopped :
            (d : List ℕ) (st : Status)
            → r ≡ stopped st
            → is_ok st ≡ false
            → g ≡ appended base fd i d
            → LoopEnd got w r g w'
        loop_complete :
            (rest : List ℕ)
            → r ≡ complete (b.update b.init (got ++ rest)) (length (got ++ rest))
            → g ≡ appended base fd i (before ++ (got ++ rest))
            → Delivers input k_buffer_size w rest w'
            → length (got ++ rest) ≤ request.expected_size
            → LoopEnd got w r g w'

      -- A round that read `first`, and then the rest of the loop.
      LoopEnd-next :
          {got : List ℕ} {w w' : W} {r : Received b.Hasher} {g : Fs} (first : List ℕ)
          → (input.read k_buffer_size w).0.held_value ≡ some first
          → length first ≢ 0
          → LoopEnd (got ++ first) (input.read k_buffer_size w).1 r g w'
          → LoopEnd got w r g w'
      LoopEnd-next first e full (loop_stopped d st p bad q) = loop_stopped d st p bad q
      LoopEnd-next {got} first e full (loop_complete rest p q delivered fits) =
          let same : (got ++ first) ++ rest ≡ got ++ (first ++ rest) =
            append_assoc got first rest in
          loop_complete (first ++ rest) (rw (← same) p) (rw (← same) q)
            (more first rest e full refl delivered) (rw (← same) fits)

      after_write :
          (got bytes : List ℕ) (s t : State) (st : Status)
          → fs s ≡ appended base fd i (before ++ got)
          → Appends (fs s) fd i bytes st (fs t)
          → is_ok st ≡ true
          → fs t ≡ appended base fd i (before ++ (got ++ bytes))
      after_write got bytes s t st g a okay =
          let h : fs t ≡ appended base fd i ((before ++ got) ++ bytes) =
            a.result ∙ rw (a.whole okay, g) (appended-appended base fd i (before ++ got) bytes) in
          rw (append_assoc before got bytes) at h

      module _ (appending : IsAppending base fd i) (honest : IsHonest input) where
        -- Where the rest of the loop starts, when a round has read `first`.
        abbrev GoesOn :
            (b.Hasher → ℕ → Action (State × W) (Received b.Hasher)) → List ℕ → W → List ℕ → Type 0
        GoesOn again got w first =
            (t : State)
            → fs t ≡ appended base fd i (before ++ (got ++ first))
            → Ensures
                (again (b.update b.init (got ++ first)) (length (got ++ first))
                  (t, (input.read k_buffer_size w).1))
                (λ r u. LoopEnd (got ++ first) (input.read k_buffer_size w).1 r (fs u.0) u.1)

        take_bytes-Ensures :
            (again : b.Hasher → ℕ → Action (State × W) (Received b.Hasher)) (got : List ℕ)
            (s : State) (w : W) (bytes : List ℕ)
            → (input.read k_buffer_size w).0.held_value ≡ some bytes
            → length bytes ≢ 0
            → fs s ≡ appended base fd i (before ++ got)
            → GoesOn again got w bytes
            → Ensures
                (take_bytes os b input request again fd
                  (b.update b.init got)
                  (length got)
                  bytes
                  (s, (input.read k_buffer_size w).1))
                (λ r u. LoopEnd got w r (fs u.0) u.1)
        unfolding take_bytes
        take_bytes-Ensures again got s w bytes e full g next =
            rw (hashes.update-update, ← length-append got bytes)
              (Ensures-bind _
                (Ensures-on_first (input.read k_buffer_size w).1 (
                  write_all-Ensures os laws fd bytes s {i = i}
                    (rw g (appended-IsAppending base fd i _))))
                λ st t written.
                  Ensures-if (is_ok st) _ _ t
                    (λ okay. Ensures_at (again _ _) t _ written.1 (
                      Ensures_mono (next t.0 (after_write got bytes s t.0 st g written.0 okay))
                        λ r u l. LoopEnd-next bytes e full l))
                    (λ failed. Ensures-some (
                      loop_stopped ((before ++ got) ++ written.0.added) st refl failed
                        (written.0.result ∙ rw g (appended-appended base fd i (before ++ got) _)))))

        receive_round-Ensures :
            (again : b.Hasher → ℕ → Action (State × W) (Received b.Hasher)) (got : List ℕ)
            (s : State) (w : W) (failure : Status) (value : Option (List ℕ))
            → (input.read k_buffer_size w).0.held_value ≡ value
            → (value ≡ none → is_ok failure ≡ false)
            → fs s ≡ appended base fd i (before ++ got)
            → length got ≤ request.expected_size
            → ((first : List ℕ)
                → length first ≢ 0
                → length (got ++ first) ≤ request.expected_size
                → GoesOn again got w first)
            → Ensures
                (receive_round os b input request again fd
                  (b.update b.init got)
                  (length got)
                  failure
                  value
                  (s, (input.read k_buffer_size w).1))
                (λ r u. LoopEnd got w r (fs u.0) u.1)
        unfolding receive_round status
        receive_round-Ensures again got s w failure none e bad g fits next =
            Ensures-some (loop_stopped (before ++ got) failure refl (bad refl) g)
        receive_round-Ensures again got s w failure (some bytes) e bad g fits next =
            let here : State × W = (s, (input.read k_buffer_size w).1) in
            Ensures-if (length bytes == 0) _ _ here
              (λ empty. Ensures-some (
                loop_complete [] (rw append-nil refl) (rw append-nil g)
                  (at_end (e ∙ ap some (no_bytes bytes (ground arith))) refl refl)
                  (rw append-nil fits)))
              (λ some_bytes.
                Ensures-if (exceeds os b input request (length got) (length bytes)) _ _ here
                  (λ too_many. Ensures-some (loop_stopped (before ++ got) _ refl refl g))
                  (λ enough.
                    take_bytes-Ensures again got s w bytes e (ground arith) g
                      (next bytes (ground arith) (ground (arith, length-append got bytes)))))

        pub receive_loop-Ensures :
            (fuel : ℕ) (got : List ℕ) (s : State) (w : W)
            → fs s ≡ appended base fd i (before ++ got)
            → length got ≤ request.expected_size
            → request.expected_size + 1 < fuel + length got
            → Ensures
                (receive_loop os b input request fuel fd (b.update b.init got) (length got) (s, w))
                (λ r u. LoopEnd got w r (fs u.0) u.1)
        unfolding receive_loop
        receive_loop-Ensures zero got s w g fits enough = absurd (omega arith)
        receive_loop-Ensures (suc fuel) got s w g fits enough =
            receive_round-Ensures (receive_loop os b input request fuel fd) got s w _ _ refl
              (honest w k_buffer_size) g fits
              λ first some_bytes fits' t g'.
                receive_loop-Ensures fuel (got ++ first) t (input.read k_buffer_size w).1 g' fits'
                  (omega (arith, length-append got first))
