-- ===== src/Client/HashFile/Outcome.antt =====
-- What HashFile returns, from the file that its path names.
use distributed_cache_system.Prelude.{
  ℕ, zero, suc, ◌+◌, ◌-◌, ◌%◌, ◌≤◌, ◌<◌, ◌≡◌, refl, sym, ap, ◌∙◌, true, false, none, some, Option,
  List, ◌==◌, length, length-take, length-drop, take, drop, take_add, take_of_length_le, arith,
}
use mathlib.Core.Option.{some-injective}
use distributed_cache_system.Prelude.Action.{
  ◌>>=◌, ◌>>◌, pure, Action, Ensures, Ensures-some, Ensures-if, Ensures-bind, Ensures_mono,
}
use distributed_cache_system.Prelude.Maps.{update_self, update-update}
use distributed_cache_system.Status.{
  StatusOr, status, is_ok, from_status, from_value, normalize_error,
}
use distributed_cache_system.Types.{u64, k_blake3}
use distributed_cache_system.Posix.{
  ℤ, is_nonneg, FilePath, Fs, Opened, file, directory, read_only, Posix, with_opened, int_eq,
}
use distributed_cache_system.Posix.Appending.{close_opened}
use distributed_cache_system.Posix.Documented.{
  IsDocumented, IsOpenOn, SourceOutcome, no_source, source_directory, source_file,
  SequentialOutcome, not_read, advanced,
}
use distributed_cache_system.Blake3.{Blake3, IsBlake3}
use distributed_cache_system.UniqueFd.{unique_fd, destroy}
use distributed_cache_system.UniqueFd.Ownership.{destroy-Ensures}
use distributed_cache_system.Worker.Names.{finalize_hex}
use distributed_cache_system.Client.Reads.Laws.{
  same_position, not_none, ReadOn, read_nothing, read_on, SequentialOutcome-ReadOn,
  read_some-Ensures,
}
use distributed_cache_system.Client.HashFile.{
  k_buffer_size, Hashed, hash_round, hash_loop, hash_result, hash_opened, hash_file,
}

-- The size, as a uint64_t holds it, and the checksum of a file with these contents.
abbrev pub hashed : Blake3 → List ℕ → Hashed
hashed b contents = (
  length contents % u64,
  record { algorithm = k_blake3; value = finalize_hex b (b.update b.init contents) },
)

-- HashFile fails, or returns the size and the checksum of the file that the path names.
pub data HashOutcome (b : Blake3) (path : FilePath) (f : Fs) (r : StatusOr Hashed) : Type 0 where
  hash_failed : r.held_value ≡ none → is_ok r.held_status ≡ false → HashOutcome b path f r
  hash_done :
      (i : ℕ)
      → f.entry path ≡ some i
      → r.held_value ≡ some (hashed b (f.bytes i))
      → HashOutcome b path f r

module _ (os : Posix) (laws : IsDocumented os) (b : Blake3) (hashes : IsBlake3 b) where
  open os use {State, fs, errno, open_file}

  -- What the loop leaves: the position has moved, and no more.
  data LoopEnd (f : Fs) (fd : ℤ) (i : ℕ) (r : Option (b.Hasher × ℕ)) (g : Fs) : Type 0 where
    loop_failed : (q : ℕ) → r ≡ none → g ≡ with_opened f fd (some (file i q)) → LoopEnd f fd i r g
    loop_done :
        (q : ℕ)
        → r ≡ some (b.update b.init (f.bytes i), length (f.bytes i) % u64)
        → g ≡ with_opened f fd (some (file i q))
        → LoopEnd f fd i r g

  LoopEnd-after :
      {f g h : Fs} {fd : ℤ} {i : ℕ} {r : Option (b.Hasher × ℕ)} (q : ℕ)
      → g ≡ with_opened f fd (some (file i q))
      → LoopEnd g fd i r h
      → LoopEnd f fd i r h
  LoopEnd-after {f} {fd} {i} q e (loop_failed k n l) =
      loop_failed k n (l ∙ rw (e, update-update f.opened fd (some (file i q)) _) refl)
  LoopEnd-after {f} {fd} {i} q e (loop_done k n l) =
      loop_done k (rw e at n) (l ∙ rw (e, update-update f.opened fd (some (file i q)) _) refl)

  hash_round-Ensures :
      (again : b.Hasher → ℕ → Action State (Option (b.Hasher × ℕ))) (p : ℕ) (fd : ℤ) (s t : State)
      (i : ℕ) (r : Option (List ℕ))
      → IsOpenOn (fs s) fd i p
      → p ≤ length ((fs s).bytes i)
      → ReadOn (fs s) fd i p k_buffer_size r (fs t)
      → ((n : ℕ)
          → 0 < n
          → p + n ≤ length ((fs s).bytes i)
          → fs t ≡ with_opened (fs s) fd (some (file i (p + n)))
          → Ensures
              (again (b.update b.init (take (p + n) ((fs s).bytes i))) ((p + n) % u64) t)
              (λ r u. LoopEnd (fs t) fd i r (fs u)))
      → Ensures
          (hash_round os b again (b.update b.init (take p ((fs s).bytes i))) (p % u64) r t)
          (λ r u. LoopEnd (fs s) fd i r (fs u))
  unfolding hash_round
  hash_round-Ensures again p fd s t i r h le (read_nothing e g) next =
      rw (e, hash_round)
        (Ensures-some (loop_failed p refl (g ∙ sym (same_position (fs s) fd i p h))))
  hash_round-Ensures again p fd s t i r h le (read_on n e le' eof g) next =
      let contents = (fs s).bytes i in
      let got = take n (drop p contents) in
      let counted : length got ≡ n = omega (arith, length-take n (drop p contents)) in
      let wrapped : (p % u64 + n) % u64 ≡ (p + n) % u64 = omega arith in
      rw (e, hash_round, counted)
        (Ensures-if (n == 0) _ _ t
          (λ empty.
            let all : length contents ≤ p = eof (ground arith) (omega arith) in
            let same : length contents ≡ p = omega arith in
            Ensures-some (loop_done (p + n) (rw (take_of_length_le p contents all, same) refl) g))
          (λ some_bytes.
            rw (hashes.update-update, take_add p n (p + n) contents refl, wrapped)
              (Ensures_mono (next n (ground arith) (omega (arith, length-drop p contents)) g)
                λ r u ended. LoopEnd-after (p + n) g ended)))

  hash_loop-Ensures :
      (fuel p : ℕ) (fd : ℤ) (s : State) (i : ℕ)
      → IsOpenOn (fs s) fd i p
      → p ≤ length ((fs s).bytes i)
      → length ((fs s).bytes i) - p < fuel
      → Ensures
          (hash_loop os b fuel fd (b.update b.init (take p ((fs s).bytes i))) (p % u64) s)
          (λ r t. LoopEnd (fs s) fd i r (fs t))
  unfolding hash_loop
  hash_loop-Ensures zero p fd s i h le enough = absurd (omega arith)
  hash_loop-Ensures (suc fuel) p fd s i h le enough =
      Ensures-bind _ (read_some-Ensures os laws fd k_buffer_size s) λ r t outcome.
        hash_round-Ensures (hash_loop os b fuel fd) p fd s t i r h le
          (SequentialOutcome-ReadOn (fs s) fd i p k_buffer_size r (fs t) h outcome)
          λ n pos_count le' g.
            let same : (fs s).bytes i ≡ (fs t).bytes i = ap (λ (f : Fs). f.bytes i) (sym g) in
            rw same (
              hash_loop-Ensures fuel (p + n) fd t i
                (rw g (update_self (fs s).opened fd (some (file i (p + n))))) (rw same at le')
                (omega (arith, ap length same)))

  -- On a directory the first read fails.
  hash_loop-directory :
      (fd : ℤ) (hasher : b.Hasher) (size : ℕ) (s : State)
      → (fs s).opened fd ≡ some directory
      → Ensures (hash_loop os b 1 fd hasher size s) (λ r t. (r ≡ none) × (fs t ≡ fs s))
  unfolding hash_loop
  hash_loop-directory fd hasher size s h =
      Ensures-bind _ (read_some-Ensures os laws fd k_buffer_size s) (λ r t outcome. go r t outcome)
    where
      go :
          (r : Option (List ℕ)) (t : State)
          → SequentialOutcome (fs s) fd k_buffer_size r (fs t)
          → Ensures
              (hash_round os b (hash_loop os b 0 fd) hasher size r t)
              (λ r u. (r ≡ none) × (fs u ≡ fs s))
      go r t (not_read e g) = rw (e, hash_round) (Ensures-some (refl, g))
      go r t (advanced i p n o e le le' eof g) = cc

  -- HashFile after the loop, which has left the descriptor open at some position.
  hash_end-Ensures :
      (path : FilePath) (f : Fs) (fd : ℤ) (o : Option Opened) (s : State)
      (r : Option (b.Hasher × ℕ))
      → is_nonneg fd ≡ true
      → f.opened fd ≡ none
      → fs s ≡ with_opened f fd o
      → ((h : b.Hasher) (n : ℕ)
          → r ≡ some (h, n)
          → (i : ℕ) × (f.entry path ≡ some i)
            × (h ≡ b.update b.init (f.bytes i))
            × (n ≡ length (f.bytes i) % u64))
      → Ensures
          ((hash_result os b r >>= λ result. destroy os (unique_fd fd) >> pure result) s)
          (λ r t. HashOutcome b path f r × (fs t ≡ f))
  unfolding hash_result from_status from_value status normalize_error
  hash_end-Ensures path f fd o s none good free g found =
      Ensures-bind _ (destroy-Ensures os laws fd s good)
        λ x t closed. Ensures-some (hash_failed refl refl, closed.1 ∙ close_opened fd o free g)
  hash_end-Ensures path f fd o s (some (h, n)) good free g found =
      let (i, named, hasher, size) = found h n refl in
      Ensures-bind _ (destroy-Ensures os laws fd s good) λ x t closed.
        Ensures-some
          (hash_done i named (rw (hasher, size) refl), closed.1 ∙ close_opened fd o free g)

  source_end :
      (path : FilePath) (f g : Fs) (fd : ℤ) (i : ℕ) (r : Option (b.Hasher × ℕ)) (s : State)
      → is_nonneg fd ≡ true
      → f.opened fd ≡ none
      → f.entry path ≡ some i
      → g ≡ with_opened f fd (some (file i 0))
      → LoopEnd g fd i r (fs s)
      → Ensures
          ((hash_result os b r >>= λ result. destroy os (unique_fd fd) >> pure result) s)
          (λ r t. HashOutcome b path f r × (fs t ≡ f))
  source_end path f g fd i r s good free named e (loop_failed q n k) =
      hash_end-Ensures path f fd (some (file i q)) s r good free
        (k ∙ rw (e, update-update f.opened fd (some (file i 0)) _) refl)
        λ h m l. absurd (not_none (sym n ∙ l))
  source_end path f g fd i r s good free named e (loop_done q n k) =
      hash_end-Ensures path f fd (some (file i q)) s r good free
        (k ∙ rw (e, update-update f.opened fd (some (file i 0)) _) refl)
        λ h m l.
          let both : ◌≡◌ {A = b.Hasher × ℕ} (h, m)
              (b.update b.init (f.bytes i), length (f.bytes i) % u64) =
            some-injective _ _ (sym l ∙ (rw e at n)) in
          (i, named, ap (λ (x : b.Hasher × ℕ). x.0) both, ap (λ (x : b.Hasher × ℕ). x.1) both)

  hash_opened-Ensures :
      (path : FilePath) (s t : State) (fd : ℤ)
      → SourceOutcome (fs s) path fd (fs t)
      → Ensures (hash_opened os b fd t) (λ r u. HashOutcome b path (fs s) r × (fs u ≡ fs s))
  unfolding hash_opened from_status status normalize_error
  hash_opened-Ensures path s t fd (no_source bad g) =
      Ensures-if (is_nonneg fd) _ _ t (λ good. cc) (λ _. Ensures-some (hash_failed refl refl, g))
  hash_opened-Ensures path s t fd (source_directory good free g) =
      let there : (fs t).opened fd ≡ some directory =
        rw g (update_self (fs s).opened fd (some directory)) in
      Ensures-if (is_nonneg fd) _ _ t
        (λ _. rw there (
          Ensures-bind _ (hash_loop-directory fd b.init 0 t there) λ r u ended.
            hash_end-Ensures path (fs s) fd (some directory) u r good free (ended.1 ∙ g)
              (λ h n e. absurd (not_none (sym ended.0 ∙ e)))))
        (λ bad. cc)
  hash_opened-Ensures path s t fd (source_file i good named free g) =
      let there : IsOpenOn (fs t) fd i 0 = rw g (update_self (fs s).opened fd (some (file i 0))) in
      let same : (fs t).bytes i ≡ (fs s).bytes i = ap (λ (f : Fs). f.bytes i) g in
      Ensures-if (is_nonneg fd) _ _ t
        (λ _. rw there (
          Ensures-bind _
            (rw hashes.update-nil at (
              hash_loop-Ensures (length ((fs t).bytes i) - 0 + 1) 0 fd t i there (omega arith)
                (omega arith)))
            λ r u ended. source_end path (fs s) (fs t) fd i r u good free named g ended))
        (λ bad. cc)

  -- With an operating system and a hash that behave as documented HashFile ends, whatever reads are
  -- short or interrupted, and leaves files and descriptors as they were. It returns an error, or
  -- the size modulo 2^64 and the BLAKE3 checksum of the whole file that the path names.
  pub hash_file-Ensures :
      (path : FilePath) (s : State)
      → Ensures (hash_file os b path s) (λ r t. HashOutcome b path (fs s) r × (fs t ≡ fs s))
  unfolding hash_file
  hash_file-Ensures path s =
      hash_opened-Ensures path s (open_file path read_only s).1 (open_file path read_only s).0
        (laws.open_read path s)
