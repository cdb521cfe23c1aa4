-- ===== src/Worker/Calls/WriteLaws.antt =====
-- `WriteAll` ends on every descriptor, and on the one that ends a file it adds the data to it.
use distributed_cache_system.Prelude.{
  ℕ, zero, suc, ◌+◌, ◌-◌, ◌<◌, ◌≡◌, ◌≢◌, Option, refl, ap, ◌∙◌, true, false, none, some, List, [],
  ◌++◌, ◌==◌, ltb, length, take, drop, rest_after, drop_of_length_le, arith,
}
use mathlib.Core.Option.{some-injective}
use distributed_cache_system.Prelude.Action.{
  Action, Ensures, Ensures-if, Ensures-some, Ensures_mono,
}
use distributed_cache_system.Status.{Status, is_ok, status}
use distributed_cache_system.Posix.{ℤ, Fs, Posix, appended}
use distributed_cache_system.Posix.Documented.{
  IsDocumented, IsAppending, WriteOutcome, write_failed, wrote,
}
use distributed_cache_system.Posix.Appending.{appended-appended, appended-nil, appended-IsAppending}
use distributed_cache_system.Worker.Calls.{write_round, write_loop, write_all}

-- Some bytes were added to the file; all of them where the status is OK.
pub record Appends (f : Fs) (fd : ℤ) (i : ℕ) (bytes : List ℕ) (st : Status) (g : Fs) : Type 0 where
  pub added : List ℕ
  pub result : g ≡ appended f fd i added
  pub whole : is_ok st ≡ true → added ≡ bytes

Appends-cons :
    {f g h : Fs} {fd : ℤ} {i : ℕ} {bytes rest : List ℕ} {st : Status} (first : List ℕ)
    → g ≡ appended f fd i first
    → first ++ rest ≡ bytes
    → Appends g fd i rest st h
    → Appends f fd i bytes st h
Appends-cons {f} {fd} {i} first p q a = record {
  added = first ++ a.added;
  result = a.result ∙ ap (λ k. appended k fd i a.added) p ∙ appended-appended f fd i first a.added;
  whole = λ o. ap (λ r. first ++ r) (a.whole o) ∙ q;
}

Appends-end : {f : Fs} {fd : ℤ} {i : ℕ} {st : Status} → IsAppending f fd i → Appends f fd i [] st f
Appends-end h = record { added = []; result = appended-nil _ _ _ h; whole = λ _. refl }

Appends-fail :
    {f g : Fs} {fd : ℤ} {i : ℕ} {bytes : List ℕ} {st : Status} (a : List ℕ)
    → is_ok st ≡ false
    → g ≡ appended f fd i a
    → Appends f fd i bytes st g
Appends-fail a no_ok e = record { added = a; result = e; whole = λ o. cc }

module _ (os : Posix) (laws : IsDocumented os) (fd : ℤ) (bytes : List ℕ) where
  open os use {State, fs, signals, errno, eintr, write}

  -- One round, from what the further rounds do.
  write_round-Ensures :
      (again : ℕ → Action State Status) (written : ℕ) (s t : State) {i : ℕ} (r : Option ℕ)
      → IsAppending (fs s) fd i
      → WriteOutcome (fs s) fd i (drop written bytes) r (fs t)
      → (r ≡ none
          → errno t ≡ eintr
          → IsAppending (fs t) fd i
          → Ensures (again written t) (λ st u. Appends (fs t) fd i (drop written bytes) st (fs u)))
      → ((n : ℕ)
          → r ≡ some n
          → n ≢ 0
          → IsAppending (fs t) fd i
          → Ensures
              (again (written + n) t)
              (λ st u. Appends (fs t) fd i (drop (written + n) bytes) st (fs u)))
      → Ensures
          (write_round os again written r t)
          (λ st u. Appends (fs s) fd i (drop written bytes) st (fs u))
  unfolding write_round status
  write_round-Ensures again written s t none h (wrote k e le g) retry more = cc
  write_round-Ensures again written s t (some n) h (write_failed e g) retry more = cc
  write_round-Ensures again written s t {i} none h (write_failed e g) retry more =
      Ensures-if (errno t == eintr) _ _ t
        (λ intr.
          Ensures_mono (retry refl (ground arith) (rw g h))
            λ st u a. Appends-cons [] (g ∙ appended-nil _ _ _ h) refl a)
        (λ no_intr. Ensures-some (Appends-fail [] refl (g ∙ appended-nil _ _ _ h)))
  write_round-Ensures again written s t {i} (some n) h (wrote k e le g) retry more =
      let same : n ≡ k = some-injective _ _ e in
      let g' : fs t ≡ appended (fs s) fd i (take n (drop written bytes)) = rw same g in
      Ensures-if (n == 0) _ _ t
        (λ zero_count. Ensures-some (Appends-fail (take n (drop written bytes)) refl g'))
        (λ some_count.
          Ensures_mono (more n refl (ground arith) (rw g' (appended-IsAppending (fs s) fd i _)))
            λ st u a. Appends-cons (take n (drop written bytes)) g' (rest_after bytes written n) a)

  write_loop-Ensures :
      (fuel written : ℕ) (s : State) {i : ℕ}
      → IsAppending (fs s) fd i
      → length bytes - written + signals s < fuel
      → Ensures
          (write_loop os fuel fd bytes written s)
          (λ st t. Appends (fs s) fd i (drop written bytes) st (fs t))
  unfolding write_loop
  write_loop-Ensures zero written s h enough = absurd (omega arith)
  write_loop-Ensures (suc fuel) written s {i} h enough =
      Ensures-if (ltb written (length bytes)) _ _ s
        (λ more.
          let t = (write fd (drop written bytes) s).1 in
          let r = (write fd (drop written bytes) s).0 in
          write_round-Ensures (write_loop os fuel fd bytes) written s t r h
            (laws.write_appends fd (drop written bytes) s i h)
            (λ failed intr h'.
              write_loop-Ensures fuel written t h'
                (omega (arith, laws.write_interrupted fd (drop written bytes) s failed intr)))
            (λ n e pos_count h'.
              write_loop-Ensures fuel (written + n) t h'
                (ground (arith, laws.write_signals fd (drop written bytes) s))))
        (λ all. rw (drop_of_length_le written bytes (ground arith)) (Ensures-some (Appends-end h)))

  -- With an operating system that behaves as documented and a descriptor at the end of a file,
  -- WriteAll ends in spite of short writes and interruptions. It only appends to that file, and
  -- where it returns OK it has appended exactly the data.
  pub write_all-Ensures :
      (s : State) {i : ℕ}
      → IsAppending (fs s) fd i
      → Ensures (write_all os fd bytes s) (λ st t. Appends (fs s) fd i bytes st (fs t))
  unfolding write_all
  write_all-Ensures s h = write_loop-Ensures (length bytes + signals s + 1) 0 s h (omega arith)
