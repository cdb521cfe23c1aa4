-- ===== src/Worker/FileChunkStore/Get/Loop.antt =====
-- Get's loop sends the bytes from an offset on, in order, and stops at the first error.
use distributed_cache_system.Prelude.{
  ℕ, zero, suc, ◌+◌, ◌-◌, ◌%◌, ◌≤◌, ◌<◌, ◌≡◌, refl, sym, ◌∙◌, List, [], ◌++◌, ◌==◌, ltb, min,
  length, length-take, take, drop, drop-drop, take_add, arith,
}
use native.Mathlib.Nat.{mod-eq_of_lt}
use distributed_cache_system.Prelude.Action.{
  Action, Ensures, Ensures-some, Ensures-if, Ensures-bind, Ensures_mono, Ensures-on_first,
}
use distributed_cache_system.Status.{Status, status, is_ok, StatusOr}
use distributed_cache_system.Types.{u64}
use distributed_cache_system.Posix.{ℤ, Posix}
use distributed_cache_system.Posix.Documented.{IsDocumented, IsOpenOn}
use distributed_cache_system.Worker.Calls.ReadLaws.{
  Reads, read_error, read_bytes, pread_some-Ensures,
}
use distributed_cache_system.Worker.Streams.{
  OutputStream, Sent, sent_all, gave_up, not_taken, taken,
}
use distributed_cache_system.Worker.FileChunkStore.Put.{k_buffer_size}
use distributed_cache_system.Worker.FileChunkStore.Get.{get_round, get_loop}

-- The bytes [offset, offset + size) of the contents.
abbrev pub slice : List ℕ → ℕ → ℕ → List ℕ
slice contents offset size = take size (drop offset contents)

slice_split :
    (contents : List ℕ) (offset size k : ℕ)
    → k ≤ size
    → slice contents offset size
      ≡ take k (drop offset contents) ++ slice contents (offset + k) (size - k)
slice_split contents offset size k h =
    rw (← drop-drop offset k (offset + k) contents refl)
      (sym (take_add k (size - k) size (drop offset contents) (omega arith)))

module _ (os : Posix) (laws : IsDocumented os) {V : Type 0} (output : OutputStream V) (fd : ℤ) where
  open os use {State, fs}

  module _ (contents : List ℕ) (fits : length contents < u64) where
    get_round-Ensures :
        (again : ℕ → ℕ → Action (State × V) Status) (remaining offset count : ℕ) (s : State)
        (t : State × V) (r : StatusOr (List ℕ))
        → 0 < remaining
        → 0 < count
        → count ≤ remaining
        → offset + remaining ≤ length contents
        → Reads contents count offset r
        → fs t.0 ≡ fs s
        → ((k : ℕ) (v : V)
            → 0 < k
            → k ≤ remaining
            → Ensures (again (remaining - k) (offset + k) (t.0, v)) (λ st u.
              Sent output st v (slice contents (offset + k) (remaining - k)) u.1
              × (fs u.0 ≡ fs t.0)))
        → Ensures
            (get_round os output again remaining offset r.held_status r.held_value t)
            (λ st u. Sent output st t.1 (slice contents offset remaining) u.1 × (fs u.0 ≡ fs s))
    unfolding get_round status
    get_round-Ensures again remaining offset count s t r pos_r pos_c le_c inside
          (read_error e bad why) g next =
        rw (e, get_round) (Ensures-some (gave_up bad refl, g))
    get_round-Ensures again remaining offset count s t r pos_r pos_c le_c inside
          (read_bytes k e le le' eof) g next =
        let piece = take k (drop offset contents) in
        let counted : length piece ≡ k = omega (arith, length-take k (drop offset contents)) in
        let wrote = output.write piece t.1 in
        let there : State × V = (t.0, wrote.1) in
        rw (e, get_round)
          (Ensures-if (length piece == 0) _ _ t
            (λ empty. absurd (let z : k ≡ 0 = ground arith in omega (arith, eof z pos_c)))
            (λ some_bytes.
              Ensures-if (is_ok wrote.0) _ _ there
                (λ okay.
                  let nonzero : 0 < k = ground arith in
                  let no_wrap : (offset + length piece) % u64 ≡ offset + k =
                    rw counted (mod-eq_of_lt {n = offset + k} {m = u64} (omega arith)) in
                  rw (no_wrap, counted)
                    (Ensures_mono (next k wrote.1 nonzero (omega arith)) λ st u sent. (
                      taken piece (slice contents (offset + k) (remaining - k))
                          (slice_split contents offset remaining k (omega arith)) okay sent.0,
                      sent.1 ∙ g,
                    )))
                (λ failed. Ensures-some (
                  not_taken piece (slice contents (offset + k) (remaining - k))
                      (slice_split contents offset remaining k (omega arith)) refl failed refl,
                  g,
                ))))

    pub get_loop-Ensures :
        (fuel remaining offset : ℕ) (s : State) (v : V) (i p : ℕ)
        → IsOpenOn (fs s) fd i p
        → (fs s).bytes i ≡ contents
        → offset + remaining ≤ length contents
        → remaining < fuel
        → Ensures
            (get_loop os output fuel fd remaining offset (s, v))
            (λ st u. Sent output st v (slice contents offset remaining) u.1 × (fs u.0 ≡ fs s))
    unfolding get_loop
    get_loop-Ensures zero remaining offset s v i p h is inside enough = absurd (omega arith)
    get_loop-Ensures (suc fuel) remaining offset s v i p h is inside enough =
        Ensures-if (ltb 0 remaining) _ _ (s, v)
          (λ more.
            let left : 0 < remaining = ground arith in
            Ensures-bind _
              (Ensures-on_first v
                (pread_some-Ensures os laws fd (min remaining k_buffer_size) offset s i p h))
              λ r t read. rw (← read.1) (
                get_round-Ensures (get_loop os output fuel fd) remaining offset
                  (min remaining k_buffer_size) s t r left (omega arith) (omega arith) inside
                  (rw is at read.0.0) read.0.1
                  λ k w nonzero le.
                    get_loop-Ensures fuel (remaining - k) (offset + k) t.0 w i p (rw read.0.1 h)
                      (rw read.0.1 is) (omega arith) (omega arith)))
          (λ all. Ensures-some (sent_all refl (no_rest remaining (ground arith)) refl, refl))
      where
        no_rest : (n : ℕ) → n ≡ 0 → slice contents offset n ≡ []
        no_rest n e = rw e refl
