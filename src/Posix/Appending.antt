-- ===== src/Posix/Appending.antt =====
-- Writes at the end of one file add up, and closing undoes opening.
use distributed_cache_system.Prelude.{
  ℕ, ◌≡◌, refl, Option, none, List, [], ◌++◌, append-nil, append_assoc,
}
use distributed_cache_system.Prelude.Maps.{update_self, update-update, update_same}
use distributed_cache_system.Posix.{ℤ, Fs, Opened, appended, with_opened, int_eq}
use distributed_cache_system.Posix.Documented.{IsAppending}

pub appended-appended :
    (f : Fs) (fd : ℤ) (i : ℕ) (a b : List ℕ)
    → appended (appended f fd i a) fd i b ≡ appended f fd i (a ++ b)
appended-appended f fd i a b =
    rw (update_self f.bytes i, update-update, update-update, append_assoc) refl

pub appended-nil : (f : Fs) (fd : ℤ) (i : ℕ) → IsAppending f fd i → f ≡ appended f fd i []
appended-nil f fd i h =
    rw (append-nil, update_same f.bytes i _ refl, update_same f.opened fd _ h) refl

pub appended-IsAppending :
    (f : Fs) (fd : ℤ) (i : ℕ) (a : List ℕ) → IsAppending (appended f fd i a) fd i
appended-IsAppending f fd i a = rw (update_self, update_self) refl

-- A descriptor that was opened, and then closed, leaves the table as it was.
pub close_opened :
    {f g : Fs} (fd : ℤ) (o : Option Opened)
    → f.opened fd ≡ none
    → g ≡ with_opened f fd o
    → with_opened g fd none ≡ f
close_opened {f} fd o free e =
    rw (e, update-update f.opened fd o none, update_same f.opened fd none free) refl
