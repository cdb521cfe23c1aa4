-- ===== src/Posix/Settling.antt =====
-- A new file that was written, closed and perhaps unlinked.
use distributed_cache_system.Prelude.{ℕ, ◌≡◌, ◌≢◌, refl, ap, ◌∙◌, Option, none, some, List}
use distributed_cache_system.Prelude.Maps.{
  update, update_self, update_ne, update-update, update_same,
}
use distributed_cache_system.Posix.{
  ℤ, FilePath, Fs, file, created, appended, with_entry, with_opened, path_eq, nat_eq, int_eq,
}

-- The files once the new file is closed: its number, its contents, and what names it.
abbrev pub settled : Fs → FilePath → Option ℕ → ℕ → List ℕ → Fs
settled f temp x i contents = record f {
  entry = update f.entry temp x;
  bytes = update f.bytes i contents;
}

pub settle_closed :
    (f : Fs) (temp : FilePath) (fd : ℤ) (i : ℕ) (d : List ℕ)
    → f.opened fd ≡ none
    → with_opened (appended (created f temp i fd) fd i d) fd none ≡ settled f temp (some i) i d
settle_closed f temp fd i d free =
    rw
      (
        update_self f.bytes i,
        update-update f.bytes i,
        update-update f.opened fd (some (file i 0)) _,
        update-update f.opened fd _ none,
        update_same f.opened fd none free,
      )
      refl

pub settle_abandoned :
    (f : Fs) (temp : FilePath) (fd : ℤ) (i : ℕ) (d : List ℕ) (x : Option ℕ)
    → f.opened fd ≡ none
    → with_opened (with_entry (appended (created f temp i fd) fd i d) temp x) fd none
      ≡ settled f temp x i d
settle_abandoned f temp fd i d x free =
    ap (λ (g : Fs). with_entry g temp x) (settle_closed f temp fd i d free)
    ∙ rw (update-update f.entry temp (some i) x) refl

pub settled_contents :
    (f : Fs) (i : ℕ)
    → ((q : FilePath) → f.entry q ≢ some i)
    → (c : List ℕ) (q : FilePath) (j : ℕ) → f.entry q ≡ some j
    → update f.bytes i c j ≡ f.bytes j
settled_contents f i fresh c q j e = update_ne f.bytes i j c (λ same. fresh q (rw same e))
