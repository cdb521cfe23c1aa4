-- ===== src/Posix/Unlinking.antt =====
-- An unlink whose result the code ignores.
use distributed_cache_system.Prelude.{ℕ, ◌≡◌, refl, ◌∙◌, Bool, Option, none}
use distributed_cache_system.Prelude.Maps.{update_same}
use distributed_cache_system.Posix.{FilePath, Fs, Posix, with_entry, path_eq}
use distributed_cache_system.Posix.Documented.{IsDocumented, EntryOutcome, entry_kept, entry_set}

-- After an unlink that may have failed, one entry may have changed.
pub record Unlinked (f : Fs) (path : FilePath) (g : Fs) : Type 0 where
  pub left : Option ℕ
  pub result : g ≡ with_entry f path left

EntryOutcome-Unlinked :
    {f g : Fs} {path : FilePath} {done : Bool} → EntryOutcome f path none done g → Unlinked f path g
EntryOutcome-Unlinked {f} {path} (entry_kept e g) = record {
  left = f.entry path;
  result = g ∙ rw (update_same f.entry path _ refl) refl;
}
EntryOutcome-Unlinked (entry_set e g) = record { left = none; result = g }

module _ (os : Posix) (laws : IsDocumented os) where
  open os use {State, fs, unlink}

  pub unlink-Unlinked : (path : FilePath) (s : State) → Unlinked (fs s) path (fs (unlink path s).1)
  unlink-Unlinked path s = EntryOutcome-Unlinked (laws.unlink_removes path s)
