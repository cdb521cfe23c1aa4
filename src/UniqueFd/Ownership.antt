-- ===== src/UniqueFd/Ownership.antt =====
-- What owners close: each descriptor once, by the owner that holds it last.
use distributed_cache_system.Prelude.{◌≡◌, refl, true, false, none, some}
use distributed_cache_system.Prelude.Action.{Ensures, Ensures-some}
use distributed_cache_system.Posix.{ℤ, pos, negsuc, is_nonneg, Posix, with_opened}
use distributed_cache_system.Posix.Documented.{IsDocumented}
use distributed_cache_system.UniqueFd.{no_fd, unique_fd, destroy}

module _ (os : Posix) where
  open os use {State, fs, close}

  -- A destructor of an owner closes its descriptor.
  pub destroy-owner :
      (fd : ℤ) (s : State)
      → is_nonneg fd ≡ true
      → destroy os (unique_fd fd) s ≡ some (unique_fd no_fd, (close fd s).1)
  unfolding destroy
  destroy-owner (pos n) s h = refl
  destroy-owner (negsuc n) s h = cc

  -- A destructor of an empty object calls nothing.
  pub destroy-empty :
      (fd : ℤ) (s : State)
      → is_nonneg fd ≡ false
      → destroy os (unique_fd fd) s ≡ some (unique_fd no_fd, s)
  unfolding destroy
  destroy-empty (pos n) s h = cc
  destroy-empty (negsuc n) s h = refl

  module _ (laws : IsDocumented os) where
    pub destroy-Ensures :
        (fd : ℤ) (s : State)
        → is_nonneg fd ≡ true
        → Ensures
            (destroy os (unique_fd fd) s)
            (λ u t. (u ≡ unique_fd no_fd) × (fs t ≡ with_opened (fs s) fd none))
    destroy-Ensures fd s h =
        rw (destroy-owner fd s h) (Ensures-some (refl, laws.close_releases fd s))
