-- ===== src/UniqueFd.antt =====
-- include/storage/common/unique_fd.h: the owner of a file descriptor.
pub mod Ownership
use distributed_cache_system.Prelude.{ℕ, Bool, true, false, not, ◌&&◌, if◌then◌else◌}
use distributed_cache_system.Prelude.Action.{Action, pure, call, ◌>>=◌, ◌>>◌}
use distributed_cache_system.Posix.{ℤ, negsuc, is_nonneg, same_int, Posix}

-- class UniqueFd: `fd_`
pub record UniqueFd : Type 0 where
  pub fd : ℤ

-- -1, the descriptor of no file
abbrev pub no_fd : ℤ
no_fd = negsuc 0

-- UniqueFd(int)
abbrev pub unique_fd : ℤ → UniqueFd
unique_fd fd = record { fd = fd }

-- UniqueFd::valid()
abbrev pub owns : UniqueFd → Bool
owns u = is_nonneg u.fd

-- UniqueFd::release(): the descriptor, and the emptied owner.
unfoldable pub release : UniqueFd → ℤ × UniqueFd
release u = (u.fd, unique_fd no_fd)

module _ (os : Posix) where
  -- UniqueFd::reset(int)
  unfoldable pub reset : ℤ → UniqueFd → Action os.State UniqueFd
  reset fd u = do
    if is_nonneg u.fd && not (same_int u.fd fd)
        then (do call (os.close u.fd); pure (unique_fd fd))
        else pure (unique_fd fd)

  -- ~UniqueFd(); also reset() with its default argument
  unfoldable pub destroy : UniqueFd → Action os.State UniqueFd
  unfolding reset
  destroy u = reset no_fd u

  -- UniqueFd(UniqueFd &&other): the new owner and what is left of `other`.
  unfoldable pub move_construct : UniqueFd → UniqueFd × UniqueFd
  unfolding release
  move_construct other = let (fd, rest) = release other in (unique_fd fd, rest)

  -- operator=(UniqueFd &&other) between two objects
  unfoldable pub move_assign : UniqueFd → UniqueFd → Action os.State (UniqueFd × UniqueFd)
  unfolding release reset
  move_assign u other = let (fd, rest) = release other in do u' ← reset fd u; pure (u', rest)
