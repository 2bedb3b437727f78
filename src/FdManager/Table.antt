-- ===== src/FdManager/Table.antt =====
-- The table of descriptors: get finds what it made, and del forgets it.
use exhy.Common.{
  ℕ, ◌*◌, ◌/◌, ◌≤◌, ◌<◌, Bool, true, false, ◌≡◌, ◌⊎◌, ◌≢◌, refl, none, some, length, get_elem?,
}
use exhy.FdManager.{FdCtx, Stat, new_fd_ctx, FdManager, new_fd_manager, get, del}

-- The constructor's table is large enough for get.
pub length-new_fd_manager : length new_fd_manager ≡ 64
unfolding new_fd_manager
length-new_fd_manager = refl

-- The table after get made the context of `fd`.
pub record Made (fd : ℕ) (c : FdCtx) (ds es : FdManager) : Type 0 where
  pub found : get_elem? es fd ≡ some (some c)
  pub others : (j : ℕ) → fd ≢ j → j < length ds → get_elem? es j ≡ get_elem? ds j
  pub longer : length ds ≤ length es
  pub bounded : (length es ≡ length ds) ⊎ (length es ≡ fd * 3 / 2)

-- The table has no context of `fd`.
abbrev pub Missing : ℕ → FdManager → Type 0
Missing fd ds = (length ds ≤ fd) ⊎ (get_elem? ds fd ≡ some none)

-- get(fd, true) on ds returns c and leaves es: c was there already, or none was and it is new. From then on get(fd)
-- finds it with either flag, until del(fd).
pub record Got (stat : Stat) (fd : ℕ) (ds : FdManager) (c : FdCtx) (es : FdManager) : Type 0 where
  pub first : get stat (some fd) true ds ≡ some (some c, es)
  pub origin :
      ((get_elem? ds fd ≡ some (some c)) × (es ≡ ds)) ⊎ (Missing fd ds × (c ≡ new_fd_ctx stat fd))
  pub made : Made fd c ds es
  pub again : (auto_create : Bool) → get stat (some fd) auto_create es ≡ some (some c, es)
  pub gone : get stat (some fd) false (del fd es) ≡ some (none, del fd es)
