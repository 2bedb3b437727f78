-- ===== src/FdManager.antt =====
-- exhy/exhy_fdmanager.h and exhy/exhy_fdmanager.cpp: what is known of the open file descriptors.
--
-- fstat and fcntl are not code of the repository: `stat` says for a descriptor whether fstat succeeds
-- and whether it is a socket, and the change that FdCtx makes to the descriptor's own flags is not part of
-- the state. The descriptor -1 is not a number here and stands in get as `none`. The shared pointers that
-- get returns are the contexts' values.
pub mod Table
mod Runs
use exhy.Common.{
  int_le, ℕ, zero, suc, ◌+◌, ◌-◌, ◌*◌, ◌/◌, ◌^◌, Bool, true, false, not, List, [], ◌∷◌, ◌++◌,
  Option, none, some, ◌>>=◌, if◌then◌else◌, leb, length, take, replicate, get_elem?, set,
}

pub record FdCtx : Type 0 where
  pub is_init : Bool
  pub is_socket : Bool
  pub sys_nonblock : Bool
  pub user_nonblock : Bool
  pub is_closed : Bool
  pub fd : ℕ
  pub recv_timeout : ℕ
  pub send_timeout : ℕ

-- What fstat says: none where it fails, and else whether the descriptor is a socket.
abbrev pub Stat : Type 0
Stat = ℕ → Option Bool

-- -1 as a uint64_t.
abbrev pub no_timeout : ℕ
no_timeout = 2 ^ 64 - 1

-- The constructor and init.
pub new_fd_ctx : Stat → ℕ → FdCtx
new_fd_ctx stat fd =
    let socket : Bool = elim (stat fd) [ none ↦ false | some s ↦ s ] in
    record {
      is_init = elim (stat fd) [ none ↦ false | some s ↦ true ];
      is_socket = socket;
      sys_nonblock = socket;
      user_nonblock = false;
      is_closed = false;
      fd = fd;
      recv_timeout = no_timeout;
      send_timeout = no_timeout;
    }

-- SO_RCVTIMEO or any other type.
pub data TimeoutType : Type 0 where
  rcvtimeo other_type : TimeoutType

pub set_timeout : TimeoutType → ℕ → FdCtx → FdCtx
set_timeout rcvtimeo v c = record c { recv_timeout = v }
set_timeout other_type v c = record c { send_timeout = v }

pub get_timeout : TimeoutType → FdCtx → ℕ
get_timeout rcvtimeo c = c.recv_timeout
get_timeout other_type c = c.send_timeout

-- m_datas; a null pointer is none.
abbrev pub FdManager : Type 0
FdManager = List (Option FdCtx)

pub new_fd_manager : FdManager
new_fd_manager = replicate 64 none

-- vector::resize.
pub resize : ℕ → FdManager → FdManager
resize n ds = take n ds ++ replicate (n - length ds) none

-- The part of get below the read lock.
pub create : Stat → ℕ → FdManager → Option (Option FdCtx × FdManager)
create stat fd ds =
    let ctx = new_fd_ctx stat fd in
    let wide = if int_le (length ds) fd then resize (fd * 3 / 2) ds else ds in
    if leb (length wide) fd then none else some (some ctx, set wide fd (some ctx))

-- `none` is an access behind the end of m_datas.
pub get : Stat → Option ℕ → Bool → FdManager → Option (Option FdCtx × FdManager)
get stat none auto_create ds = some (none, ds)
get stat (some fd) auto_create ds =
    let made = create stat fd ds in
    if int_le (length ds) fd
    then (if auto_create then made else some (none, ds))
    else (get_elem? ds fd >>= λ p. elim p [
      | some c ↦ some (some c, ds)
      | none ↦ if auto_create then made else some (none, ds)
    ])

pub del : ℕ → FdManager → FdManager
del fd ds = if int_le (length ds) fd then ds else set ds fd none
