-- ===== src/Legacy/Options.antt =====
-- fiber_lib/6hook/hook.cpp: the hooked calls that keep or consult the descriptor contexts. The
-- kernel's answers are arguments. File status flags are numbers in which O_NONBLOCK is one bit.
pub mod Flags
pub mod Reopening
pub mod Timeouts
use coroutine_library.Prelude.{
  ℕ, ◌+◌, ◌-◌, ◌*◌, ◌/◌, ◌%◌, Bool, true, false, Option, none, some, if◌then◌else◌, ◌==◌, not, ◌&&◌,
  ◌||◌, set,
}
use coroutine_library.Prelude.Int.{ℤ, pos, negsuc, minus_one, int_eq, is_negative}
use coroutine_library.Legacy.Descriptors.{FdCtx, FdManager, Stat, no_file, get, del, set_timeout}
use coroutine_library.Legacy.IoManager.{IoManager, manager_cancel_all}

abbrev pub o_nonblock : ℕ
o_nonblock = 2_048

unfoldable pub has_nonblock : ℕ → Bool
has_nonblock flags = flags / o_nonblock % 2 == 1

-- `flags | O_NONBLOCK`, `flags & ~O_NONBLOCK`, and one of these.
unfoldable pub set_nonblock : ℕ → ℕ
unfolding has_nonblock
set_nonblock flags = if has_nonblock flags then flags else flags + o_nonblock

unfoldable pub clear_nonblock : ℕ → ℕ
unfolding has_nonblock
clear_nonblock flags = if has_nonblock flags then flags - o_nonblock else flags

unfoldable pub put_nonblock : Bool → ℕ → ℕ
unfolding set_nonblock clear_nonblock
put_nonblock b flags = if b then set_nonblock flags else clear_nonblock flags

ctx_of : Option (Option FdCtx × FdManager) → Option FdCtx
ctx_of none = none
ctx_of (some (c, m)) = c

-- `FdMgr::GetInstance()->get(fd)`.
unfoldable pub find_ctx : ℤ → FdManager → Option FdCtx
unfolding ctx_of get
find_ctx fd m = ctx_of (get fd false no_file false m)

-- A write through the pointer to a descriptor's context.
unfoldable pub write_ctx : ℤ → FdCtx → FdManager → FdManager
write_ctx (pos n) c m = set m n (some c)
write_ctx (negsuc n) c m = m

-- The context, if it is there, open and of a socket.
socket_found : Option FdCtx → Option FdCtx
socket_found none = none
socket_found (some c) = if c.is_closed || not c.is_socket then none else some c

unfoldable pub find_socket : ℤ → FdManager → Option FdCtx
unfolding find_ctx socket_found
find_socket fd m = socket_found (find_ctx fd m)

-- `fcntl(fd, F_SETFL, arg)`: what the kernel's call is given, and the contexts.
setfl_found : ℤ → ℕ → FdManager → Option FdCtx → ℕ × FdManager
unfolding has_nonblock put_nonblock write_ctx
setfl_found fd arg m none = (arg, m)
setfl_found fd arg m (some c) = (
  put_nonblock c.sys_nonblock arg,
  write_ctx fd (record c { user_nonblock = has_nonblock arg }) m,
)

unfoldable pub fcntl_setfl : ℤ → ℕ → FdManager → ℕ × FdManager
unfolding setfl_found find_socket
fcntl_setfl fd arg m = setfl_found fd arg m (find_socket fd m)

-- `fcntl(fd, F_GETFL)` on the kernel's answer, `none` if it is -1: the result is made from -1 too.
getfl_found : Option ℕ → Option FdCtx → ℤ
unfolding put_nonblock
getfl_found none none = minus_one
getfl_found (some flags) none = pos flags
getfl_found none (some c) = if c.user_nonblock then minus_one else negsuc o_nonblock
getfl_found (some flags) (some c) = pos (put_nonblock c.user_nonblock flags)

unfoldable pub fcntl_getfl : ℤ → Option ℕ → FdManager → ℤ
unfolding getfl_found find_socket
fcntl_getfl fd flags m = getfl_found flags (find_socket fd m)

-- The commands of `fcntl`: the two above, and those that are passed on with or without an argument.
pub data FcntlCommand : Type 0 where
  f_setfl f_getfl : FcntlCommand
  f_dupfd f_dupfd_cloexec f_setfd f_setown f_setsig f_setlease f_notify f_setpipe_sz : FcntlCommand
  f_getfd f_getown f_getsig f_getlease f_getpipe_sz : FcntlCommand
  f_setlk f_setlkw f_getlk f_getown_ex f_setown_ex f_other : FcntlCommand

-- Whether the kernel's call is given an argument.
unfoldable pub passes_argument : FcntlCommand → Bool
passes_argument f_getfl = false
passes_argument f_getfd = false
passes_argument f_getown = false
passes_argument f_getsig = false
passes_argument f_getlease = false
passes_argument f_getpipe_sz = false
passes_argument f_other = false
passes_argument _ = true

-- `ioctl(fd, FIONBIO, &nonblocking)`: what the kernel's call is given, and the contexts.
ioctl_found : ℤ → Bool → FdManager → Option FdCtx → Bool × FdManager
unfolding write_ctx
ioctl_found fd nonblocking m none = (nonblocking, m)
ioctl_found fd nonblocking m (some c) =
    (nonblocking, write_ctx fd (record c { user_nonblock = nonblocking }) m)

unfoldable pub ioctl_fionbio : ℤ → Bool → FdManager → Bool × FdManager
unfolding ioctl_found find_socket
ioctl_fionbio fd nonblocking m = ioctl_found fd nonblocking m (find_socket fd m)

-- `setsockopt`: `timeout` is whether the option is SO_RCVTIMEO or SO_SNDTIMEO of SOL_SOCKET, with
-- `receives` for the first, and the value is seconds and microseconds.
setsockopt_found : ℤ → Bool → ℕ → ℕ → FdManager → Option FdCtx → FdManager
unfolding write_ctx
setsockopt_found fd receives s us m none = m
setsockopt_found fd receives s us m (some c) =
    write_ctx fd (set_timeout receives (s * 1_000 + us / 1_000) c) m

unfoldable pub setsockopt : Bool → Bool → ℤ → Bool → ℕ → ℕ → FdManager → FdManager
unfolding setsockopt_found find_ctx
setsockopt enabled timeout fd receives s us m =
    if enabled && timeout then setsockopt_found fd receives s us m (find_ctx fd m) else m

contexts_of : FdManager → Option (Option FdCtx × FdManager) → Option FdManager
contexts_of m none = none
contexts_of m (some (c, m')) = some m'

-- `socket` and `accept` once the kernel, or `do_io`, has answered a descriptor.
unfoldable pub socket : Bool → ℤ → Stat → Bool → FdManager → Option FdManager
unfolding contexts_of
socket enabled fd stat nonblocking m =
    if not enabled || int_eq fd minus_one
    then some m
    else contexts_of m (get fd true stat nonblocking m)

unfoldable pub accept : ℤ → Stat → Bool → FdManager → Option FdManager
unfolding contexts_of
accept fd stat nonblocking m =
    if is_negative fd then some m else contexts_of m (get fd true stat nonblocking m)

-- The contexts and the I/O manager of the thread, if it has one.
pub record Descriptors (F C : Type 0) : Type 0 where
  pub contexts : FdManager
  pub io : Option (IoManager F C)

del_at : ℤ → FdManager → FdManager
del_at (pos n) m = del n m
del_at (negsuc n) m = m

module _ {F C : Type 0} where
  io_of : Option (Bool × IoManager F C) → Option (Option (IoManager F C))
  io_of none = none
  io_of (some (b, m)) = some (some m)

  cancel_waiters : ℤ → Bool → Option (IoManager F C) → Option (Option (IoManager F C))
  unfolding io_of
  cancel_waiters fd ctl_ok none = some none
  cancel_waiters fd ctl_ok (some m) = io_of (manager_cancel_all fd ctl_ok m)

  close_rest : ℤ → Descriptors F C → Option (Option (IoManager F C)) → Option (Descriptors F C)
  unfolding del_at
  close_rest fd s none = none
  close_rest fd s (some io) = some (record { contexts = del_at fd s.contexts; io = io })

  close_found : ℤ → Bool → Descriptors F C → Option FdCtx → Option (Descriptors F C)
  unfolding cancel_waiters close_rest
  close_found fd ctl_ok s none = some s
  close_found fd ctl_ok s (some c) = close_rest fd s (cancel_waiters fd ctl_ok s.io)

  -- `close` before it calls the kernel's.
  unfoldable pub close : Bool → ℤ → Bool → Descriptors F C → Option (Descriptors F C)
  unfolding close_found find_ctx
  close enabled fd ctl_ok s =
      if not enabled then some s else close_found fd ctl_ok s (find_ctx fd s.contexts)
