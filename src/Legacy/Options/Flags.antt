-- ===== src/Legacy/Options/Flags.antt =====
-- fiber_lib/6hook/hook.cpp: O_NONBLOCK as the program sees it and as the kernel has it.
use coroutine_library.Prelude.{
  ℕ, ◌≡◌, refl, ap, ◌∙◌, Bool, true, false, Option, none, some, get_elem?, lt-get_elem?,
  get_elem?-set_self, set, arith,
}
use coroutine_library.Prelude.Int.{pos}
use coroutine_library.Legacy.Descriptors.{FdCtx, FdManager}
use coroutine_library.Legacy.Options.{
  has_nonblock, put_nonblock, find_ctx, find_socket, socket_found, write_ctx, fcntl_setfl,
  fcntl_getfl, ioctl_fionbio,
}

has_nonblock-put : (b : Bool) (flags : ℕ) → has_nonblock (put_nonblock b flags) ≡ b
unfolding put_nonblock
has_nonblock-put true flags = ground arith
has_nonblock-put false flags = ground arith

put_nonblock-put :
    (b : Bool) (flags : ℕ) → put_nonblock (has_nonblock flags) (put_nonblock b flags) ≡ flags
unfolding put_nonblock
put_nonblock-put true flags = ground arith
put_nonblock-put false flags = ground arith

-- A descriptor whose context is found is in the table.
pub find_ctx-get_elem? :
    (n : ℕ) (m : FdManager) (c : FdCtx)
    → find_ctx (pos n) m ≡ some c
    → get_elem? m n ≡ some (some c)
unfolding find_ctx
find_ctx-get_elem? n m c h = by_entry (get_elem? m n) refl
  where
    by_entry : (o : Option (Option FdCtx)) → get_elem? m n ≡ o → get_elem? m n ≡ some (some c)
    by_entry none e = ground arith
    by_entry (some none) e = ground arith
    by_entry (some (some d)) e = ground arith

pub find_ctx-some :
    (n : ℕ) (m : FdManager) (c : FdCtx)
    → get_elem? m n ≡ some (some c)
    → find_ctx (pos n) m ≡ some c
unfolding find_ctx
find_ctx-some n m c h = ground arith

find_socket-parts :
    (n : ℕ) (m : FdManager) (c : FdCtx)
    → find_socket (pos n) m ≡ some c
    → (find_ctx (pos n) m ≡ some c) × (c.is_closed ≡ false) × (c.is_socket ≡ true)
unfolding find_socket
find_socket-parts n m c h = by_ctx (find_ctx (pos n) m) h
  where
    by_ctx :
        (o : Option FdCtx)
        → socket_found o ≡ some c
        → (o ≡ some c) × (c.is_closed ≡ false) × (c.is_socket ≡ true)
    by_ctx none e = absurd (cc)
    by_ctx (some d) e = ground arith

-- A context that is written in place of an open socket's is found if it is one too.
find_socket-write_ctx :
    (n : ℕ) (m : FdManager) (c c' : FdCtx)
    → find_socket (pos n) m ≡ some c
    → c'.is_closed ≡ false
    → c'.is_socket ≡ true
    → find_socket (pos n) (write_ctx (pos n) c' m) ≡ some c'
unfolding find_socket write_ctx
find_socket-write_ctx n m c c' h open_still socket =
    let (found, _, _) = find_socket-parts n m c h in
    let at = find_ctx-get_elem? n m c found in
    let there = get_elem?-set_self m n (some c') (lt-get_elem? m n (some c) at) in
    ap socket_found (find_ctx-some n (set m n (some c')) c' there) ∙ ground arith

-- For an open socket with a context, `fcntl(F_SETFL)` gives the kernel the flags with O_NONBLOCK as
-- the library wants it. If the kernel answers F_GETFL by the flags that it was given, the program
-- gets exactly the flags that it had set.
pub fcntl_setfl-getfl :
    (n arg : ℕ) (m : FdManager) (c : FdCtx)
    → find_socket (pos n) m ≡ some c
    → (has_nonblock (fcntl_setfl (pos n) arg m).0 ≡ c.sys_nonblock)
      × (fcntl_getfl (pos n) (some (fcntl_setfl (pos n) arg m).0) (fcntl_setfl (pos n) arg m).1
          ≡ pos arg)
unfolding fcntl_setfl fcntl_getfl
fcntl_setfl-getfl n arg m c h =
    let c' : FdCtx = record c { user_nonblock = has_nonblock arg } in
    let (_, still, socket) = find_socket-parts n m c h in
    let there = find_socket-write_ctx n m c c' h still socket in
    rw h
      (has_nonblock-put c.sys_nonblock arg, rw there (ap pos (put_nonblock-put c.sys_nonblock arg)))

-- For an open socket that the library has made non-blocking, `ioctl(FIONBIO)` with 0 gives the
-- kernel a 0, so that the socket blocks, where `fcntl(F_SETFL)` with flags that do not have
-- O_NONBLOCK gives it O_NONBLOCK; both leave the same contexts.
pub ioctl_fionbio-fcntl_setfl :
    (n arg : ℕ) (m : FdManager) (c : FdCtx)
    → find_socket (pos n) m ≡ some c
    → c.sys_nonblock ≡ true
    → has_nonblock arg ≡ false
    → ((ioctl_fionbio (pos n) false m).0 ≡ false)
      × (has_nonblock (fcntl_setfl (pos n) arg m).0 ≡ true)
      × ((ioctl_fionbio (pos n) false m).1 ≡ (fcntl_setfl (pos n) arg m).1)
unfolding ioctl_fionbio fcntl_setfl
ioctl_fionbio-fcntl_setfl n arg m c h sys plain =
    rw h (refl, has_nonblock-put c.sys_nonblock arg ∙ sys, rw plain refl)
