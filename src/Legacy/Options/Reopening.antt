-- ===== src/Legacy/Options/Reopening.antt =====
-- fiber_lib/6hook/hook.cpp: a descriptor number that is closed and given to a new socket.
use coroutine_library.Prelude.{
  ℕ, ◌<◌, ◌≡◌, refl, sym, ap, ◌∙◌, Bool, true, false, Option, none, some, get_elem?, set, length,
  lt-get_elem?, get_elem?-set_self, arith,
}
use coroutine_library.Prelude.Int.{pos}
use coroutine_library.Legacy.Descriptors.{FdCtx, FdManager, Stat, get, del, new_ctx, create_ctx}
use coroutine_library.Legacy.IoManager.{IoManager}
use coroutine_library.Legacy.Options.{
  Descriptors, find_ctx, socket, close, cancel_waiters, close_rest, close_found,
}
use coroutine_library.Legacy.Options.Flags.{find_ctx-get_elem?, find_ctx-some}

create_ctx_inside :
    (n : ℕ) (stat : Stat) (nonblocking : Bool) (m : FdManager)
    → n < length m
    → create_ctx n stat nonblocking m
      ≡ some (some (new_ctx n stat nonblocking), set m n (some (new_ctx n stat nonblocking)))
unfolding create_ctx
create_ctx_inside n stat nonblocking m h = ground arith

-- A number in the table with no context gets a new one.
socket_fresh :
    (n : ℕ) (stat : Stat) (nonblocking : Bool) (m : FdManager)
    → get_elem? m n ≡ some none
    → socket true (pos n) stat nonblocking m ≡ some (set m n (some (new_ctx n stat nonblocking)))
unfolding socket get
socket_fresh n stat nonblocking m h =
    let made = create_ctx_inside n stat nonblocking m (lt-get_elem? m n none h) in
    ground (arith, h, made)

module _ {F C : Type 0} where
  closed_contexts :
      (n : ℕ) (s s' : Descriptors F C) (o : Option (Option (IoManager F C)))
      → close_rest (pos n) s o ≡ some s'
      → s'.contexts ≡ set s.contexts n none
  unfolding close_rest del
  closed_contexts n s s' none e = absurd (cc)
  closed_contexts n s s' (some io) e = ground arith

  -- A hooked `close` of a descriptor that has a context, by a thread whose I/O manager, if it has
  -- one, can cancel the waiters, and then a hooked `socket` to which the kernel gives the same
  -- number: the number has a new context, made from what `fstat` and `fcntl` then say.
  pub close-socket :
      (n : ℕ) (ctl_ok : Bool) (stat : Stat) (nonblocking : Bool) (s s' : Descriptors F C)
      (c : FdCtx)
      → find_ctx (pos n) s.contexts ≡ some c
      → close true (pos n) ctl_ok s ≡ some s'
      → (m : FdManager) × (socket true (pos n) stat nonblocking s'.contexts ≡ some m)
        × (find_ctx (pos n) m ≡ some (new_ctx n stat nonblocking))
  unfolding close
  close-socket n ctl_ok stat nonblocking s s' c h e =
      let at = find_ctx-get_elem? n s.contexts c h in
      let inside = lt-get_elem? s.contexts n (some c) at in
      let gone : s'.contexts ≡ set s.contexts n none =
        closed_contexts n s s' (cancel_waiters (pos n) ctl_ok s.io)
          (sym (ap (close_found (pos n) ctl_ok s) h) ∙ e) in
      let empty : get_elem? s'.contexts n ≡ some none =
        ap (λ m. get_elem? m n) gone ∙ get_elem?-set_self s.contexts n none inside in
      let new = some (new_ctx n stat nonblocking) in
      (
        set s'.contexts n new,
        socket_fresh n stat nonblocking s'.contexts empty,
        find_ctx-some n _ _ (get_elem?-set_self s'.contexts n new (lt-get_elem? _ n none empty)),
      )

  -- If a thread without the hook closes it, the number keeps its old context, whatever the new
  -- socket is.
  pub close-socket_unhooked :
      (n : ℕ) (ctl_ok : Bool) (stat : Stat) (nonblocking : Bool) (s : Descriptors F C) (c : FdCtx)
      → find_ctx (pos n) s.contexts ≡ some c
      → (close false (pos n) ctl_ok s ≡ some s)
        × (socket true (pos n) stat nonblocking s.contexts ≡ some s.contexts)
  unfolding close socket
  close-socket_unhooked n ctl_ok stat nonblocking s c h =
      let at = find_ctx-get_elem? n s.contexts c h in (refl, ground arith)
