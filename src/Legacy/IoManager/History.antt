-- ===== src/Legacy/IoManager/History.antt =====
-- fiber_lib/6hook/ioscheduler.cpp: histories of calls of an `IOManager`, and of events that `idle`
-- handles. Each call does its work under the context's mutex, and no other thread acts between its
-- test of the table's size and the growth of the table.
use coroutine_library.Prelude.{
  ℕ, ◌*◌, ◌/◌, ◌≤◌, ◌≡◌, refl, sym, subst, ap, ◌∙◌, Bool, true, Option, none, some, ltb, length,
  get_elem?, lt-get_elem?, Bool-cases, inl, inr, if_true, if_false, arith,
}
use coroutine_library.Prelude.Int.{ℤ, pos}
use coroutine_library.Legacy.EventSets.{Direction, FdContext, Report, real_events}
use coroutine_library.Legacy.Contexts.{
  Locked, add_event, del_event, cancel_event, cancel_all, handle_report, answer,
}
use coroutine_library.Legacy.Contexts.Bookkeeping.{Fits, Settles}
use coroutine_library.Legacy.Contexts.Reporting.{cancel_all-state, handle_events-state}
use coroutine_library.Legacy.Contexts.Settling.{
  add_event-locked, del_event-state, cancel_event-state,
}
use coroutine_library.Legacy.IoManager.{
  IoManager, context_resize, new_manager, lock, if_known, manager_add, manager_del, manager_cancel,
  manager_cancel_all, handle_arrival, reported, state_of,
}
use coroutine_library.Legacy.IoManager.Books.{
  Books, on_context-Books, context_resize-Books, new_manager-Books,
}

-- A call, with its descriptor, which is not negative, and what `epoll_ctl` will say. One that adds a
-- waiter comes from a fiber in state RUNNING.
pub data IoCall (F C : Type 0) : Type 0 where
  adds_waiter : ℕ → Direction → ℕ → F → Option C → Bool → IoCall F C
  deletes_waiter cancels_waiter : ℕ → Direction → Bool → IoCall F C
  cancels_every : ℕ → Bool → IoCall F C
  handles : ℕ → Report → Bool → IoCall F C

module _ {F C : Type 0} where
  unfoldable pub io_step : IoCall F C → IoManager F C → Option (IoManager F C)
  unfolding state_of
  io_step (adds_waiter n d s running cb ok) m =
      state_of (manager_add (pos n) d (some s) (some running) cb ok m)
  io_step (deletes_waiter n d ok) m = state_of (manager_del (pos n) d ok m)
  io_step (cancels_waiter n d ok) m = state_of (manager_cancel (pos n) d ok m)
  io_step (cancels_every n ok) m = state_of (manager_cancel_all (pos n) ok m)
  io_step (handles n r ok) m = handle_arrival (reported n r ok) m

  -- Epoll reports input or output only where that is registered when the event is handled.
  abbrev pub Reports : Report → Option (FdContext F C) → Type 0
  Reports r none = ⊥
  Reports r (some c) =
      (r.input ≡ true → c.events.reading ≡ true) × (r.output ≡ true → c.events.writing ≡ true)

  abbrev pub CanCome : IoCall F C → IoManager F C → Type 0
  CanCome (handles n r ok) m = Reports r (get_elem? m.contexts n)
  CanCome _ m = Unit {0}

  from_some : {a b : IoManager F C} → some a ≡ some b → a ≡ b
  from_some e = cc

  -- The managers that calls lead to, from a new one.
  pub data Reached : IoManager F C → Type 0 where
    started : Reached new_manager
    stepped :
        {m m' : IoManager F C} (c : IoCall F C)
        → Reached m
        → CanCome c m
        → io_step c m ≡ some m'
        → Reached m'

  Ends : Option (IoManager F C) → Type 0
  Ends r = (m' : IoManager F C) × (r ≡ some m') × Books m'

  state_of-Ends :
      {A : Type 0} (r : Option (A × IoManager F C))
      → (a : A) × (m' : IoManager F C) × (r ≡ some (a, m')) × Books m'
      → Ends (state_of r)
  unfolding state_of Ends
  state_of-Ends r (a, m', e, b) = (m', ap state_of e, b)

  -- A call that looks for its context and answers false where there is none.
  known-Ends :
      (n : ℕ) (op : Locked F C → Option (Bool × Locked F C)) (m : IoManager F C)
      → Books m
      → ((c : FdContext F C) → Fits (lock c m) → Settles (lock c m) (op (lock c m)))
      → Ends (state_of (if_known (pos n) op m))
  unfolding if_known Ends state_of
  known-Ends n op m b settles = elim (Bool-cases (ltb n (length m.contexts))) [
    | inl e ↦
        let (m', q, b') =
          state_of-Ends _ (on_context-Books n op m b (ground arith) (λ c at. settles c)) in
        (m', ap state_of (if_true _ _ e) ∙ q, b')
    | inr e ↦ (m, ap state_of (if_false _ _ e), b)
  ]

  add-Ends :
      (n : ℕ) (d : Direction) (s : ℕ) (running : F) (cb : Option C) (ok : Bool) (m : IoManager F C)
      → Books m
      → Ends (state_of (manager_add (pos n) d (some s) (some running) cb ok m))
  unfolding manager_add Ends
  add-Ends n d s running cb ok m b = elim (Bool-cases (ltb n (length m.contexts))) [
    | inl e ↦
        let (m', q, b') = state_of-Ends _ (on_context-Books n op m b (ground arith) (added m b)) in
        (m', ap state_of (if_true _ _ e) ∙ q, b')
    | inr e ↦
        let out : length m.contexts ≤ n = ground arith in
        let (wider, long) = context_resize-Books (n * 3 / 2) m b (omega (arith, out, b.wide)) in
        let grown : IoManager F C = context_resize (n * 3 / 2) m in
        let (m', q, b') =
          state_of-Ends _
            (on_context-Books n op grown wider (omega (arith, b.wide)) (added grown wider)) in
        (m', ap state_of (if_false _ _ e) ∙ q, b')
  ]
    where
      op : Locked F C → Option (ℤ × Locked F C)
      op = add_event d (some s) (some running) cb ok

      added :
          (k : IoManager F C)
          → Books k
          → (c : FdContext F C) → get_elem? k.contexts n ≡ some c
          → Fits (lock c k)
          → Settles (lock c k) (op (lock c k))
      added k bk c at f =
          add_event-locked d s running cb ok c.events.reading c.events.writing c.read c.write c.fd
            k.pending k.given k.epoll f bk.small

  -- An event that epoll may report.
  handled-Settles :
      (r : Report) (ok : Bool) (m : IoManager F C) (c : FdContext F C)
      → Books m
      → Reports r (some c)
      → Fits (lock c m)
      → Settles (lock c m) (answer true (handle_report r ok (lock c m)))
  unfolding handle_report
  handled-Settles r ok m c b h f =
      let real = real_events r c.events in
      handle_events-state c.fd m.pending m.given m.epoll ok c.events.reading c.events.writing
        real.reading real.writing c.read c.write (ground arith) (ground arith) f b.small

  handle-Ends :
      (n : ℕ) (r : Report) (ok : Bool) (m : IoManager F C)
      → Books m
      → (o : Option (FdContext F C)) → get_elem? m.contexts n ≡ o
      → Reports r o
      → Ends (handle_arrival (reported n r ok) m)
  unfolding handle_arrival
  handle-Ends n r ok m b none at h = elim h [ ]
  handle-Ends n r ok m b (some c) at h = state_of-Ends _ (
      on_context-Books n (λ l. answer true (handle_report r ok l)) m b
        (lt-get_elem? m.contexts n c at)
        (λ c' at' f.
          let same : Reports r (some c') = subst (Reports r) (sym at ∙ at') h in
          handled-Settles r ok m c' b same f))

  io_step-Ends : (c : IoCall F C) (m : IoManager F C) → Books m → CanCome c m → Ends (io_step c m)
  unfolding io_step manager_del manager_cancel manager_cancel_all
  io_step-Ends (adds_waiter n d s running cb ok) m b h = add-Ends n d s running cb ok m b
  io_step-Ends (deletes_waiter n d ok) m b h = known-Ends n (del_event d ok) m b (λ c f.
      del_event-state c.fd m.pending m.given m.epoll d ok c.events.reading c.events.writing c.read
        c.write f b.small)
  io_step-Ends (cancels_waiter n d ok) m b h = known-Ends n (cancel_event d ok) m b (λ c f.
      cancel_event-state c.fd m.pending m.given m.epoll d ok c.events.reading c.events.writing
        c.read c.write f b.small)
  io_step-Ends (cancels_every n ok) m b h = known-Ends n (cancel_all ok) m b (λ c f.
      cancel_all-state c.fd m.pending m.given m.epoll ok c.events.reading c.events.writing c.read
        c.write f b.small)
  io_step-Ends (handles n r ok) m b h = handle-Ends n r ok m b (get_elem? m.contexts n) refl h

  Reached-Books : {m : IoManager F C} → Reached m → Books m
  unfolding Ends
  Reached-Books started = new_manager-Books
  Reached-Books (stepped {m} {m'} c r h e) =
      let (k, e', b) = io_step-Ends c m (Reached-Books r) h in
      subst Books (from_some (sym e' ∙ e)) b

  -- Calls lead to a manager from a new one. Each is for a non-negative descriptor, no other thread
  -- acts between the test of the table's size and the growth of the table, who waits is a callback or
  -- a fiber in state RUNNING, on a thread with a scheduler, and epoll reports input and output only
  -- for what is registered when the event is handled; `epoll_ctl` may answer anything. Then exactly
  -- the registered events have a waiter, epoll has registered exactly these and was never called in
  -- error, the count of pending events is theirs, modulo 2 ^ 64, and no further call of this kind
  -- fails an assertion, follows a null pointer or leaves the table.
  pub Reached-Books-io_step :
      (m : IoManager F C)
      → Reached m
      → Books m × ((c : IoCall F C) → CanCome c m → (m' : IoManager F C) × (io_step c m ≡ some m'))
  unfolding Ends
  Reached-Books-io_step m r =
      (Reached-Books r, λ c h. let (m', e, b) = io_step-Ends c m (Reached-Books r) h in (m', e))
