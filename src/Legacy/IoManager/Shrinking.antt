-- ===== src/Legacy/IoManager/Shrinking.antt =====
-- fiber_lib/6hook/ioscheduler.cpp: `addEvent` that grows the table for one descriptor while another
-- thread has already grown it further.
use coroutine_library.Prelude.{
  ℕ, zero, suc, ◌*◌, ◌/◌, ◌≤◌, ◌<◌, ◌≡◌, refl, subst, ap, ◌∙◌, Bool, false, Option, none, some,
  List, [], ◌∷◌, length, length-set, get_elem?, get_elem?_lt, if_false, ltb, arith,
}
use coroutine_library.Prelude.Int.{ℤ, pos}
use coroutine_library.Legacy.EventSets.{Direction, FdContext}
use coroutine_library.Legacy.Contexts.{Locked, add_event}
use coroutine_library.Legacy.Contexts.Bookkeeping.{Settles}
use coroutine_library.Legacy.Contexts.Settling.{add_event-locked}
use coroutine_library.Legacy.IoManager.{
  IoManager, resize_from, context_resize, lock, unlock, on_found, on_context, add_event_with,
  if_known, manager_del,
}
use coroutine_library.Legacy.IoManager.Books.{PlacedAt, Books, Placed-Fits, length-resize_from}

module _ {F C : Type 0} where
  resize_from-get_elem? :
      (i n k : ℕ) (cs : List (FdContext F C))
      → k < n
      → k < length cs
      → get_elem? (resize_from i n cs) k ≡ get_elem? cs k
  unfolding resize_from
  resize_from-get_elem? i zero k cs h inside = absurd (omega arith)
  resize_from-get_elem? i (suc n) k [] h inside = absurd (omega arith)
  resize_from-get_elem? i (suc n) zero (c ∷ cs) h inside = refl
  resize_from-get_elem? i (suc n) (suc k) (c ∷ cs) h inside =
      resize_from-get_elem? (suc i) n k cs (omega arith) (omega arith)

  -- A call that settles leaves as many contexts as there were.
  unlock-length :
      {A : Type 0} (n : ℕ) (m : IoManager F C) (c : FdContext F C) (r : Option (A × Locked F C))
      → Settles (lock c m) r
      → (a : A) × (m' : IoManager F C) × (unlock n m r ≡ some (a, m'))
        × (length m'.contexts ≡ length m.contexts)
  unfolding unlock
  unlock-length n m c none s = elim s [ ]
  unlock-length n m c (some (a, l)) s = (a, _, refl, length-set m.contexts n l.context)

  -- A running fiber adds an event for descriptor `a`, which the table does not hold. Before it has the
  -- write lock other threads leave the manager `busy`, whose books are right and whose table holds
  -- descriptor `b`, at or above `a * 3 / 2`. The call comes to its end, but the table that it leaves
  -- has `a * 3 / 2` entries: whatever was registered for `b`, `delEvent` then answers false for it and
  -- changes nothing.
  pub add_event_with-shrinks :
      (a b : ℕ) (d : Direction) (s : ℕ) (running : F) (cb : Option C) (ok : Bool)
      (m busy : IoManager F C)
      → 2 ≤ a
      → length m.contexts ≤ a
      → a * 3 / 2 ≤ b
      → b < length busy.contexts
      → Books busy
      → (r : ℤ) × (m' : IoManager F C) × (add_event_with
            (λ k. busy)
            (pos a)
            d
            (some s)
            (some running)
            cb
            ok
            m
          ≡ some (r, m'))
        × (length m'.contexts ≡ a * 3 / 2)
        × ((e : Direction) (ok' : Bool) → manager_del (pos b) e ok' m' ≡ some (false, m'))
  unfolding add_event_with manager_del on_context context_resize if_known
  add_event_with-shrinks a b d s running cb ok m busy two out far inside books =
      let (c, at) = get_elem?_lt busy.contexts a (omega (arith, far, inside, two)) in
      let f = Placed-Fits a busy c (subst (PlacedAt a busy.epoll) at (books.entries a)) in
      let (r, m', e, long) =
        unlock-length a (context_resize (a * 3 / 2) busy) c
          (add_event d (some s) (some running) cb ok (lock c busy))
          (add_event-locked d s running cb ok c.events.reading c.events.writing c.read c.write c.fd
            busy.pending busy.given busy.epoll f books.small) in
      let same =
        resize_from-get_elem? 0 (a * 3 / 2) a busy.contexts (omega arith) (omega arith) ∙ at in
      let short = long ∙ length-resize_from 0 (a * 3 / 2) busy.contexts in
      (
        r,
        m',
        if_false {b = ltb a (length m.contexts)} _ _ (ground arith)
            ∙ ap
                (on_found a (add_event d (some s) (some running) cb ok)
                  (context_resize (a * 3 / 2) busy))
                same
            ∙ e,
        short,
        λ e ok'. if_false {b = ltb b (length m'.contexts)} _ _ (ground (arith, short)),
      )
