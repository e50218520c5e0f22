-- ===== src/Legacy/IoManager/Books.antt =====
-- fiber_lib/6hook/ioscheduler.cpp: the books of an `IOManager`, which a call under a context's mutex
-- and the growth of the table keep.
use coroutine_library.Prelude.{
  ℕ, zero, suc, ◌+◌, ◌%◌, ◌≤◌, ◌<◌, ◌≡◌, ◌≢◌, refl, sym, subst, ap, ◌∙◌, Option, none, some, List,
  [], ◌∷◌, length, length-set, get_elem?, get_elem?-set_self, get_elem?-set_other, lt-get_elem?,
  get_elem?_lt, set, arith, ℕ_discrete,
}
use coroutine_library.Prelude.Words.{size_mod}
use coroutine_library.Legacy.EventSets.{FdContext, EpollCall, is_any}
use coroutine_library.Legacy.Contexts.{Locked, new_context}
use coroutine_library.Legacy.Contexts.Bookkeeping.{
  interest, expected, size_of, PlaceFits, Fits, Settles,
}
use coroutine_library.Legacy.IoManager.{
  IoManager, resize_from, context_resize, new_manager, lock, unlock, on_found, on_context,
}

module _ {F C : Type 0} where
  -- The registered events, counted.
  abbrev pub total : List (FdContext F C) → ℕ
  total [] = 0
  total (c ∷ cs) = size_of c.events + total cs

  -- A context in its place, and what epoll has for it.
  pub record Placed (n : ℕ) (calls : List EpollCall) (c : FdContext F C) : Type 0 where
    pub fd : c.fd ≡ n
    pub read : PlaceFits c.events.reading c.read
    pub write : PlaceFits c.events.writing c.write
    pub registered : interest n calls ≡ some (expected c.events)

  abbrev pub PlacedAt : ℕ → List EpollCall → Option (FdContext F C) → Type 0
  PlacedAt n calls none = interest n calls ≡ some none
  PlacedAt n calls (some c) = Placed n calls c

  -- The books of the manager: each context has a waiter exactly for the registered events, epoll has
  -- exactly these and was never called in error, and the count is that of the registered events.
  pub record Books (m : IoManager F C) : Type 0 where
    pub entries : (n : ℕ) → PlacedAt n m.epoll (get_elem? m.contexts n)
    pub counted : m.pending % size_mod ≡ total m.contexts % size_mod
    pub small : m.pending < size_mod
    pub wide : 32 ≤ length m.contexts

  total-set :
      (cs : List (FdContext F C)) (n : ℕ) (c c' : FdContext F C)
      → get_elem? cs n ≡ some c
      → total (set cs n c') + size_of c.events ≡ total cs + size_of c'.events
  total-set [] n c c' h = absurd (cc)
  total-set (x ∷ xs) zero c c' h = ground arith
  total-set (x ∷ xs) (suc n) c c' h = omega (arith, total-set xs n c c' h)

  PlacedAt-same :
      (k : ℕ) (calls calls' : List EpollCall) (o : Option (FdContext F C))
      → interest k calls' ≡ interest k calls
      → PlacedAt k calls o
      → PlacedAt k calls' o
  PlacedAt-same k calls calls' none e h = e ∙ h
  PlacedAt-same k calls calls' (some c) e h = record {
    fd = h.fd;
    read = h.read;
    write = h.write;
    registered = e ∙ h.registered;
  }

  -- A call on a context that settles its books settles those of the manager.
  unlock-Books :
      {A : Type 0} (n : ℕ) (m : IoManager F C) (c : FdContext F C)
      → get_elem? m.contexts n ≡ some c
      → Books m
      → (r : Option (A × Locked F C)) → Settles (lock c m) r
      → (a : A) × (m' : IoManager F C) × (unlock n m r ≡ some (a, m')) × Books m'
  unfolding unlock
  unlock-Books n m c at b none s = elim s [ ]
  unlock-Books n m c at b (some (a, l)) s = (
    a,
    m',
    refl,
    record {
      entries = entries;
      counted = omega (arith, s.pending, b.counted, total-set m.contexts n c l.context at);
      small = s.small;
      wide = omega (arith, length-set m.contexts n l.context, b.wide);
    },
  )
    where
      m' : IoManager F C
      m' = record {
        contexts = set m.contexts n l.context;
        pending = l.pending;
        given = l.given;
        epoll = l.epoll;
      }

      own : Placed n m.epoll c
      own = subst (PlacedAt n m.epoll) at (b.entries n)

      here : PlacedAt n l.epoll (get_elem? (set m.contexts n l.context) n)
      here =
          subst (PlacedAt n l.epoll)
            (sym (get_elem?-set_self m.contexts n l.context (lt-get_elem? m.contexts n c at)))
            (record {
              fd = s.fd ∙ own.fd;
              read = s.fits.read;
              write = s.fits.write;
              registered = ap (λ j. interest j l.epoll) (sym (s.fd ∙ own.fd)) ∙ s.fits.registered;
            })

      there : (k : ℕ) → k ≢ n → PlacedAt k l.epoll (get_elem? (set m.contexts n l.context) k)
      there k e =
          subst (PlacedAt k l.epoll) (sym (get_elem?-set_other m.contexts n k l.context e))
            (PlacedAt-same k _ _ _ (s.elsewhere k (λ q. e (q ∙ own.fd))) (b.entries k))

      entries : (k : ℕ) → PlacedAt k l.epoll (get_elem? (set m.contexts n l.context) k)
      entries k = elim (ℕ_discrete k n) [
        | yes e ↦
            subst (λ j. PlacedAt j l.epoll (get_elem? (set m.contexts n l.context) j)) (sym e) here
        | no e ↦ there k e
      ]

  -- What a context's entry says of its books, under the mutex.
  pub Placed-Fits :
      (n : ℕ) (m : IoManager F C) (c : FdContext F C) → Placed n m.epoll c → Fits (lock c m)
  Placed-Fits n m c e = record {
    read = e.read;
    write = e.write;
    registered = ap (λ j. interest j m.epoll) e.fd ∙ e.registered;
  }

  -- A call under the mutex of a context that is there.
  pub on_context-Books :
      {A : Type 0} (n : ℕ) (op : Locked F C → Option (A × Locked F C)) (m : IoManager F C)
      → Books m
      → n < length m.contexts
      → ((c : FdContext F C)
          → get_elem? m.contexts n ≡ some c
          → Fits (lock c m)
          → Settles (lock c m) (op (lock c m)))
      → (a : A) × (m' : IoManager F C) × (on_context n op m ≡ some (a, m')) × Books m'
  unfolding on_context
  on_context-Books n op m b inside settles =
      let (c, at) = get_elem?_lt m.contexts n inside in
      let own = subst (PlacedAt n m.epoll) at (b.entries n) in
      let (a, m', e, b') =
        unlock-Books n m c at b (op (lock c m)) (settles c at (Placed-Fits n m c own)) in
      (a, m', ap (on_found n op m) at ∙ e, b')

  -- The table grows by contexts with nothing registered.
  pub length-resize_from : (i n : ℕ) (cs : List (FdContext F C)) → length (resize_from i n cs) ≡ n
  unfolding resize_from
  length-resize_from i zero cs = refl
  length-resize_from i (suc n) [] = ap suc (length-resize_from (suc i) n [])
  length-resize_from i (suc n) (c ∷ cs) = ap suc (length-resize_from (suc i) n cs)

  total-resize_from :
      (i n : ℕ) (cs : List (FdContext F C)) → length cs ≤ n → total (resize_from i n cs) ≡ total cs
  unfolding resize_from new_context
  total-resize_from i zero [] h = refl
  total-resize_from i zero (c ∷ cs) h = absurd (omega arith)
  total-resize_from i (suc n) [] h = omega (arith, total-resize_from (suc i) n [])
  total-resize_from i (suc n) (c ∷ cs) h = omega (arith, total-resize_from (suc i) n cs)

  resize_from-PlacedAt :
      (i n k : ℕ) (cs : List (FdContext F C)) (calls : List EpollCall)
      → length cs ≤ n
      → PlacedAt (i + k) calls (get_elem? cs k)
      → PlacedAt (i + k) calls (get_elem? (resize_from i n cs) k)
  unfolding resize_from new_context is_any
  resize_from-PlacedAt i zero k [] calls h e = e
  resize_from-PlacedAt i zero k (c ∷ cs) calls h e = absurd (omega arith)
  resize_from-PlacedAt i (suc n) zero [] calls h e = record {
    fd = omega arith;
    read = (refl, refl, refl);
    write = (refl, refl, refl);
    registered = e;
  }
  resize_from-PlacedAt i (suc n) zero (c ∷ cs) calls h e = e
  resize_from-PlacedAt i (suc n) (suc k) [] calls h e =
      subst (λ j. PlacedAt j calls (get_elem? (resize_from (suc i) n []) k)) (omega arith)
        (resize_from-PlacedAt (suc i) n k [] calls (omega arith)
          (subst (λ j. PlacedAt j calls (get_elem? [] k)) (omega arith) e))
  resize_from-PlacedAt i (suc n) (suc k) (c ∷ cs) calls h e =
      subst (λ j. PlacedAt j calls (get_elem? (resize_from (suc i) n cs) k)) (omega arith)
        (resize_from-PlacedAt (suc i) n k cs calls (omega arith)
          (subst (λ j. PlacedAt j calls (get_elem? cs k)) (omega arith) e))

  pub context_resize-Books :
      (n : ℕ) (m : IoManager F C)
      → Books m
      → length m.contexts ≤ n
      → Books (context_resize n m) × (length (context_resize n m).contexts ≡ n)
  unfolding context_resize
  context_resize-Books n m b h = (
    record {
      entries = λ k.
          subst (λ j. PlacedAt j m.epoll (get_elem? (resize_from 0 n m.contexts) k)) (omega arith)
            (resize_from-PlacedAt 0 n k m.contexts m.epoll h (
              subst (λ j. PlacedAt j m.epoll (get_elem? m.contexts k)) (omega arith)
                (b.entries k)));
      counted = b.counted ∙ ap (λ t. t % size_mod) (sym (total-resize_from 0 n m.contexts h));
      small = b.small;
      wide = omega (arith, length-resize_from 0 n m.contexts, b.wide);
    },
    length-resize_from 0 n m.contexts,
  )

  pub new_manager-Books : Books new_manager
  unfolding new_manager
  new_manager-Books = record {
    entries = λ k.
        subst (λ j. PlacedAt j [] (get_elem? (resize_from 0 32 []) k)) (omega arith)
          (resize_from-PlacedAt 0 32 k [] [] (omega arith) refl);
    counted = ap (λ t. t % size_mod) (sym (total-resize_from 0 32 [] (omega arith)));
    small = omega arith;
    wide = omega (arith, length-resize_from 0 32 []);
  }
