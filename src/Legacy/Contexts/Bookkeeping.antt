-- ===== src/Legacy/Contexts/Bookkeeping.antt =====
-- fiber_lib/6hook/ioscheduler.cpp: what each call under a context's mutex keeps of the count of
-- pending events, of the places for waiters and of what epoll has registered.
use coroutine_library.Prelude.{
  ℕ, ◌+◌, ◌%◌, ◌<◌, ◌≡◌, ◌≢◌, refl, ap, ◌∙◌, Bool, true, false, Option, none, some, if◌then◌else◌,
  List, [], ◌∷◌, ◌==◌, is_some, ◌||◌, if_true, ==_iff, arith,
}
use coroutine_library.Prelude.Words.{size_mod}
use coroutine_library.Legacy.EventSets.{
  reads, writes, EventSet, is_any, EventContext, EpollOp, adds, modifies, deletes, EpollCall,
}
use coroutine_library.Legacy.Tasks.{ScheduleTask, has_work}
use coroutine_library.Legacy.Contexts.{Locked, no_context, task_of, trigger_event, waiter, is_free}

-- What epoll has registered for a descriptor after a call, as `epoll_ctl` documents it: adding what
-- is there and changing or deleting what is not there are errors.
abbrev pub epoll_step : EpollOp → EventSet → Option EventSet → Option (Option EventSet)
epoll_step adds e none = some (some e)
epoll_step adds e (some s) = none
epoll_step modifies e none = none
epoll_step modifies e (some s) = some (some e)
epoll_step deletes e none = none
epoll_step deletes e (some s) = some none

abbrev pub after_calls : EpollOp → EventSet → Option (Option EventSet) → Option (Option EventSet)
after_calls op e none = none
after_calls op e (some s) = epoll_step op e s

-- What the calls leave registered for descriptor `n`; `none` if one of them is an error.
abbrev pub interest : ℕ → List EpollCall → Option (Option EventSet)
interest n [] = some none
interest n (c ∷ cs) = if c.fd == n then after_calls c.op c.events (interest n cs) else interest n cs

-- What should be registered for a context with these events.
abbrev pub expected : EventSet → Option EventSet
expected s = if is_any s then some s else none

abbrev pub one_if : Bool → ℕ
one_if true = 1
one_if false = 0

abbrev pub size_of : EventSet → ℕ
size_of s = one_if s.reading + one_if s.writing

abbrev pub events : Bool → Bool → EventSet
events r w = record { reading = r; writing = w }

pub read_added :
    (w : Bool)
    → after_calls
        (if is_any (events false w) then modifies else adds)
        (events true w)
        (some (expected (events false w)))
      ≡ some (expected (events true w))
unfolding is_any
read_added true = refl
read_added false = refl

pub write_added :
    (r : Bool)
    → after_calls
        (if is_any (events r false) then modifies else adds)
        (events r true)
        (some (expected (events r false)))
      ≡ some (expected (events r true))
unfolding is_any
write_added true = refl
write_added false = refl

module _ {F C : Type 0} where
  -- A place holds a scheduler and a fiber or a callback where its direction is registered, and is
  -- free otherwise.
  abbrev pub PlaceFits : Bool → EventContext F C → Type 0
  PlaceFits true e = (is_some e.scheduler ≡ true) × (is_some e.fiber || is_some e.cb ≡ true)
  PlaceFits false e = (e.scheduler ≡ none) × (e.fiber ≡ none) × (e.cb ≡ none)

  -- The books of a context and of the manager agree.
  pub record Fits (l : Locked F C) : Type 0 where
    pub read : PlaceFits l.context.events.reading l.context.read
    pub write : PlaceFits l.context.events.writing l.context.write
    pub registered : interest l.context.fd l.epoll ≡ some (expected l.context.events)

  -- What a call changes of the books.
  pub record Accounts (l l' : Locked F C) : Type 0 where
    pub fits : Fits l'
    pub fd : l'.context.fd ≡ l.context.fd
    pub pending :
        (l'.pending + size_of l.context.events) % size_mod
        ≡ (l.pending + size_of l'.context.events) % size_mod
    pub elsewhere : (n : ℕ) → n ≢ l.context.fd → interest n l'.epoll ≡ interest n l.epoll
    pub small : l'.pending < size_mod

  -- A call comes to its end and settles the books.
  abbrev pub Settles {ℓ} : {A : Type ℓ} → Locked F C → Option (A × Locked F C) → Type 0
  Settles l none = ⊥
  Settles l (some (a, l')) = Accounts l l'

  pub same-Accounts : (l : Locked F C) → Fits l → l.pending < size_mod → Accounts l l
  same-Accounts l f small = record {
    fits = f;
    fd = refl;
    pending = refl;
    elsewhere = λ n h. refl;
    small = small;
  }

  abbrev pub locked :
      Bool
      → Bool
      → EventContext F C
      → EventContext F C
      → ℕ
      → ℕ
      → List (ℕ × ScheduleTask F C)
      → List EpollCall
      → Locked F C
  locked r w re we fd pending given epoll = record {
    context = record {
      read = re;
      write = we;
      fd = fd;
      events = record { reading = r; writing = w };
    };
    pending = pending;
    given = given;
    epoll = epoll;
  }

  -- A successful call whose operation fits, with places, count and tasks to match.
  pub call-Accounts :
      (op : EpollOp) (r w r' w' : Bool) (re we re' we' : EventContext F C) (fd pending pending' : ℕ)
      (given given' : List (ℕ × ScheduleTask F C)) (epoll : List EpollCall)
      → interest fd epoll ≡ some (expected (events r w))
      → PlaceFits r' re'
      → PlaceFits w' we'
      → after_calls op (events r' w') (some (expected (events r w)))
        ≡ some (expected (events r' w'))
      → (pending' + size_of (events r w)) % size_mod ≡ (pending + size_of (events r' w')) % size_mod
      → pending' < size_mod
      → Accounts (locked r w re we fd pending given epoll) (
          locked r' w' re' we' fd pending' given'
            (record { op = op; fd = fd; events = events r' w' } ∷ epoll))
  call-Accounts op r w r' w' re we re' we' fd pending pending' given given' epoll reg pr pw fit
        count small =
      record {
        fits = record { read = pr; write = pw; registered = here };
        fd = refl;
        pending = count;
        elsewhere = λ n h. ground arith;
        small = small;
      }
    where
      here :
          (if fd == fd
            then after_calls op (events r' w') (interest fd epoll)
            else interest fd epoll)
          ≡ some (expected (events r' w'))
      here = if_true _ _ ((==_iff fd fd).1 refl) ∙ ap (after_calls op (events r' w')) reg ∙ fit

  pub waiter-PlaceFits :
      (s : ℕ) (running : F) (cb : Option C) → PlaceFits true (waiter (some s) (some running) cb)
  unfolding waiter
  waiter-PlaceFits s running none = (refl, refl)
  waiter-PlaceFits s running (some c) = (refl, refl)

  pub is_free_lem : (e : EventContext F C) → PlaceFits false e → is_free e ≡ true
  unfolding is_free
  is_free_lem e h = ground arith

  PlaceFits-some : (e : EventContext F C) → PlaceFits true e → (s : ℕ) × (e.scheduler ≡ some s)
  PlaceFits-some e h = scheduler_of e.scheduler h.0
    where
      scheduler_of : (o : Option ℕ) → is_some o ≡ true → (s : ℕ) × (o ≡ some s)
      scheduler_of none k = cc
      scheduler_of (some s) k = (s, refl)

  task_of-has_work : (e : EventContext F C) → PlaceFits true e → has_work (task_of e) ≡ true
  unfolding task_of has_work
  task_of-has_work e h = ground arith

  -- A waiter that is there is handed to its scheduler.
  pub trigger_reads :
      (w : Bool) (re we : EventContext F C) (fd pending : ℕ) (given : List (ℕ × ScheduleTask F C))
      (epoll : List EpollCall)
      → PlaceFits true re
      → (s : ℕ) × (re.scheduler ≡ some s)
        × (trigger_event reads (locked true w re we fd pending given epoll)
            ≡ some (locked false w no_context we fd pending ((s, task_of re) ∷ given) epoll))
  unfolding trigger_event
  trigger_reads w re we fd pending given epoll h =
      let (s, e) = PlaceFits-some re h in (s, e, ground (arith, e, task_of-has_work re h))

  pub trigger_writes :
      (r : Bool) (re we : EventContext F C) (fd pending : ℕ) (given : List (ℕ × ScheduleTask F C))
      (epoll : List EpollCall)
      → PlaceFits true we
      → (s : ℕ) × (we.scheduler ≡ some s)
        × (trigger_event writes (locked r true re we fd pending given epoll)
            ≡ some (locked r false re no_context fd pending ((s, task_of we) ∷ given) epoll))
  unfolding trigger_event
  trigger_writes r re we fd pending given epoll h =
      let (s, e) = PlaceFits-some we h in (s, e, ground (arith, e, task_of-has_work we h))
