-- ===== src/Scheduler/Conserving.antt =====
-- src/scheduler.cpp: what `take_task` does to the tasks of all workers.
use mathlib.Core.Option.{some-injective}
use coroutine_library.Prelude.{
  ℕ, zero, suc, ◌+◌, ◌≤◌, ◌<◌, ◌≡◌, refl, sym, ap, subst, Bool, Option, none, some, if◌then◌else◌,
  List, [], ◌∷◌, ◌++◌, length, ◌==◌, get_elem?, set, arith, Bool-cases, inl, inr,
}
use coroutine_library.Prelude.Words.{size_mod}
use coroutine_library.Deque.{capacity, steal}
use coroutine_library.Deque.Sequential.{Holds, steal-Holds, steal_empty}
use coroutine_library.Scheduler.{RunnableTask, Worker, Scheduler}
use coroutine_library.Scheduler.Take.{
  fetch, steal_first, take_task, take_at, take_fetched, take_stolen,
}
use coroutine_library.Scheduler.Fetch.{Contents, spec_fetch, spec_last, take_all, fetch-spec_fetch}
use coroutine_library.Deque.Runs.{unsnoc, unsnoc-snoc, snoc-cases}

-- The tasks in a worker's deque and in its ingress queue, oldest first.
pub record Stored (T : Type 0) : Type 0 where
  pub deque : List (RunnableTask T)
  pub pending : List (RunnableTask T)

module _ {D T : Type 0} where
  -- Which tasks each worker has.
  abbrev pub AllContents : List (Worker D T) → List (Stored T) → Type 0
  AllContents [] [] = Unit {0}
  AllContents [] (c ∷ cs) = ⊥
  AllContents (w ∷ ws) [] = ⊥
  AllContents (w ∷ ws) (c ∷ cs) = Contents w c.deque c.pending × AllContents ws cs

module _ {T : Type 0} (f : RunnableTask T → Bool) where
  -- The tasks with a property: in a list, answered, and at all workers.
  abbrev pub count_in : List (RunnableTask T) → ℕ
  count_in [] = 0
  count_in (t ∷ ts) = if f t then suc (count_in ts) else count_in ts

  abbrev pub count_answered : Option (RunnableTask T) → ℕ
  count_answered none = 0
  count_answered (some t) = count_in (t ∷ [])

  abbrev pub count_stored : List (Stored T) → ℕ
  count_stored [] = 0
  count_stored (c ∷ cs) = count_in c.deque + count_in c.pending + count_stored cs

module _ {T : Type 0} where
  count_in-append :
      (f : RunnableTask T → Bool) (xs ys : List (RunnableTask T))
      → count_in f (xs ++ ys) ≡ count_in f xs + count_in f ys
  count_in-append f [] ys = omega arith
  count_in-append f (x ∷ xs) ys = ground (arith, count_in-append f xs ys)

  last-kept :
      (f : RunnableTask T → Bool) (ys : List (RunnableTask T))
      → (let r = spec_last (unsnoc ys) in count_in f ys ≡ count_answered f r.0 + count_in f r.1)
  unfolding spec_last
  last-kept f ys = elim (snoc-cases ys) [
    | inl e ↦ rw e refl
    | inr (zs, z, e) ↦ rw (e, unsnoc-snoc zs z) (ground (arith, count_in-append f zs (z ∷ [])))
  ]

  spec_fetch-kept :
      (f : RunnableTask T → Bool) (xs ys : List (RunnableTask T))
      → length ys ≤ capacity
      → (let r = spec_fetch (unsnoc xs) ys in
          count_in f xs + count_in f ys ≡ count_answered f r.0 + count_in f r.1 + count_in f r.2)
  unfolding spec_fetch spec_last
  spec_fetch-kept f xs ys h = elim (snoc-cases xs) [
    | inl e ↦ rw (e, take_all capacity ys h) (omega (arith, last-kept f ys))
    | inr (zs, z, e) ↦ rw (e, unsnoc-snoc zs z) (ground (arith, count_in-append f zs (z ∷ [])))
  ]

module _ {D T : Type 0} where
  -- After a theft, or none: the tasks that are left, which with the answer are those before.
  pub record Conserves (answer : Option (RunnableTask T)) (ws : List (Worker D T))
      (cs : List (Stored T)) : Type 0 where
    pub after : List (Stored T)
    pub contents : AllContents ws after
    pub kept :
        (f : RunnableTask T → Bool)
        → count_stored f cs ≡ count_answered f answer + count_stored f after

  passed-Conserves :
      (o : Option (RunnableTask T)) (w : Worker D T) (ws : List (Worker D T)) (c : Stored T)
      → (cs : List (Stored T)) → Contents w c.deque c.pending
      → Conserves o ws cs
      → Conserves o (w ∷ ws) (c ∷ cs)
  passed-Conserves o w ws c cs h l = record {
    after = c ∷ l.after;
    contents = (h, l.contents);
    kept = λ f. omega (arith, l.kept f);
  }

  -- The theft from one worker, with what the rest of the loop does.
  stolen-Conserves :
      (w : Worker D T) (ws ws' : List (Worker D T)) (xs ys : List (RunnableTask T))
      → (cs : List (Stored T)) (o : Option (RunnableTask T)) → Contents w xs ys
      → AllContents ws cs
      → Conserves o ws' cs
      → (let r = steal w.local in
          let found : Option (RunnableTask T) × List (Worker D T) = elim r.0 [
            | none ↦ (o, record w { local = r.1 } ∷ ws')
            | some task ↦ (some task, record w { local = r.1 } ∷ ws)
          ] in
          Conserves found.0 found.1 (record { deque = xs; pending = ys } ∷ cs))
  stolen-Conserves w ws ws' [] ys cs o h hs l =
      let same = steal_empty w.local h.local in
      let kept : Holds (steal w.local).1 [] = subst (λ r. Holds r.1 []) (sym same) h.local in
      rw (ap (λ r. r.0) same) (
        passed-Conserves o (record w { local = (steal w.local).1 }) ws'
          (record { deque = []; pending = ys }) cs (record { local = kept; pending = h.pending }) l)
  stolen-Conserves w ws ws' (x ∷ xs) ys cs o h hs l =
      let (got, rest) = steal-Holds w.local x xs h.local in
      rw got (record {
        after = record { deque = xs; pending = ys } ∷ cs;
        contents = (record { local = rest; pending = h.pending }, hs);
        kept = λ f. ground arith;
      })

  steal_first-Conserves :
      (id : ℕ) (ws : List (Worker D T)) (cs : List (Stored T))
      → AllContents ws cs
      → Conserves (steal_first id ws).0 (steal_first id ws).1 cs
  unfolding steal_first
  steal_first-Conserves id [] [] h = record { after = []; contents = tt; kept = λ f. omega arith }
  steal_first-Conserves id [] (c ∷ cs) h = absurd h
  steal_first-Conserves id (w ∷ ws) [] h = absurd h
  steal_first-Conserves id (w ∷ ws) (c ∷ cs) h =
      let rest = steal_first-Conserves id ws cs h.1 in
      elim (Bool-cases (w.id == id)) [
        | inl e ↦ rw e (passed-Conserves _ w _ c cs h.0 rest)
        | inr e ↦ rw e (stolen-Conserves w ws _ c.deque c.pending cs _ h.0 h.1 rest)
      ]

  -- The place of one worker among all.
  record Placed (ws : List (Worker D T)) (cs : List (Stored T)) (i : ℕ) (w : Worker D T)
      (c : Stored T) : Type 0 where
    here : Contents w c.deque c.pending
    put :
        (w' : Worker D T) (c' : Stored T)
        → Contents w' c'.deque c'.pending
        → AllContents (set ws i w') (set cs i c')
    counted :
        (f : RunnableTask T → Bool) (c' : Stored T)
        → count_stored f (set cs i c') + (count_in f c.deque + count_in f c.pending)
          ≡ count_stored f cs + (count_in f c'.deque + count_in f c'.pending)

  placed :
      (ws : List (Worker D T)) (cs : List (Stored T)) (i : ℕ) (w : Worker D T) (c : Stored T)
      → AllContents ws cs
      → get_elem? ws i ≡ some w
      → get_elem? cs i ≡ some c
      → Placed ws cs i w c
  placed [] cs i w c h e k = absurd (cc)
  placed (v ∷ ws) [] i w c h e k = absurd h
  placed (v ∷ ws) (b ∷ cs) zero w c h e k =
      let same : v ≡ w = some-injective v w e in
      let same' : b ≡ c = some-injective b c k in
      record {
        here = rw (← same, ← same') h.0;
        put = λ w' c' p. (p, h.1);
        counted = λ f c'. rw (← same') (omega arith);
      }
  placed (v ∷ ws) (b ∷ cs) (suc i) w c h e k =
      let p = placed ws cs i w c h.1 e k in
      record {
        here = p.here;
        put = λ w' c' q. (h.0, p.put w' c' q);
        counted = λ f c'. omega (arith, p.counted f c');
      }

  take_stolen-Conserves :
      (s : Scheduler D T) (cs : List (Stored T)) (r : Option (RunnableTask T) × List (Worker D T))
      → Conserves r.0 r.1 cs
      → Conserves (take_stolen s r).0 (take_stolen s r).1.workers cs
  unfolding take_stolen
  take_stolen-Conserves s cs (none, ws) l = l
  take_stolen-Conserves s cs (some task, ws) l = l

  fetched-Conserves :
      (i : ℕ) (s : Scheduler D T) (cs : List (Stored T)) (c' : Stored T)
      → (r : Option (RunnableTask T) × Worker D T) → AllContents (set s.workers i r.1) (set cs i c')
      → ((f : RunnableTask T → Bool)
          → count_stored f cs ≡ count_answered f r.0 + count_stored f (set cs i c'))
      → Conserves (take_fetched i s r).0 (take_fetched i s r).1.workers cs
  unfolding take_fetched
  fetched-Conserves i s cs c' (some task, w) h k = record {
    after = set cs i c';
    contents = h;
    kept = k;
  }
  fetched-Conserves i s cs c' (none, w) h k =
      let ws = set s.workers i w in
      let l = steal_first-Conserves w.id ws (set cs i c') h in
      let l' : Conserves (steal_first w.id ws).0 (steal_first w.id ws).1 cs = record {
        after = l.after;
        contents = l.contents;
        kept = λ f. omega (arith, k f, l.kept f);
      } in
      take_stolen-Conserves (record s { workers = ws }) cs (steal_first w.id ws) l'

  -- A worker looks for its next task, where the deques hold the tasks that `cs` says and the ingress
  -- queues hand out those that it says; no more than 65536 tasks are pending at the worker, and its
  -- index does not wrap. Whether the task comes from its deque, from its ingress queue or from
  -- another worker, and also if there is none: there are tasks that the queues of all workers hold
  -- afterwards, and of each kind of tasks there are as many as before, with the one answered.
  pub take_task-Conserves :
      (i : ℕ) (s : Scheduler D T) (cs : List (Stored T)) (w : Worker D T) (c : Stored T)
      → AllContents s.workers cs
      → get_elem? s.workers i ≡ some w
      → get_elem? cs i ≡ some c
      → length c.pending ≤ capacity
      → w.local.bottom + length c.pending < size_mod
      → Conserves (take_task i s).0 (take_task i s).1.workers cs
  unfolding take_task take_at
  take_task-Conserves i s cs w c h e k few small =
      let p = placed s.workers cs i w c h e k in
      let r = spec_fetch (unsnoc c.deque) c.pending in
      let (got, rest) = fetch-spec_fetch w c.deque c.pending p.here small in
      let c' : Stored T = record { deque = r.1; pending = r.2 } in
      rw e (
        fetched-Conserves i s cs c' (fetch w) (p.put (fetch w).1 c' rest)
          (λ f. rw got (omega (arith, p.counted f c', spec_fetch-kept f c.deque c.pending few))))
