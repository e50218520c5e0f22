-- ===== src/Legacy/Threads/Handshake.antt =====
-- fiber_lib/6hook/thread.cpp: what holds when the constructor of `Thread` has returned, and that it
-- does return.
use coroutine_library.Prelude.{
  ℕ, ◌+◌, ◌*◌, ◌<◌, ◌≡◌, ◌⊎◌, inl, inr, refl, subst, Bool, true, Option, none, some, is_some, List,
  [], ◌∷◌, arith,
}
use coroutine_library.Legacy.Threads.{
  CreatorAt, creating, testing, sleeping, returned, raised, RunnerAt, absent, begun, named,
  identified, swapped, signalled, ended, Meeting, ThreadAct, creates, runs, wakes, new_meeting,
  thread_step,
}

-- An upper bound of the steps that are left.
abbrev pub runner_left : RunnerAt → ℕ
runner_left absent = 6
runner_left begun = 5
runner_left named = 4
runner_left identified = 3
runner_left swapped = 2
runner_left signalled = 1
runner_left ended = 0

abbrev pub creator_left : CreatorAt → ℕ
creator_left creating = 2
creator_left testing = 2
creator_left sleeping = 1
creator_left returned = 0
creator_left raised = 0

abbrev pub IsStep : ThreadAct → Type 0
IsStep wakes = ⊥
IsStep _ = Unit {0}

abbrev pub steps_left : {C : Type 0} → Meeting C → ℕ
steps_left s = 3 * runner_left s.runner + creator_left s.creator

module _ {C : Type 0} (cb : C) where
  -- What holds at each place of the new thread.
  abbrev AtRunner : RunnerAt → Meeting C → Type 0
  AtRunner absent s =
      (s.cb ≡ some cb)
      × (s.count ≡ 0)
      × (s.called ≡ [])
      × ((s.creator ≡ creating) ⊎ (s.creator ≡ raised))
  AtRunner begun s =
      (s.cb ≡ some cb)
      × (s.count ≡ 0)
      × (s.called ≡ [])
      × ((s.creator ≡ testing) ⊎ (s.creator ≡ sleeping))
  AtRunner named s =
      (s.cb ≡ some cb)
      × (s.count ≡ 0)
      × (s.called ≡ [])
      × (s.has_name ≡ true)
      × ((s.creator ≡ testing) ⊎ (s.creator ≡ sleeping))
  AtRunner identified s =
      (s.cb ≡ some cb)
      × (s.count ≡ 0)
      × (s.called ≡ [])
      × (s.has_name ≡ true)
      × (is_some s.id ≡ true)
      × ((s.creator ≡ testing) ⊎ (s.creator ≡ sleeping))
  AtRunner swapped s =
      (s.cb ≡ none)
      × (s.local ≡ some cb)
      × (s.count ≡ 0)
      × (s.called ≡ [])
      × (s.has_name ≡ true)
      × (is_some s.id ≡ true)
      × ((s.creator ≡ testing) ⊎ (s.creator ≡ sleeping))
  AtRunner signalled s =
      (s.cb ≡ none)
      × (s.local ≡ some cb)
      × (s.called ≡ [])
      × (s.has_name ≡ true)
      × (is_some s.id ≡ true)
      × (((s.creator ≡ testing) × (s.count ≡ 1)) ⊎ ((s.creator ≡ returned) × (s.count ≡ 0)))
  AtRunner ended s =
      (s.cb ≡ none)
      × (s.called ≡ cb ∷ [])
      × (s.has_name ≡ true)
      × (is_some s.id ≡ true)
      × (((s.creator ≡ testing) × (s.count ≡ 1)) ⊎ ((s.creator ≡ returned) × (s.count ≡ 0)))

  -- The states that steps lead to from a new thread.
  pub data Met : Meeting C → Type 0 where
    new : Met (new_meeting cb)
    step : {s s' : Meeting C} (a : ThreadAct) → Met s → thread_step a s ≡ some s' → Met s'

  abbrev meeting :
      RunnerAt → CreatorAt → Option ℕ → Option C → Option C → ℕ → Bool → List C → Meeting C
  meeting r c id cb' local count has_name called = record {
    creator = c;
    runner = r;
    id = id;
    cb = cb';
    local = local;
    count = count;
    has_name = has_name;
    called = called;
  }

  abbrev Keeps : Option (Meeting C) → Type 0
  Keeps none = Unit {0}
  Keeps (some s) = AtRunner s.runner s

  step-Keeps :
      (a : ThreadAct) (r : RunnerAt) (c : CreatorAt) (id : Option ℕ) (cb' local : Option C)
      (count : ℕ) (has_name : Bool) (called : List C)
      → AtRunner r (meeting r c id cb' local count has_name called)
      → Keeps (thread_step a (meeting r c id cb' local count has_name called))
  unfolding thread_step
  step-Keeps (creates true) absent creating id cb' local count has_name called h = ground arith
  step-Keeps _ _ _ id cb' local count has_name called h = ground arith

  Met-AtRunner : {s : Meeting C} → Met s → AtRunner s.runner s
  unfolding new_meeting
  Met-AtRunner new = (refl, refl, refl, inl refl)
  Met-AtRunner (step {s} {s'} a m e) =
      let k =
        step-Keeps a s.runner s.creator s.id s.cb s.local s.count s.has_name s.called
          (Met-AtRunner m) in
      subst Keeps e k

  -- In every interleaving of the constructor and the new thread, with any returns of `cv.wait`
  -- without a signal: when the constructor has returned, the new thread has its number and its name,
  -- the object no longer holds the callback, and the callback has been called once or not yet.
  pub Met-returned :
      (s : Meeting C)
      → Met s
      → s.creator ≡ returned
      → (is_some s.id ≡ true)
        × (s.has_name ≡ true)
        × (s.cb ≡ none)
        × ((s.called ≡ []) ⊎ (s.called ≡ cb ∷ []))
  Met-returned s m e = by_place s.runner (Met-AtRunner m)
    where
      by_place :
          (r : RunnerAt)
          → AtRunner r s
          → (is_some s.id ≡ true)
            × (s.has_name ≡ true)
            × (s.cb ≡ none)
            × ((s.called ≡ []) ⊎ (s.called ≡ cb ∷ []))
      by_place absent h = ground (arith, e)
      by_place begun h = ground (arith, e)
      by_place named h = ground (arith, e)
      by_place identified h = ground (arith, e)
      by_place swapped h = ground (arith, e)
      by_place signalled h = (h.4, h.3, h.0, inl h.2)
      by_place ended h = (h.3, h.2, h.0, inr h.1)

  abbrev Falls : ℕ → Option (Meeting C) → Type 0
  Falls n none = Unit {0}
  Falls n (some s) = steps_left s < n

  step-Falls :
      (a : ThreadAct) (r : RunnerAt) (c : CreatorAt) (id : Option ℕ) (cb' local : Option C)
      (count : ℕ) (has_name : Bool) (called : List C)
      → IsStep a
      → AtRunner r (meeting r c id cb' local count has_name called)
      → Falls
          (steps_left (meeting r c id cb' local count has_name called))
          (thread_step a (meeting r c id cb' local count has_name called))
  unfolding thread_step
  step-Falls (creates true) absent creating id cb' local count has_name called i h = ground arith
  step-Falls _ _ _ id cb' local count has_name called i h = ground arith

  CanGoOn : Meeting C → Type 0
  CanGoOn s =
      ((s.creator ≡ returned) ⊎ (s.creator ≡ raised))
      ⊎ ((a : ThreadAct) × (s' : Meeting C) × IsStep a × (thread_step a s ≡ some s'))

  meeting-CanGoOn :
      (r : RunnerAt) (c : CreatorAt) (id : Option ℕ) (cb' local : Option C) (count : ℕ)
      (has_name : Bool) (called : List C)
      → AtRunner r (meeting r c id cb' local count has_name called)
      → CanGoOn (meeting r c id cb' local count has_name called)
  unfolding CanGoOn thread_step
  meeting-CanGoOn r returned id cb' local count has_name called h = inl (inl refl)
  meeting-CanGoOn r raised id cb' local count has_name called h = inl (inr refl)
  meeting-CanGoOn r creating id cb' local count has_name called h = inr (creates true, _, tt, refl)
  meeting-CanGoOn r testing id cb' local count has_name called h = inr (creates true, _, tt, refl)
  meeting-CanGoOn begun sleeping id cb' local count has_name called h = inr (runs 0, _, tt, refl)
  meeting-CanGoOn named sleeping id cb' local count has_name called h = inr (runs 0, _, tt, refl)
  meeting-CanGoOn identified sleeping id cb' local count has_name called h =
      inr (runs 0, _, tt, refl)
  meeting-CanGoOn swapped sleeping id cb' local count has_name called h = inr (runs 0, _, tt, refl)
  meeting-CanGoOn absent sleeping id cb' local count has_name called h = absurd (ground arith)
  meeting-CanGoOn signalled sleeping id cb' local count has_name called h = absurd (ground arith)
  meeting-CanGoOn ended sleeping id cb' local count has_name called h = absurd (ground arith)

  -- In every interleaving, as long as the constructor has neither returned nor thrown, the creator
  -- or the new thread can make a step, and each step that is not a return of `cv.wait` without a
  -- signal lowers a count that begins at 20: the constructor is not left waiting.
  pub Met-progress :
      (s : Meeting C)
      → Met s
      → (((s.creator ≡ returned) ⊎ (s.creator ≡ raised))
          ⊎ ((a : ThreadAct) × (s' : Meeting C) × IsStep a × (thread_step a s ≡ some s')))
        × ((a : ThreadAct) (s' : Meeting C)
            → IsStep a
            → thread_step a s ≡ some s'
            → steps_left s' < steps_left s)
        × (steps_left (new_meeting cb) ≡ 20)
  unfolding CanGoOn new_meeting
  Met-progress s m = (
    meeting-CanGoOn s.runner s.creator s.id s.cb s.local s.count s.has_name s.called
        (Met-AtRunner m),
    λ a s' i e. subst (Falls (steps_left s)) e (
        step-Falls a s.runner s.creator s.id s.cb s.local s.count s.has_name s.called i
          (Met-AtRunner m)),
    refl,
  )
