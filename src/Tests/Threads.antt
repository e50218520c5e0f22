-- ===== src/Tests/Threads.antt =====
-- The deque with several threads on concrete inputs.
use coroutine_library.Prelude.{
  ℕ, ◌+◌, ◌%◌, ◌<◌, ◌≡◌, refl, true, Option, none, some, List, [], ◌∷◌, arith,
}
use coroutine_library.Prelude.Words.{size_mod}
use coroutine_library.Deque.{capacity, pops, steals, taken, approximate_size, pop, empty_deque}
use coroutine_library.Deque.Runs.{spec_run}
use coroutine_library.Deque.Threads.{
  quiet, did, Act, begins_push, begins_pop, owner_goes, thief_goes, begin_push, begin_pop,
  owner_step, thief_step, act, acts,
}
use coroutine_library.Deque.Threads.Race.{lost_race, one_task, lost_race-pop}
use coroutine_library.Deque.Threads.Linear.{
  at_start, wins_all, act_wins, pushes_begun, calls_of, answers_of, acts-bounded_list,
}
use coroutine_library.Deque.Threads.OwnerPops.{wins}

-- Two pushes, two thieves at the older task, and a pop of the newer one.
abbrev contended : List (Act ℕ)
contended =
    begins_push 1
    ∷ owner_goes
    ∷ owner_goes
    ∷ begins_push 2
    ∷ owner_goes
    ∷ owner_goes
    ∷ thief_goes 0
    ∷ thief_goes 1
    ∷ thief_goes 0
    ∷ thief_goes 1
    ∷ begins_pop
    ∷ thief_goes 0
    ∷ thief_goes 1
    ∷ thief_goes 1
    ∷ thief_goes 0
    ∷ owner_goes
    ∷ owner_goes
    ∷ owner_goes
    ∷ []

contended-wins : wins_all contended at_start ≡ true
unfolding wins_all act_wins wins act begin_push begin_pop owner_step thief_step empty_deque
contended-wins = refl

contended-pushes : pushes_begun contended < size_mod
contended-pushes = omega arith

acts-bounded_list_example :
    (spec_run (calls_of (acts contended at_start).0) []).0 ≡ answers_of (acts contended at_start).0
acts-bounded_list_example = acts-bounded_list contended contended-wins contended-pushes

abbrev old_slots : ℕ → Option ℕ
old_slots i = some (i + 10)

lost_race-pop_example :
    ((acts lost_race (one_task old_slots 5)).0
      ≡ quiet
        ∷ quiet
        ∷ quiet
        ∷ quiet
        ∷ quiet
        ∷ did steals (taken (some 15))
        ∷ did pops (taken none)
        ∷ quiet
        ∷ [])
    × (approximate_size (acts lost_race (one_task old_slots 5)).1.deque ≡ 1)
    × ((pop (acts lost_race (one_task old_slots 5)).1.deque).0 ≡ old_slots ((5 + 1) % capacity))
lost_race-pop_example = lost_race-pop old_slots 5 15 refl (omega arith)
