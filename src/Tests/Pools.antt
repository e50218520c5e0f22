-- ===== src/Tests/Pools.antt =====
-- Concrete lists of tasks and threads of the earlier library.
use coroutine_library.Prelude.{
  ℕ, ◌<◌, ◌≡◌, ◌⊎◌, refl, Bool, true, false, none, some, List, [], ◌∷◌, ◌++◌, is_some,
}
use coroutine_library.Prelude.Int.{pos, minus_one}
use coroutine_library.Legacy.Tasks.{ScheduleTask, TaskList}
use coroutine_library.Legacy.Tasks.Order.{
  Move, submits, takes, finishes, stops, begin, moves, pinned, submitted, moves-fifo,
}
use coroutine_library.Legacy.Threads.{
  Meeting, ThreadAct, creates, runs, new_meeting, thread_step, signalled, returned, raised,
}
use coroutine_library.Legacy.Threads.Handshake.{Met, IsStep, steps_left, Met-returned, Met-progress}
use coroutine_library.Legacy.Threads.Handshake

abbrev for_any : ScheduleTask ℕ ℕ
for_any = record { fiber = some 1; cb = none; thread = minus_one }

abbrev for_seven : ScheduleTask ℕ ℕ
for_seven = record { fiber = none; cb = some 2; thread = pos 7 }

-- Thread 8 takes the task that is for any thread, thread 7 the one for it.
abbrev day : List (Move ℕ ℕ)
day =
    submits for_seven
    ∷ submits for_any
    ∷ takes (pos 8)
    ∷ takes (pos 7)
    ∷ finishes
    ∷ finishes
    ∷ stops
    ∷ []

moves-fifo_example :
    pinned (pos 7) ((moves day begin).gone ++ (moves day begin).list.tasks)
    ≡ pinned (pos 7) (submitted day)
moves-fifo_example = moves-fifo (pos 7) day

abbrev waiting_list : TaskList ℕ ℕ
waiting_list = record {
  tasks = for_seven ∷ for_any ∷ for_any ∷ [];
  active = 0;
  idle = 1;
  stopping = false;
  wakes = 0;
}

abbrev none_ended : ℕ → Bool
none_ended f = false

-- The constructor has waited first, and the new thread has woken it.
abbrev met : Meeting ℕ
met = record {
  creator = returned;
  runner = signalled;
  id = some 12;
  cb = none;
  local = some 4;
  count = 0;
  has_name = true;
  called = [];
}

met-Met : Met 4 met
unfolding thread_step new_meeting
met-Met =
    Handshake.step (creates true)
      (Handshake.step (runs 12)
        (Handshake.step (runs 12)
          (Handshake.step (runs 12)
            (Handshake.step (runs 12)
              (Handshake.step (creates true) (Handshake.step (creates true) Handshake.new refl)
                refl)
              refl)
            refl)
          refl)
        refl)
      refl

Met-returned_example :
    (is_some met.id ≡ true)
    × (met.has_name ≡ true)
    × (met.cb ≡ none)
    × ((met.called ≡ []) ⊎ (met.called ≡ 4 ∷ []))
Met-returned_example = Met-returned 4 met met-Met refl

Met-progress_example :
    (((met.creator ≡ returned) ⊎ (met.creator ≡ raised))
      ⊎ ((a : ThreadAct) × (s' : Meeting ℕ) × IsStep a × (thread_step a met ≡ some s')))
    × ((a : ThreadAct) (s' : Meeting ℕ)
        → IsStep a
        → thread_step a met ≡ some s'
        → steps_left s' < steps_left met)
    × (steps_left (new_meeting {C = ℕ} 4) ≡ 20)
Met-progress_example = Met-progress 4 met met-Met
