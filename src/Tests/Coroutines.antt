-- ===== src/Tests/Coroutines.antt =====
-- Coroutines and the scheduler on concrete inputs.
use coroutine_library.Prelude.{ℕ, inl, ◌≡◌, refl, true, false, none, some, List, [], ◌∷◌}
use coroutine_library.Coroutine.Nesting.{resume-resume-yield}
use coroutine_library.Prelude.{arith, ◌≢◌}
use coroutine_library.Prelude.Maps.{empty_map, put, nat_eq}
use coroutine_library.Coroutine.{
  World, running, cancelled, ready, waiting, finished, answered, switched, Action, resumes, cancels,
  yields, waits, returns, new_coroutine, resume, resume_returns, yield, wait, finish, cancel, step,
  run,
}
use coroutine_library.Coroutine.Control.{Sound, run-Sound}
use coroutine_library.Coroutine.Transfer.{IsResumable, Left, resume-leave}
use coroutine_library.Coroutine.Cancellation.{cancel-resume}

-- Two new coroutines, and the thread's own context runs.
abbrev at_rest : World
at_rest = record {
  coroutines = put (put empty_map 1 new_coroutine) 2 new_coroutine;
  current = none;
  owner = none;
  control = [];
}

at_rest-Sound : Sound at_rest
at_rest-Sound = record { head = inl refl; inside = tt; distinct = tt }

-- The first coroutine resumes the second, which waits; the first goes on and ends.
abbrev nested : List Action
nested = resumes 1 ∷ resumes 2 ∷ waits ∷ returns ∷ []

abbrev after_nested : World
after_nested = record {
  coroutines =
      put
        (put
          (put
            (put at_rest.coroutines 1
              (record { state = running; is_cancelled = false; suspended = false }))
            2 (record { state = running; is_cancelled = false; suspended = false }))
          2 (record { state = waiting; is_cancelled = false; suspended = true }))
        1 (record { state = finished; is_cancelled = false; suspended = false });
  current = none;
  owner = none;
  control = [];
}

nested-run : run nested at_rest ≡ some after_nested
unfolding run step resume yield wait finish new_coroutine
nested-run = refl

run-Sound_example : Sound after_nested
run-Sound_example = run-Sound nested at_rest after_nested at_rest-Sound nested-run

first-IsResumable : IsResumable 1 new_coroutine at_rest
unfolding new_coroutine
first-IsResumable = record { there = refl; going = refl; out = refl }

resume-leave_example :
    (inner : World) × (resume 1 at_rest ≡ switched inner)
    × (inner.current ≡ some 1)
    × ((u : World) × (yield inner ≡ switched u)
        × Left 1 ready true new_coroutine at_rest u
        × (resume_returns 1 u ≡ true))
    × ((u : World) × (wait inner ≡ switched u)
        × Left 1 waiting true new_coroutine at_rest u
        × (resume_returns 1 u ≡ true))
    × ((u : World) × (finish inner ≡ switched u)
        × Left 1 finished false new_coroutine at_rest u
        × (resume_returns 1 u ≡ false))
resume-leave_example = resume-leave 1 new_coroutine at_rest first-IsResumable

abbrev cancelled_world : World
cancelled_world = record at_rest {
  coroutines =
      put at_rest.coroutines 1
        (record { state = cancelled; is_cancelled = true; suspended = true });
}

cancels-run : run (cancels 1 ∷ yields ∷ []) at_rest ≡ some cancelled_world
unfolding run step cancel yield new_coroutine
cancels-run = refl

cancel-resume_example : resume 1 cancelled_world ≡ answered false cancelled_world
cancel-resume_example = cancel-resume 1 (yields ∷ []) at_rest cancelled_world cancels-run

second-IsResumable : IsResumable 2 new_coroutine at_rest
unfolding new_coroutine
second-IsResumable = record { there = refl; going = refl; out = refl }

abbrev first : ℕ
first = 1

one_two : first ≢ 2
one_two e = absurd (omega (arith, e))

resume-resume-yield_example :
    (u : World) × (run (resumes 1 ∷ resumes 2 ∷ yields ∷ []) at_rest ≡ some u)
    × (u.control ≡ 1 ∷ [])
    × (yield u ≡ answered false u)
    × (wait u ≡ answered false u)
resume-resume-yield_example =
    resume-resume-yield 1 2 new_coroutine new_coroutine at_rest one_two first-IsResumable
      second-IsResumable
