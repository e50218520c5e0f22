-- ===== src/Coroutine/Nesting.antt =====
-- src/coroutine.cpp: a resume inside a coroutine, and a cancellation of the coroutine that runs.
use coroutine_library.Prelude.{
  ℕ, ◌≡◌, ◌≢◌, refl, ap, ◌∙◌, true, false, none, some, [], ◌∷◌, ◌==◌, ==_iff, arith,
}
use coroutine_library.Prelude.Maps.{Map, put, nat_eq}
use coroutine_library.Coroutine.{
  CoroutineState, ready, waiting, cancelled, Coroutine, World, answered, resumes, cancels, yields,
  resume_found, leave_current, leave_found, cancel_found, scheduled_found, resubmit_found, resume,
  yield, wait, cancel, step, after, run, run_next, scheduled, resubmits_coroutine,
}
use coroutine_library.Coroutine.Transfer.{IsResumable, resume_eq, leave-Left, inside, inside_self}

put_self : (m : Map ℕ Coroutine) (c : ℕ) (co : Coroutine) → put m c co c ≡ some co
put_self m c co = rw ((==_iff c c).1 refl) refl

inside-IsResumable :
    (c d : ℕ) (co de : Coroutine) (w : World)
    → c ≢ d
    → IsResumable d de w
    → IsResumable d de (inside c co w)
inside-IsResumable c d co de w n r = record {
  there = (let b : (c == d) ≡ false = ground arith in rw b r.there);
  going = r.going;
  out = r.out;
}

leave_none :
    (s : CoroutineState) (u : World)
    → u.current ≡ none
    → leave_current s u u.current ≡ answered false u
unfolding leave_current
leave_none s u e = rw e refl

-- A coroutine resumes another one, which yields. The outer coroutine goes on, but no longer counts
-- as the current one: both `yield` and `wait` answer false and do not give control back.
pub resume-resume-yield :
    (c d : ℕ) (co de : Coroutine) (w : World)
    → c ≢ d
    → IsResumable c co w
    → IsResumable d de w
    → (u : World) × (run (resumes c ∷ resumes d ∷ yields ∷ []) w ≡ some u)
      × (u.control ≡ c ∷ w.control)
      × (yield u ≡ answered false u)
      × (wait u ≡ answered false u)
unfolding run step yield wait after
resume-resume-yield c d co de w n r q =
    let v : World = inside c co w in
    let (u, e, l) = leave-Left d de v ready in
    (
      u,
      ap (λ o. run_next (run (resumes d ∷ yields ∷ [])) (after o)) (resume_eq c co w r)
          ∙ ap (λ o. run_next (run (yields ∷ [])) (after o))
              (resume_eq d de v (inside-IsResumable c d co de w n q))
          ∙ ap (λ o. run_next (run []) (after o)) e,
      l.back,
      leave_none ready u l.nobody,
      leave_none waiting u l.nobody,
    )

-- A coroutine that is cancelled while it runs and then yields is left ready and cancelled: the task
-- of the scheduler does not resume it, changes nothing of it, and submits it again.
pub cancel-yield-resubmits :
    (c : ℕ) (co : Coroutine) (w : World)
    → IsResumable c co w
    → (u : World) × (run (resumes c ∷ cancels c ∷ yields ∷ []) w ≡ some u)
      × (scheduled c u ≡ answered false (record u { owner = some c }))
      × (resubmits_coroutine c (record u { owner = some c }) ≡ (true, record u { owner = none }))
unfolding run step after yield cancel leave_current scheduled resubmits_coroutine resume_found
    resume
cancel-yield-resubmits c co w r =
    let v : World = inside c co w in
    let x : Coroutine = record { state = cancelled; is_cancelled = true; suspended = false } in
    let v' : World = record v { coroutines = put v.coroutines c x } in
    let y : Coroutine = record { state = ready; is_cancelled = true; suspended = true } in
    let u : World = record v' {
      coroutines = put v'.coroutines c y;
      current = none;
      control = w.control;
    } in
    let e : u.coroutines c ≡ some y = put_self v'.coroutines c y in
    (
      u,
      ap (λ o. run_next (run (cancels c ∷ yields ∷ [])) (after o)) (resume_eq c co w r)
          ∙ ap (λ o. run_next (run (yields ∷ [])) (after (cancel_found c v o))) (inside_self c co w)
          ∙ ap (λ o. run_next (run []) (after (leave_found c ready v' o)))
              (put_self v.coroutines c x),
      ap (scheduled_found c u) e ∙ ap (resume_found c (record u { owner = some c })) e,
      ap (λ o. (resubmit_found o, record u { owner = none })) e,
    )
