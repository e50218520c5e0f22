-- ===== src/Coroutine/Cancellation.antt =====
-- src/coroutine.cpp: coroutines that have been cancelled.
use mathlib.Core.Option.{some-injective}
use coroutine_library.Prelude.{
  ℕ, ◌≡◌, inl, inr, refl, subst, true, false, Option, none, some, List, [], ◌∷◌, ◌||◌, ◌==◌, ==_iff,
  Bool-cases, Option-cases,
}
use coroutine_library.Prelude.Maps.{Map, put, nat_eq}
use coroutine_library.Coroutine.{
  CoroutineState, ready, waiting, Coroutine, World, Outcome, answered, switched, corrupt, Action,
  resumes, cancels, yields, waits, returns, is_finished, resume_found, leave_current, leave_found,
  finish_found, finish_first, cancel_found, resume, yield, wait, finish, cancel, step, after,
  run_next, run,
}

abbrev pub IsCancelled : Option Coroutine → Type 0
IsCancelled none = ⊥
IsCancelled (some co) = co.is_cancelled ≡ true

abbrev CancelledAfter : ℕ → Outcome → Type 0
CancelledAfter c (answered b w) = IsCancelled (w.coroutines c)
CancelledAfter c (switched w) = IsCancelled (w.coroutines c)
CancelledAfter c corrupt = Unit {0}

-- A write that keeps the flag of what it replaces, or sets it.
put-IsCancelled :
    (m : Map ℕ Coroutine) (c d : ℕ) (old co : Coroutine)
    → m d ≡ some old
    → (old.is_cancelled ≡ true → co.is_cancelled ≡ true)
    → IsCancelled (m c)
    → IsCancelled (put m d co c)
put-IsCancelled m c d old co e keep h = elim (Bool-cases (d == c)) [
  | inl b ↦
      let e' : m c ≡ some old = subst (λ k. m k ≡ some old) ((==_iff d c).0 b) e in
      rw b (keep (rw e' at h))
  | inr b ↦ rw b h
]

resume-IsCancelled :
    (d c : ℕ) (w : World) → IsCancelled (w.coroutines c) → CancelledAfter c (resume d w)
unfolding resume
resume-IsCancelled d c w h = elim (Option-cases (w.coroutines d)) [
  | inl e ↦ rw e tt
  | inr (co, e) ↦ elim (Bool-cases (co.is_cancelled || is_finished co.state)) [
    | inl g ↦ rw (e, resume_found) (rw g h)
    | inr g ↦ elim (Bool-cases co.suspended) [
      | inr b ↦ rw (e, resume_found) (rw (g, b) tt)
      | inl b ↦
          rw (e, resume_found) (rw (g, b) (put-IsCancelled w.coroutines c d co _ e (λ q. q) h))
    ]
  ]
]

leave_found-IsCancelled :
    (d c : ℕ) (s : CoroutineState) (w : World) (o : Option Coroutine)
    → w.coroutines d ≡ o
    → IsCancelled (w.coroutines c)
    → CancelledAfter c (leave_found d s w o)
unfolding leave_found
leave_found-IsCancelled d c s w none e h = tt
leave_found-IsCancelled d c s w (some co) e h = put-IsCancelled w.coroutines c d co _ e (λ q. q) h

leave-IsCancelled :
    (c : ℕ) (s : CoroutineState) (w : World) (o : Option ℕ)
    → IsCancelled (w.coroutines c)
    → CancelledAfter c (leave_current s w o)
unfolding leave_current
leave-IsCancelled c s w none h = h
leave-IsCancelled c s w (some d) h = leave_found-IsCancelled d c s w _ refl h

finish_found-IsCancelled :
    (d c : ℕ) (rest : List ℕ) (w : World) (o : Option Coroutine)
    → w.coroutines d ≡ o
    → IsCancelled (w.coroutines c)
    → CancelledAfter c (finish_found d rest w o)
unfolding finish_found
finish_found-IsCancelled d c rest w none e h = tt
finish_found-IsCancelled d c rest w (some co) e h =
    put-IsCancelled w.coroutines c d co _ e (λ q. q) h

finish-IsCancelled :
    (c : ℕ) (w : World) (l : List ℕ)
    → IsCancelled (w.coroutines c)
    → CancelledAfter c (finish_first w l)
unfolding finish_first
finish-IsCancelled c w [] h = h
finish-IsCancelled c w (d ∷ rest) h = finish_found-IsCancelled d c rest w _ refl h

cancel_found-IsCancelled :
    (d c : ℕ) (w : World) (o : Option Coroutine)
    → w.coroutines d ≡ o
    → IsCancelled (w.coroutines c)
    → CancelledAfter c (cancel_found d w o)
unfolding cancel_found
cancel_found-IsCancelled d c w none e h = tt
cancel_found-IsCancelled d c w (some co) e h = put-IsCancelled w.coroutines c d co _ e (λ q. refl) h

step-IsCancelled :
    (a : Action) (c : ℕ) (w : World) → IsCancelled (w.coroutines c) → CancelledAfter c (step a w)
unfolding step yield wait finish cancel
step-IsCancelled (resumes d) c w h = resume-IsCancelled d c w h
step-IsCancelled (cancels d) c w h = cancel_found-IsCancelled d c w _ refl h
step-IsCancelled yields c w h = leave-IsCancelled c ready w w.current h
step-IsCancelled waits c w h = leave-IsCancelled c waiting w w.current h
step-IsCancelled returns c w h = finish-IsCancelled c w w.control h

after-IsCancelled :
    (c : ℕ) (o : Outcome) (w : World)
    → CancelledAfter c o
    → after o ≡ some w
    → IsCancelled (w.coroutines c)
unfolding after
after-IsCancelled c (answered b u) w h e =
    subst (λ x. IsCancelled (x.coroutines c)) (some-injective u w e) h
after-IsCancelled c (switched u) w h e =
    subst (λ x. IsCancelled (x.coroutines c)) (some-injective u w e) h
after-IsCancelled c corrupt w h e = cc

run-IsCancelled :
    (c : ℕ) (as' : List Action) (w u : World)
    → IsCancelled (w.coroutines c)
    → run as' w ≡ some u
    → IsCancelled (u.coroutines c)
unfolding run
run-IsCancelled c [] w u h e = subst (λ x. IsCancelled (x.coroutines c)) (some-injective w u e) h
run-IsCancelled c (a ∷ as') w u h e = go (run-IsCancelled c as') (after (step a w)) refl e
  where
    go :
        ((t x : World)
          → IsCancelled (t.coroutines c)
          → run as' t ≡ some x
          → IsCancelled (x.coroutines c))
        → (o : Option World) → after (step a w) ≡ o
        → run_next (run as') o ≡ some u
        → IsCancelled (u.coroutines c)
    go ih none q r = cc
    go ih (some t) q r = ih t u (after-IsCancelled c (step a w) t (step-IsCancelled a c w h) q) r

resume-over :
    (c : ℕ) (w : World) (o : Option Coroutine)
    → IsCancelled o
    → resume_found c w o ≡ answered false w
unfolding resume_found
resume-over c w none h = absurd h
resume-over c w (some co) h = rw h refl

-- Once a coroutine has been cancelled, and whatever calls follow that corrupt no context, a resume of
-- it answers false and changes nothing.
pub cancel-resume :
    (c : ℕ) (as' : List Action) (w u : World)
    → run (cancels c ∷ as') w ≡ some u
    → resume c u ≡ answered false u
unfolding resume run step cancel
cancel-resume c as' w u e = go (w.coroutines c) e
  where
    go :
        (o : Option Coroutine)
        → run_next (run as') (after (cancel_found c w o)) ≡ some u
        → resume_found c u (u.coroutines c) ≡ answered false u
    go none q = unfold cancel_found in unfold after in cc
    go (some co) q = resume-over c u (u.coroutines c) (
        run-IsCancelled c as' _ u
          (unfold cancel_found in unfold after in rw ((==_iff c c).1 refl) refl) q)
