-- ===== src/Coroutine/Transfer.antt =====
-- src/coroutine.cpp: a resume, and the leave by which control comes back.
use coroutine_library.Prelude.{
  ℕ, ◌≡◌, refl, ap, Bool, true, false, none, some, if◌then◌else◌, ◌∷◌, not, ◌||◌, arith, ◌==◌,
  ==_iff,
}
use coroutine_library.Prelude.Maps.{nat_eq}
use coroutine_library.Coroutine.{
  CoroutineState, ready, running, waiting, finished, Coroutine, World, switched, is_finished,
  set_state, leave_current, leave_found, finish_found, resume, resume_returns, yield, wait, finish,
}

-- A coroutine that can be resumed.
pub record IsResumable (c : ℕ) (co : Coroutine) (w : World) : Type 0 where
  pub there : w.coroutines c ≡ some co
  pub going : (co.is_cancelled || is_finished co.state) ≡ false
  pub out : co.suspended ≡ true

pub resume_eq :
    (c : ℕ) (co : Coroutine) (w : World)
    → IsResumable c co w
    → resume c w
      ≡ switched
          (record (set_state c running false co w) { current = some c; control = c ∷ w.control })
unfolding resume
resume_eq c co w r = simp (r.there, r.going, r.out)

-- `u` is `w` but for the state of one coroutine, which does not run in it, and has no current one.
pub record Left (c : ℕ) (s : CoroutineState) (suspended : Bool) (co : Coroutine) (w u : World)
    : Type 0 where
  pub same :
      (j : ℕ)
      → u.coroutines j
        ≡ (if c == j then some (record co { state = s; suspended = suspended }) else w.coroutines j)
  pub nobody : u.current ≡ none
  pub back : u.control ≡ w.control
  pub owner : u.owner ≡ w.owner

-- The world inside a coroutine that has just been resumed.
abbrev pub inside : ℕ → Coroutine → World → World
inside c co w = record (set_state c running false co w) {
  current = some c;
  control = c ∷ w.control;
}

pub inside_self :
    (c : ℕ) (co : Coroutine) (w : World)
    → (inside c co w).coroutines c ≡ some (record co { state = running; suspended = false })
inside_self c co w = rw ((==_iff c c).1 refl)

pub leave-Left :
    (c : ℕ) (co : Coroutine) (w : World) (s : CoroutineState)
    → (u : World) × (leave_current s (inside c co w) (some c) ≡ switched u) × Left c s true co w u
unfolding leave_current
leave-Left c co w s = (
  _,
  ap (leave_found c s (inside c co w)) (inside_self c co w),
  record { same = λ j. ground arith; nobody = refl; back = refl; owner = refl },
)

finish-Left :
    (c : ℕ) (co : Coroutine) (w : World)
    → (u : World) × (finish (inside c co w) ≡ switched u) × Left c finished false co w u
unfolding finish
finish-Left c co w = (
  _,
  ap (finish_found c w.control (inside c co w)) (inside_self c co w),
  record { same = λ j. ground arith; nobody = refl; back = refl; owner = refl },
)

Left-returns :
    (c : ℕ) (s : CoroutineState) (b : Bool) (co : Coroutine) (w u : World)
    → Left c s b co w u
    → resume_returns c u ≡ not (is_finished s)
unfolding resume_returns
Left-returns c s b co w u l = rw (l.same c, (==_iff c c).1 refl) refl

-- A coroutine that can be resumed runs as the current one. When it then leaves, the context that
-- resumed it goes on, with two things changed. The coroutine's state is ready after a yield, waiting
-- after a wait, and finished, and not to be entered, at the end of its body. And no coroutine is
-- current, not even the one that resumed it, if a coroutine did. The resume returns true in the first
-- two cases and false in the last.
pub resume-leave :
    (c : ℕ) (co : Coroutine) (w : World)
    → IsResumable c co w
    → (inner : World) × (resume c w ≡ switched inner)
      × (inner.current ≡ some c)
      × ((u : World) × (yield inner ≡ switched u)
          × Left c ready true co w u
          × (resume_returns c u ≡ true))
      × ((u : World) × (wait inner ≡ switched u)
          × Left c waiting true co w u
          × (resume_returns c u ≡ true))
      × ((u : World) × (finish inner ≡ switched u)
          × Left c finished false co w u
          × (resume_returns c u ≡ false))
unfolding yield wait
resume-leave c co w r =
    let (u, p, a) = leave-Left c co w ready in
    let (v, q, b) = leave-Left c co w waiting in
    let (x, t, d) = finish-Left c co w in
    (
      inside c co w,
      resume_eq c co w r,
      refl,
      (u, p, a, Left-returns c ready true co w u a),
      (v, q, b, Left-returns c waiting true co w v b),
      (x, t, d, Left-returns c finished false co w x d),
    )
