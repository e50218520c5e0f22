-- ===== src/Coroutine/Control.antt =====
-- src/coroutine.cpp: who is running, in every history of calls.
use mathlib.Core.Option.{some-injective}
use coroutine_library.Prelude.{
  ℕ, ◌≡◌, ◌≢◌, ◌⊎◌, inl, inr, refl, subst, sym, ◌∙◌, true, false, Option, none, some, if◌then◌else◌,
  List, [], ◌∷◌, not, ◌||◌, All, ◌==◌, ==_iff, Bool-cases, Option-cases,
}
use coroutine_library.Prelude.Maps.{Map, put, nat_eq}
use coroutine_library.Coroutine.{
  CoroutineState, ready, running, waiting, Coroutine, World, Outcome, answered, switched, corrupt,
  Action, resumes, cancels, yields, waits, returns, is_finished, tail_of, resume_found,
  leave_current, leave_found, finish_found, finish_first, cancel_found, resume, yield, wait, finish,
  cancel, step, after, run_next, run,
}

abbrev pub Entered : Option Coroutine → Type 0
Entered none = ⊥
Entered (some co) = co.suspended ≡ false

abbrev pub Distinct : List ℕ → Type 0
Distinct [] = Unit {0}
Distinct (c ∷ cs) = All (λ d. d ≢ c) cs × Distinct cs

-- `current` is null or the running coroutine, and no coroutine that has been entered can be entered
-- once more.
pub record Sound (w : World) : Type 0 where
  pub head :
      (w.current ≡ none)
      ⊎ ((c : ℕ) × (rest : List ℕ) × (w.current ≡ some c) × (w.control ≡ c ∷ rest))
  pub inside : All (λ c. Entered (w.coroutines c)) w.control
  pub distinct : Distinct w.control

abbrev SoundOutcome : Outcome → Type 0
SoundOutcome (answered b w) = Sound w
SoundOutcome (switched w) = Sound w
SoundOutcome corrupt = Unit {0}

-- A change of a coroutine that is not in the list.
inside-put :
    (m : Map ℕ Coroutine) (c : ℕ) (co : Coroutine) (cs : List ℕ)
    → All (λ d. d ≢ c) cs
    → All (λ d. Entered (m d)) cs
    → All (λ d. Entered (put m c co d)) cs
inside-put m c co [] n h = tt
inside-put m c co (d ∷ ds) n h = (
  elim (Bool-cases (c == d)) [ inl b ↦ absurd (n.0 (sym ((==_iff c d).0 b))) | inr b ↦ rw b h.0 ],
  inside-put m c co ds n.1 h.1,
)

-- A change that leaves open whether the coroutine can be entered.
inside-put_same :
    (m : Map ℕ Coroutine) (c : ℕ) (old co : Coroutine) (cs : List ℕ)
    → m c ≡ some old
    → co.suspended ≡ old.suspended
    → All (λ d. Entered (m d)) cs
    → All (λ d. Entered (put m c co d)) cs
inside-put_same m c old co [] e s h = tt
inside-put_same m c old co (d ∷ ds) e s h = (
  elim (Bool-cases (c == d)) [
    | inl b ↦
        let e' : m d ≡ some old = subst (λ k. m k ≡ some old) ((==_iff c d).0 b) e in
        rw b (s ∙ (rw e' at h.0))
    | inr b ↦ rw b h.0
  ],
  inside-put_same m c old co ds e s h.1,
)

not-inside :
    (m : Map ℕ Coroutine) (c : ℕ) (co : Coroutine) (cs : List ℕ)
    → m c ≡ some co
    → co.suspended ≡ true
    → All (λ d. Entered (m d)) cs
    → All (λ d. d ≢ c) cs
not-inside m c co [] e s h = tt
not-inside m c co (d ∷ ds) e s h = (
  λ p. let q : co.suspended ≡ false = rw e at (subst (λ k. Entered (m k)) p h.0) in cc,
  not-inside m c co ds e s h.1,
)

resume-Sound : (c : ℕ) (w : World) → Sound w → SoundOutcome (resume c w)
unfolding resume
resume-Sound c w v = elim (Option-cases (w.coroutines c)) [
  | inl e ↦ rw e tt
  | inr (co, e) ↦ elim (Bool-cases (co.is_cancelled || is_finished co.state)) [
    | inl g ↦ rw (e, resume_found) (rw g v)
    | inr g ↦ elim (Bool-cases co.suspended) [
      | inr b ↦ rw (e, resume_found) (rw (g, b) tt)
      | inl b ↦
          let out = not-inside w.coroutines c co w.control e b v.inside in
          rw (e, resume_found) (rw g (entering co out b))
    ]
  ]
]
  where
    entering :
        (co : Coroutine)
        → All (λ d. d ≢ c) w.control
        → co.suspended ≡ true
        → SoundOutcome (
            if not co.suspended
            then corrupt
            else switched (record w {
              coroutines = put w.coroutines c (record co { state = running; suspended = false });
              current = some c;
              control = c ∷ w.control;
            }))
    entering co out b = rw b (record {
      head = inr (c, w.control, refl, refl);
      inside = (rw ((==_iff c c).1 refl) refl, inside-put w.coroutines c _ w.control out v.inside);
      distinct = (out, v.distinct);
    })

-- The running coroutine leaves: those below it stay as they are.
left-Sound :
    (c : ℕ) (rest : List ℕ) (co : Coroutine) (w : World)
    → Sound w
    → w.control ≡ c ∷ rest
    → Sound (record w { coroutines = put w.coroutines c co; current = none; control = rest })
left-Sound c rest co w v e =
    let d : Distinct (c ∷ rest) = subst Distinct e v.distinct in
    let h = subst (All (λ k. Entered (w.coroutines k))) e v.inside in
    record { head = inl refl; inside = inside-put w.coroutines c co rest d.0 h.1; distinct = d.1 }

leave_found-Sound :
    (c : ℕ) (rest : List ℕ) (s : CoroutineState) (w : World) (o : Option Coroutine)
    → Sound w
    → w.control ≡ c ∷ rest
    → SoundOutcome (leave_found c s w o)
unfolding leave_found
leave_found-Sound c rest s w none v e = tt
leave_found-Sound c rest s w (some co) v e =
    subst
      (λ l. Sound (record w {
        coroutines = put w.coroutines c (record co { state = s; suspended = true });
        current = none;
        control = tail_of l;
      }))
      (sym e) (left-Sound c rest _ w v e)

leave-Sound :
    (s : CoroutineState) (w : World) → Sound w → SoundOutcome (leave_current s w w.current)
leave-Sound s w v = by_head v.head
  where
    by_head :
        ((w.current ≡ none)
          ⊎ ((c : ℕ) × (rest : List ℕ) × (w.current ≡ some c) × (w.control ≡ c ∷ rest)))
        → SoundOutcome (leave_current s w w.current)
    by_head (inl e) =
        subst (λ o. SoundOutcome (leave_current s w o)) (sym e) (unfold leave_current in v)
    by_head (inr (c, rest, e, l)) =
        subst (λ o. SoundOutcome (leave_current s w o)) (sym e)
          (unfold leave_current in leave_found-Sound c rest s w (w.coroutines c) v l)

finish_first-Sound :
    (w : World) (l : List ℕ) → Sound w → w.control ≡ l → SoundOutcome (finish_first w l)
unfolding finish_first
finish_first-Sound w [] v e = v
finish_first-Sound w (c ∷ rest) v e = by_found (w.coroutines c)
  where
    by_found : (o : Option Coroutine) → SoundOutcome (finish_found c rest w o)
    by_found none = tt
    by_found (some co) = left-Sound c rest _ w v e

cancel-Sound : (c : ℕ) (w : World) → Sound w → SoundOutcome (cancel c w)
unfolding cancel
cancel-Sound c w v = elim (Option-cases (w.coroutines c)) [
  | inl e ↦ rw e tt
  | inr (co, e) ↦
      rw (e, cancel_found)
        (record {
          head = v.head;
          inside = inside-put_same w.coroutines c co _ w.control e refl v.inside;
          distinct = v.distinct;
        })
]

step-Sound : (a : Action) (w : World) → Sound w → SoundOutcome (step a w)
unfolding step yield wait finish
step-Sound (resumes c) w v = resume-Sound c w v
step-Sound (cancels c) w v = cancel-Sound c w v
step-Sound yields w v = leave-Sound ready w v
step-Sound waits w v = leave-Sound waiting w v
step-Sound returns w v = finish_first-Sound w w.control v refl

after-Sound : (o : Outcome) (w : World) → SoundOutcome o → after o ≡ some w → Sound w
unfolding after
after-Sound (answered b u) w v e = subst Sound (some-injective u w e) v
after-Sound (switched u) w v e = subst Sound (some-injective u w e) v
after-Sound corrupt w v e = cc

-- In every history of calls that does not resume a running coroutine or one that is not there,
-- `current` is null or the coroutine that runs, no coroutine stands twice in the chain of resumes,
-- and none of the chain can be entered again.
pub run-Sound : (as' : List Action) (w u : World) → Sound w → run as' w ≡ some u → Sound u
unfolding run
run-Sound [] w u v e = subst Sound (some-injective w u e) v
run-Sound (a ∷ as') w u v e = go (run-Sound as') (after (step a w)) refl e
  where
    go :
        ((t x : World) → Sound t → run as' t ≡ some x → Sound x)
        → (o : Option World) → after (step a w) ≡ o
        → run_next (run as') o ≡ some u
        → Sound u
    go ih none q r = cc
    go ih (some t) q r = ih t u (after-Sound (step a w) t (step-Sound a w v) q) r
