-- ===== src/Deque/Threads/Linear.antt =====
-- src/work_stealing_deque.cpp: concurrent calls against a bounded list, in the order of the steps
-- that decide them.
use coroutine_library.Prelude.{
  ℕ, suc, ◌+◌, ◌≤◌, ◌<◌, ◌≡◌, inl, inr, refl, sym, subst, Bool, true, false, if◌then◌else◌, List,
  [], ◌∷◌, ◌==◌, arith, length, Bool-cases,
}
use coroutine_library.Prelude.Words.{size_mod}
use coroutine_library.Deque.{Deque, Call, Answer}
use coroutine_library.Deque.Runs.{spec_run}
use coroutine_library.Deque.Threads.{
  Owner, resting, storing, publishing, popping, restoring, racing, closing, Thief, away, Decision,
  quiet, did, System, Act, begins_push, begins_pop, owner_goes, thief_goes, act, acts,
}
use coroutine_library.Deque.Threads.Knowledge.{ThiefOk, Ok, Decides, reach, Follows}
use coroutine_library.Deque.Threads.OwnerSteps.{begin_push-Follows, begin_pop-Follows}
use coroutine_library.Deque.Threads.OwnerPops.{reach-le, wins, owner_step-Follows}
use coroutine_library.Deque.Threads.ThiefSteps.{ThiefFollows, thief_step-ThiefFollows}
use coroutine_library.Deque.{empty_deque}
use coroutine_library.Deque.Threads.{owner_acts, thief_acts, is_resting}

module _ {A : Type 0} where
  -- The calls that events decide, and their answers.
  abbrev pub calls_of : List (Decision A) → List (Call A)
  calls_of [] = []
  calls_of (quiet ∷ es) = calls_of es
  calls_of (did c a ∷ es) = c ∷ calls_of es

  abbrev pub answers_of : List (Decision A) → List (Answer A)
  answers_of [] = []
  answers_of (quiet ∷ es) = answers_of es
  answers_of (did c a ∷ es) = a ∷ answers_of es

  abbrev pub pushes_begun : List (Act A) → ℕ
  pushes_begun [] = 0
  pushes_begun (begins_push x ∷ as') = suc (pushes_begun as')
  pushes_begun (a ∷ as') = pushes_begun as'

  -- No step of the owner is an exchange that fails.
  unfoldable pub act_wins : Act A → System A → Bool
  act_wins owner_goes s = wins s.owner s.deque
  act_wins a s = true

  unfoldable pub wins_all : List (Act A) → System A → Bool
  unfolding act_wins
  wins_all [] s = true
  wins_all (a ∷ as') s = let rest = wins_all as' (act a s).1 in if act_wins a s then rest else false

  abbrev pub at_start : System A
  at_start = record { deque = empty_deque; owner = resting; thieves = λ k. away }

  record SystemOk (s : System A) (xs : List A) : Type 0 where
    deque : Ok s.owner s.deque xs
    thieves : (k : ℕ) → ThiefOk (s.thieves k) s.deque (length xs)

  record ActFollows (more : ℕ) (s : System A) (xs : List A) (r : Decision A × System A)
      : Type 0 where
    after : List A
    decided : Decides r.0 xs after
    ok : SystemOk r.1 after
    far : reach r.1.owner r.1.deque.bottom ≤ reach s.owner s.deque.bottom + more

  owner_acts-Follows :
      (more : ℕ) (s : System A) (xs : List A) (r : Decision A × Owner A × Deque A)
      → SystemOk s xs
      → Follows more s.owner s.deque xs r
      → ActFollows more s xs (owner_acts s r)
  unfolding owner_acts
  owner_acts-Follows more s xs r v f = record {
    after = f.after;
    decided = f.decided;
    ok = record { deque = f.ok; thieves = λ k. f.kept (s.thieves k) (v.thieves k) };
    far = f.far;
  }

  resting_eq : (o : Owner A) → is_resting o ≡ true → o ≡ resting
  unfolding is_resting
  resting_eq resting e = refl
  resting_eq (storing x b) e = cc
  resting_eq (publishing x b) e = cc
  resting_eq (popping b) e = cc
  resting_eq (restoring b) e = cc
  resting_eq (racing v b) e = cc
  resting_eq (closing v b) e = cc

  -- A call is begun by an owner that rests.
  begins-Follows :
      (more : ℕ) (s : System A) (xs : List A) (r : Decision A × Owner A × Deque A)
      → SystemOk s xs
      → (Ok resting s.deque xs → s.deque.bottom < size_mod → Follows more resting s.deque xs r)
      → reach s.owner s.deque.bottom < size_mod
      → ActFollows more s xs (if is_resting s.owner then owner_acts s r else (quiet, s))
  begins-Follows more s xs r v f small = elim (Bool-cases (is_resting s.owner)) [
    | inl b ↦
        let e = resting_eq s.owner b in
        let g : Follows more s.owner s.deque xs r =
          subst (λ o. Follows more o s.deque xs r) (sym e)
            (f (subst (λ o. Ok o s.deque xs) e v.deque)
              (subst (λ o. reach o s.deque.bottom < size_mod) e small)) in
        rw b (owner_acts-Follows more s xs r v g)
    | inr b ↦ rw b (record { after = xs; decided = refl; ok = v; far = omega arith })
  ]

  thief_acts-Follows :
      (k : ℕ) (s : System A) (xs : List A) (r : Decision A × Thief A × Deque A)
      → SystemOk s xs
      → ThiefFollows s.owner s.deque xs r
      → ActFollows 0 s xs (thief_acts k s r)
  unfolding thief_acts
  thief_acts-Follows k s xs r v f = record {
    after = f.after;
    decided = f.decided;
    ok = record {
      deque = f.ok;
      thieves = λ j. elim (Bool-cases (k == j)) [
        | inl b ↦ rw b f.mine
        | inr b ↦ rw b (f.kept (s.thieves j) (v.thieves j))
      ];
    };
    far = (rw f.same (omega arith));
  }

  act-ActFollows :
      (a : Act A) (s : System A) (xs : List A)
      → SystemOk s xs
      → act_wins a s ≡ true
      → reach s.owner s.deque.bottom < size_mod
      → ActFollows (pushes_begun (a ∷ [])) s xs (act a s)
  unfolding act act_wins
  act-ActFollows (begins_push x) s xs v w small =
      begins-Follows 1 s xs _ v (λ h k. begin_push-Follows x s.deque xs h k) small
  act-ActFollows begins_pop s xs v w small =
      begins-Follows 0 s xs _ v (λ h k. begin_pop-Follows s.deque xs h) small
  act-ActFollows owner_goes s xs v w small =
      owner_acts-Follows 0 s xs _ v (owner_step-Follows s.owner s.deque xs v.deque w small)
  act-ActFollows (thief_goes k) s xs v w small = thief_acts-Follows k s xs _ v (
      thief_step-ThiefFollows (s.thieves k) s.owner s.deque xs v.deque (v.thieves k)
        (omega (arith, reach-le s.owner s.deque xs v.deque)))

  pushes_begun-cons :
      (a : Act A) (as' : List (Act A))
      → pushes_begun (a ∷ as') ≡ pushes_begun (a ∷ []) + pushes_begun as'
  pushes_begun-cons (begins_push x) as' = omega arith
  pushes_begun-cons begins_pop as' = omega arith
  pushes_begun-cons owner_goes as' = omega arith
  pushes_begun-cons (thief_goes k) as' = omega arith

  abbrev Explains : List (Decision A) → List A → Type 0
  Explains es xs = (spec_run (calls_of es) xs).0 ≡ answers_of es

  cons-Explains :
      (e : Decision A) (es : List (Decision A)) (xs ys : List A)
      → Decides e xs ys
      → Explains es ys
      → Explains (e ∷ es) xs
  unfolding spec_run
  cons-Explains quiet es xs ys h k = rw h at k
  cons-Explains (did c a) es xs ys h k = rw (h, k) refl

  acts-Explains :
      (as' : List (Act A)) (s : System A) (xs : List A)
      → SystemOk s xs
      → wins_all as' s ≡ true
      → reach s.owner s.deque.bottom + pushes_begun as' < size_mod
      → Explains (acts as' s).0 xs
  unfolding acts wins_all
  acts-Explains [] s xs v w small = unfold spec_run in refl
  acts-Explains (a ∷ as') s xs v w small = elim (Bool-cases (act_wins a s)) [
    | inr b ↦ let q : false ≡ true = rw b at w in cc
    | inl b ↦
        let f = act-ActFollows a s xs v b (omega arith) in
        let n = pushes_begun-cons a as' in
        cons-Explains (act a s).0 (acts as' (act a s).1).0 xs f.after f.decided
          (acts-Explains as' (act a s).1 f.after f.ok (rw b at w) (omega (arith, n, f.far)))
  ]

  -- The owner and any number of thieves, interleaved in any way from an empty deque, with fewer than
  -- 2 ^ 64 pushes, and where no exchange by the owner fails: the calls that come to a decision get
  -- the answers of the bounded list, in the order of their decisions. A theft that finds nothing,
  -- or whose exchange fails, is not among them.
  pub acts-bounded_list :
      (as' : List (Act A))
      → wins_all as' at_start ≡ true
      → pushes_begun as' < size_mod
      → (let es = (acts as' at_start).0 in (spec_run (calls_of es) []).0 ≡ answers_of es)
  unfolding empty_deque
  acts-bounded_list as' w small =
      acts-Explains as' at_start []
        (record {
          deque = record { window = tt; fits = omega arith; back = omega arith; owner = tt };
          thieves = λ k. tt;
        })
        w (omega arith)
