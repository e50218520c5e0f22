-- ===== src/TimerQueue/Contract.antt =====
-- src/timer_queue.cpp against its contract: a list of pending timers, ordered by deadline.
use coroutine_library.Prelude.{
  ℕ, ◌+◌, ◌*◌, ◌<◌, ◌≡◌, ◌≢◌, refl, sym, ap, ◌∙◌, inl, inr, suc, ◌==◌, Bool, true, false, none,
  some, List, [], ◌∷◌, All, arith, Bool-cases,
}
use coroutine_library.Prelude.Int.{ℤ, pos_part}
use coroutine_library.Prelude.Maps.{put, nat_eq}
use coroutine_library.Prelude.Words.{add64, size_mod}
use coroutine_library.TimerQueue.{
  Entry, TimerQueue, ns_per_ms, empty_timers, is_active, insert, add, cancel, next_timeout, expire,
  count_of, Call, adds, cancels, asks, expires, Answer, handle_of, cancelled, timeout_of, fired,
  step, run,
}
use coroutine_library.TimerQueue.Live.{
  Sorted, live, has, remove, due, later, first_timeout, All-insert, All-map, live-insert,
  live-put_other, live-cancel, insert-Sorted, next_loop-live, expire_loop-live,
}
use coroutine_library.TimerQueue.Flags.{
  Marks, insert-Marks, cancel-Marks, next_loop-Marks, expire_loop-Marks, next_loop-All,
  expire_loop-All,
}

-- The timers that can still fire, soonest first, and the next handle.
pub record Pending {ℓ} (C : Type ℓ) : Type ℓ where
  pub timers : List (Entry C)
  pub next : ℕ

module _ {ℓ} {C : Type ℓ} where
  abbrev pub Below : ℕ → List (Entry C) → Type 0
  Below n es = All (λ e. e.handle < n) es

  pub spec_step : Call C → Pending C → Answer C × Pending C
  spec_step (adds now delay none) p = (handle_of 0, p)
  spec_step (adds now delay (some callback)) p = (
    handle_of p.next,
    record {
      timers =
          insert
            (record {
              deadline = now + pos_part delay * ns_per_ms;
              handle = p.next;
              callback = callback;
            })
            p.timers;
      next = p.next + 1;
    },
  )
  spec_step (cancels handle) p =
      (cancelled (has handle p.timers), record p { timers = remove handle p.timers })
  spec_step (asks now) p = (timeout_of (first_timeout now p.timers), p)
  spec_step (expires now) p =
      let cs = due now p.timers in
      (fired (count_of cs) cs, record p { timers = later now p.timers })

  pub spec_run : List (Call C) → Pending C → List (Answer C)
  spec_run [] p = []
  spec_run (c ∷ cs) p = let r = spec_step c p in r.0 ∷ spec_run cs r.1

-- What every reachable queue satisfies.
pub record Valid {ℓ} {C : Type ℓ} (q : TimerQueue C) : Type ℓ where
  pub sorted : Sorted q.entries
  pub below : Below q.next_handle q.entries
  pub marks : Marks q.active q.entries

module _ {ℓ} {C : Type ℓ} where
  abbrev pub pending : TimerQueue C → Pending C
  pending q = record { timers = live q.active q.entries; next = q.next_handle }

  record Follows (c : Call C) (q : TimerQueue C) : Type ℓ where
    answer : (step c q).0 ≡ (spec_step c (pending q)).0
    state : pending (step c q).1 ≡ (spec_step c (pending q)).1
    valid : Valid (step c q).1

  Below-fresh : (n : ℕ) (es : List (Entry C)) → Below n es → All (λ e. e.handle ≢ n) es
  Below-fresh n es b = All-map (λ e. e.handle < n) _ es (λ e p. omega arith) b

  Below-suc : (n : ℕ) (es : List (Entry C)) → Below n es → Below (n + 1) es
  Below-suc n es b = All-map (λ e. e.handle < n) _ es (λ e p. omega arith) b

  add-Follows :
      (now : ℕ) (delay : ℤ) (c : C) (q : TimerQueue C)
      → Valid q
      → q.next_handle + 1 < size_mod
      → Follows (adds now delay (some c)) q
  unfolding step spec_step add
  add-Follows now delay c q v k =
      let n = Below-fresh q.next_handle q.entries v.below in
      let e : Entry C = record {
        deadline = now + pos_part delay * ns_per_ms;
        handle = q.next_handle;
        callback = c;
      } in
      let small : add64 q.next_handle 1 ≡ q.next_handle + 1 = omega arith in
      let flag : put q.active q.next_handle true q.next_handle ≡ some true = ground arith in
      record {
        answer = refl;
        state =
            ap (λ (es : List (Entry C)). record { timers = es; next = add64 q.next_handle 1 })
              (live-insert (put q.active q.next_handle true) e q.entries v.sorted flag
                ∙ ap (insert e) (live-put_other q.active q.next_handle true q.entries n))
            ∙ ap (λ k. record { timers = insert e (live q.active q.entries); next = k }) small;
        valid = record {
          sorted = insert-Sorted e q.entries v.sorted n;
          below = rw small (
              All-insert (λ x. x.handle < q.next_handle + 1) e q.entries (omega arith)
                (Below-suc q.next_handle q.entries v.below));
          marks = insert-Marks q.active e q.entries v.sorted n v.marks;
        };
      }

  add_nothing-Follows :
      (now : ℕ) (delay : ℤ) (q : TimerQueue C) → Valid q → Follows (adds now delay none) q
  unfolding step spec_step add
  add_nothing-Follows now delay q v = record { answer = refl; state = refl; valid = v }

  remove-absent : (h : ℕ) (es : List (Entry C)) → has h es ≡ false → remove h es ≡ es
  unfolding has remove
  remove-absent h [] n = refl
  remove-absent h (e ∷ es) n = elim (Bool-cases (e.handle == h)) [
    | inl b ↦ cc (rw b at n)
    | inr b ↦ rw (b, remove-absent h es (rw b at n))
  ]

  cancel-Follows :
      (h : ℕ) (q : TimerQueue C) (b : Bool)
      → is_active (q.active h) ≡ b
      → Valid q
      → Follows (cancels h) q
  unfolding step spec_step cancel
  cancel-Follows h q true e v = record {
    answer = rw e (ap cancelled (sym e ∙ v.marks h));
    state = rw e (
        ap (λ (es : List (Entry C)). record { timers = es; next = q.next_handle })
          (live-cancel q.active h q.entries v.sorted));
    valid = rw e (record {
      sorted = v.sorted;
      below = v.below;
      marks = cancel-Marks q.active h q.entries v.sorted v.marks;
    });
  }
  cancel-Follows h q false e v = record {
    answer = rw e (ap cancelled (sym e ∙ v.marks h));
    state = rw e (
        ap (λ (es : List (Entry C)). record { timers = es; next = q.next_handle })
          (sym (remove-absent h (live q.active q.entries) (sym (v.marks h) ∙ e))));
    valid = rw e v;
  }

  pub next_timeout-first_timeout :
      (now : ℕ) (q : TimerQueue C)
      → Valid q
      → (next_timeout now q).0 ≡ first_timeout now (live q.active q.entries)
  unfolding next_timeout
  next_timeout-first_timeout now q v = (next_loop-live now q.active q.entries v.sorted).0

  ask-Follows : (now : ℕ) (q : TimerQueue C) → Valid q → Follows (asks now) q
  unfolding step spec_step next_timeout
  ask-Follows now q v =
      let (a, l, s) = next_loop-live now q.active q.entries v.sorted in
      record {
        answer = ap timeout_of a;
        state = ap (λ (es : List (Entry C)). record { timers = es; next = q.next_handle }) l;
        valid = record {
          sorted = s;
          below = next_loop-All _ now q.active q.entries v.below;
          marks = next_loop-Marks now q.active q.entries v.sorted v.marks;
        };
      }

  expire-Follows : (now : ℕ) (q : TimerQueue C) → Valid q → Follows (expires now) q
  unfolding step spec_step expire
  expire-Follows now q v =
      let (a, l, s) = expire_loop-live now q.active q.entries v.sorted in
      record {
        answer = ap (λ (cs : List C). fired (count_of cs) cs) a;
        state = ap (λ (es : List (Entry C)). record { timers = es; next = q.next_handle }) l;
        valid = record {
          sorted = s;
          below = expire_loop-All _ now q.active q.entries v.below;
          marks = expire_loop-Marks now q.active q.entries v.sorted v.marks;
        };
      }

  -- The calls left, with the handles given out, stay below the width of a handle.
  abbrev pub adds_in : List (Call C) → ℕ
  adds_in [] = 0
  adds_in (adds now delay callback ∷ cs) = suc (adds_in cs)
  adds_in (cancels h ∷ cs) = adds_in cs
  adds_in (asks now ∷ cs) = adds_in cs
  adds_in (expires now ∷ cs) = adds_in cs

  step-Follows :
      (c : Call C) (cs : List (Call C)) (q : TimerQueue C)
      → Valid q
      → adds_in (c ∷ cs) + q.next_handle < size_mod
      → Follows c q × (adds_in cs + (step c q).1.next_handle < size_mod)
  unfolding step add cancel next_timeout expire
  step-Follows (adds now delay none) cs q v k = (add_nothing-Follows now delay q v, omega arith)
  step-Follows (adds now delay (some c)) cs q v k =
      (add-Follows now delay c q v (omega arith), omega arith)
  step-Follows (cancels h) cs q v k = (cancel-Follows h q _ refl v, ground arith)
  step-Follows (asks now) cs q v k = (ask-Follows now q v, omega arith)
  step-Follows (expires now) cs q v k = (expire-Follows now q v, omega arith)

  run-pending_from :
      (cs : List (Call C)) (q : TimerQueue C)
      → Valid q
      → adds_in cs + q.next_handle < size_mod
      → (run cs q).0 ≡ spec_run cs (pending q)
  unfolding run spec_run
  run-pending_from [] q v k = refl
  run-pending_from (c ∷ cs) q v k =
      let (f, small) = step-Follows c cs q v k in
      let rest = run-pending_from cs (step c q).1 f.valid small in rw (f.answer, ← f.state, rest)

  empty_timers-Valid : Valid (empty_timers {C = C})
  unfolding empty_timers live has
  empty_timers-Valid = record { sorted = tt; below = tt; marks = λ j. refl }

  -- Any calls of `add`, `cancel`, `next_timeout` and `expire` on a new queue, with any clock readings
  -- and fewer than 2 ^ 64 - 1 adds, get the answers of the list of pending timers: handles are
  -- numbered from 1, a cancellation succeeds exactly when the timer is pending, the next timeout is
  -- that of the soonest pending timer, and the pending timers whose deadline has come are handed
  -- out once each, soonest first, and none before its deadline.
  pub run-pending :
      (cs : List (Call C))
      → adds_in cs + 1 < size_mod
      → (run cs empty_timers).0 ≡ spec_run cs (record { timers = []; next = 1 })
  unfolding empty_timers live
  run-pending cs k = run-pending_from cs empty_timers empty_timers-Valid k
