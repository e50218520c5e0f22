-- ===== src/EventLoop/Registrations.antt =====
-- src/event_loop.cpp: the registrations as a table of one callback for each descriptor and event.
use coroutine_library.Prelude.{
  ℕ, ◌≡◌, refl, ap, ◌∙◌, Bool, true, false, Option, none, some, if◌then◌else◌, List, [], ◌∷◌, not,
  ◌||◌, is_some, arith, Bool-cases, inl, inr,
}
use coroutine_library.Prelude.Int.{ℤ, is_negative, int_eq, int_eq_iff}
use coroutine_library.Prelude.Maps.{Map, put, int_key}
use coroutine_library.Events.{
  Event, read, write, EventResult, accepted, duplicate, invalid_fd, CancelReason,
}
use coroutine_library.EventLoop.{
  Slots, EventLoop, CtlResult, added, exists, failed, Ready, no_slots, slot, set_slot, slots_at,
  picked, left, new_loop, add, cancel, claim,
}

pub data Call (C : Type 0) : Type 0 where
  adds : ℤ → Event → Option C → CtlResult → Bool → Call C
  cancels : ℤ → Event → CancelReason → Call C
  readies : Ready → Call C

pub data Answer (C : Type 0) : Type 0 where
  result : EventResult → Answer C
  done : Bool → Answer C
  claimed : Slots C → Answer C

abbrev pub Table : Type 0 → Type 0
Table C = ℤ → Slots C

module _ {C : Type 0} where
  unfoldable pub step : Call C → EventLoop C → Answer C × EventLoop C
  step (adds fd ev c r stale) l = let x = add fd ev c r stale l in (result x.0, x.1)
  step (cancels fd ev reason) l = let x = cancel fd ev reason l in (done x.0, x.1)
  step (readies r) l = let x = claim r l in (claimed x.0, x.1)

  pub run : List (Call C) → EventLoop C → List (Answer C)
  run [] l = []
  run (c ∷ cs) l = let x = step c l in x.0 ∷ run cs x.1

  abbrev pub write_at : Table C → ℤ → Slots C → Table C
  write_at t fd s j = if int_eq fd j then s else t j

  spec_add : ℤ → Event → C → CtlResult → Table C → Answer C × Table C
  spec_add fd ev c failed t = (result invalid_fd, t)
  spec_add fd ev c r t = (result accepted, write_at t fd (set_slot ev (some c) (t fd)))

  -- A registration is refused on a negative descriptor, without a callback, where one stands
  -- already, and where epoll refuses the descriptor; an event takes what it makes ready.
  unfoldable pub spec_step : Bool → Call C → Table C → Answer C × Table C
  unfolding spec_add
  spec_step has_epoll (adds fd ev none r stale) t = (result invalid_fd, t)
  spec_step has_epoll (adds fd ev (some c) r stale) t =
      if is_negative fd || not has_epoll
      then (result invalid_fd, t)
      else if is_some (slot ev (t fd))
      then (result duplicate, t)
      else spec_add fd ev c r t
  spec_step has_epoll (cancels fd ev reason) t =
      (done (is_some (slot ev (t fd))), write_at t fd (set_slot ev none (t fd)))
  spec_step has_epoll (readies r) t = (
    claimed (record {
      reader = picked r.in_or_error (t r.fd).reader;
      writer = picked r.out_or_error (t r.fd).writer;
    }),
    write_at t r.fd (record {
      reader = left r.in_or_error (t r.fd).reader;
      writer = left r.out_or_error (t r.fd).writer;
    }),
  )

  pub spec_run : Bool → List (Call C) → Table C → List (Answer C)
  spec_run has_epoll [] t = []
  spec_run has_epoll (c ∷ cs) t = let x = spec_step has_epoll c t in x.0 ∷ spec_run has_epoll cs x.1

  pub record Follows (c : Call C) (l : EventLoop C) (t : Table C) : Type 0 where
    pub answer : (step c l).0 ≡ (spec_step l.has_epoll c t).0
    pub table : (j : ℤ) → (spec_step l.has_epoll c t).1 j ≡ slots_at (step c l).1.waits j
    pub kept : (step c l).1.has_epoll ≡ l.has_epoll

  slots_at-put :
      (m : Map ℤ (Slots C)) (fd j : ℤ) (s : Slots C)
      → slots_at (put m fd s) j ≡ (if int_eq fd j then s else slots_at m j)
  slots_at-put m fd j s = elim (Bool-cases (int_eq fd j)) [ inl b ↦ rw b | inr b ↦ rw b ]

  slots_at-put_self :
      (m : Map ℤ (Slots C)) (fd j : ℤ) → slots_at (put m fd (slots_at m fd)) j ≡ slots_at m j
  slots_at-put_self m fd j =
      rw (slots_at-put m fd j (slots_at m fd)) (elim (Bool-cases (int_eq fd j)) [
        | inl b ↦ rw b (ap (slots_at m) ((int_eq_iff fd j).0 b))
        | inr b ↦ rw b
      ])

  -- A registration that epoll refuses leaves the table as it was.
  slots_at-put_back :
      (m : Map ℤ (Slots C)) (fd j : ℤ) (ev : Event) (c : C)
      → is_some (slot ev (slots_at m fd)) ≡ false
      → slots_at
          (put
            (put m fd (set_slot ev (some c) (slots_at m fd)))
            fd
            (set_slot ev none (slots_at (put m fd (set_slot ev (some c) (slots_at m fd))) fd)))
          j
        ≡ slots_at m j
  slots_at-put_back m fd j ev c e = elim (Bool-cases (int_eq fd j)) [
    | inl b ↦
        rw (b, (int_eq_iff fd fd).1 refl)
          (clear ev (slots_at m fd) e ∙ ap (slots_at m) ((int_eq_iff fd j).0 b))
    | inr b ↦ rw b
  ]
    where
      clear :
          (e : Event) (s : Slots C)
          → is_some (slot e s) ≡ false
          → set_slot e none (set_slot e (some c) s) ≡ s
      clear read s h = ground arith
      clear write s h = ground arith

  add-Follows :
      (fd : ℤ) (ev : Event) (c : Option C) (r : CtlResult) (stale : Bool) (l : EventLoop C)
      (t : Table C)
      → ((j : ℤ) → t j ≡ slots_at l.waits j)
      → Follows (adds fd ev c r stale) l t
  unfolding step spec_step add
  add-Follows fd ev none r stale l t h = record { answer = refl; table = h; kept = refl }
  add-Follows fd ev (some c) r stale l t h = elim (Bool-cases (is_negative fd || not l.has_epoll)) [
    | inl g ↦ record { answer = rw g; table = λ j. rw g (h j); kept = rw g }
    | inr g ↦ elim (Bool-cases (is_some (slot ev (slots_at l.waits fd)))) [
      | inl d ↦ record {
        answer = rw (g, h fd, d);
        table = λ j. rw (g, h fd, d, slots_at-put_self l.waits fd j) (h j);
        kept = rw (g, d);
      }
      | inr d ↦ armed r stale g d
    ]
  ]
    where
      s : Slots C
      s = slots_at l.waits fd

      armed :
          (r : CtlResult) (stale : Bool)
          → (is_negative fd || not l.has_epoll) ≡ false
          → is_some (slot ev (slots_at l.waits fd)) ≡ false
          → Follows (adds fd ev (some c) r stale) l t
      armed failed stale g d = record {
        answer = rw (g, h fd, d);
        table = λ j. rw (g, h fd, d, slots_at-put_back l.waits fd j ev c d) (h j);
        kept = rw (g, d);
      }
      armed exists stale g d = record {
        answer = rw (g, h fd, d);
        table = λ j. rw (g, h fd, d, slots_at-put l.waits fd j (set_slot ev (some c) s), h j);
        kept = rw (g, d);
      }
      armed added true g d = record {
        answer = rw (g, h fd, d);
        table = λ j. rw (g, h fd, d, slots_at-put l.waits fd j (set_slot ev (some c) s), h j);
        kept = rw (g, d);
      }
      armed added false g d = record {
        answer = rw (g, h fd, d);
        table = λ j. rw (g, h fd, d, slots_at-put l.waits fd j (set_slot ev (some c) s), h j);
        kept = rw (g, d);
      }

  pub cancel-Follows :
      (fd : ℤ) (ev : Event) (reason : CancelReason) (l : EventLoop C) (t : Table C)
      → ((j : ℤ) → t j ≡ slots_at l.waits j)
      → Follows (cancels fd ev reason) l t
  unfolding step spec_step cancel
  cancel-Follows fd read reason l t h = record {
    answer = ground (arith, h fd);
    table = λ j. ground (arith, h fd, h j, int_eq_iff fd j);
    kept = ground (arith, h fd);
  }
  cancel-Follows fd write reason l t h = record {
    answer = ground (arith, h fd);
    table = λ j. ground (arith, h fd, h j, int_eq_iff fd j);
    kept = ground (arith, h fd);
  }

  claim-Follows :
      (r : Ready) (l : EventLoop C) (t : Table C)
      → ((j : ℤ) → t j ≡ slots_at l.waits j)
      → Follows (readies r) l t
  unfolding step spec_step claim
  claim-Follows r l t h = record {
    answer = ground (arith, h r.fd);
    table = λ j. ground (arith, h r.fd, h j, int_eq_iff r.fd j);
    kept = ground (arith, h r.fd);
  }

  step-Follows :
      (c : Call C) (l : EventLoop C) (t : Table C)
      → ((j : ℤ) → t j ≡ slots_at l.waits j)
      → Follows c l t
  step-Follows (adds fd ev c r stale) l t h = add-Follows fd ev c r stale l t h
  step-Follows (cancels fd ev reason) l t h = cancel-Follows fd ev reason l t h
  step-Follows (readies r) l t h = claim-Follows r l t h

  run-slots_from :
      (cs : List (Call C)) (l : EventLoop C) (t : Table C)
      → ((j : ℤ) → t j ≡ slots_at l.waits j)
      → run cs l ≡ spec_run l.has_epoll cs t
  unfolding run spec_run
  run-slots_from [] l t h = refl
  run-slots_from (c ∷ cs) l t h =
      let f = step-Follows c l t h in
      rw (f.answer, run-slots_from cs (step c l).1 (spec_step l.has_epoll c t).1 f.table, f.kept)

  -- Any sequence of `add`, `cancel` and events on a new loop gets the answers of the table: a
  -- callback that was accepted is handed out by the first event for its direction, once, unless it
  -- was cancelled before, and a cancellation succeeds exactly when one is registered.
  pub run-slots :
      (id : ℕ) (has_epoll : Bool) (wake_fd : ℤ) (cs : List (Call C))
      → run cs (new_loop id has_epoll wake_fd) ≡ spec_run has_epoll cs (λ _. no_slots)
  unfolding new_loop
  run-slots id has_epoll wake_fd cs =
      run-slots_from cs (new_loop id has_epoll wake_fd) (λ _. no_slots) (λ j. refl)
