-- ===== src/Poll/Release.antt =====
-- src/poll_hook.cpp: what `poll_wait` leaves registered.
use coroutine_library.Prelude.{
  ℕ, ◌≡◌, refl, sym, ap, ◌∙◌, Bool, true, false, none, if◌then◌else◌, List, [], ◌∷◌, not, ◌||◌,
  ◌&&◌, is_some, All, Bool-cases, subst, if_true, inl, inr, arith,
}
use coroutine_library.Prelude.Int.{ℤ, int_eq, int_eq_iff, is_negative}
use coroutine_library.Events.{Event, read, write, explicit_cancel}
use coroutine_library.Hook.{Surroundings}
use coroutine_library.EventLoop.{EventLoop, Slots, set_slot, slots_at, cancel}
use coroutine_library.EventLoop.Registrations.{cancel-Follows, write_at, step, spec_step}
use coroutine_library.Poll.{
  PollFd, PollResult, blocking, immediate, finished, CtlAnswers, cancel_event, cancel_fd,
  cancel_all, disarm, poll_rest, poll_wait,
}

module _ {C : Type 0} where
  -- No callback waits for what was asked of this descriptor.
  abbrev pub free_slots : PollFd → Slots C → Bool
  free_slots p s =
      is_negative p.fd
      || (not (p.wants_read && is_some s.reader) && not (p.wants_write && is_some s.writer))

  abbrev pub free : PollFd → EventLoop C → Bool
  free p l = free_slots p (slots_at l.waits p.fd)

  cancel-slots :
      (fd : ℤ) (ev : Event) (l : EventLoop C) (j : ℤ)
      → slots_at (cancel fd ev explicit_cancel l).1.waits j
        ≡ write_at (slots_at l.waits) fd (set_slot ev none (slots_at l.waits fd)) j
  cancel-slots fd ev l j =
      unfold step in
      unfold spec_step in
      sym ((cancel-Follows fd ev explicit_cancel l (slots_at l.waits) (λ i. refl)).table j)

  clear-free :
      (ev : Event) (p : PollFd) (s : Slots C)
      → free_slots p s ≡ true
      → free_slots p (set_slot ev none s) ≡ true
  clear-free read p s h = ground (arith, h)
  clear-free write p s h = ground (arith, h)

  cancel-free :
      (fd : ℤ) (ev : Event) (l : EventLoop C) (p : PollFd)
      → free p l ≡ true
      → free p (cancel fd ev explicit_cancel l).1 ≡ true
  cancel-free fd ev l p h =
      subst (λ s. free_slots p s ≡ true) (sym (cancel-slots fd ev l p.fd))
        (elim (Bool-cases (int_eq fd p.fd)) [
          | inl b ↦
              let e : slots_at l.waits fd ≡ slots_at l.waits p.fd =
                ap (slots_at l.waits) ((int_eq_iff fd p.fd).0 b) in
              rw (b, e) (clear-free ev p (slots_at l.waits p.fd) h)
          | inr b ↦ rw b h
        ])

  cancel_event-free :
      (wanted : Bool) (fd : ℤ) (ev : Event) (l : EventLoop C) (p : PollFd)
      → free p l ≡ true
      → free p (cancel_event wanted fd ev l) ≡ true
  unfolding cancel_event
  cancel_event-free true fd ev l p h = cancel-free fd ev l p h
  cancel_event-free false fd ev l p h = h

  cancel_fd-kept :
      (q p : PollFd) (l : EventLoop C) → free p l ≡ true → free p (cancel_fd q l) ≡ true
  unfolding cancel_fd
  cancel_fd-kept q p l h = elim (Bool-cases (is_negative q.fd)) [
    | inl b ↦ rw b h
    | inr b ↦ rw b (
        cancel_event-free q.wants_write q.fd write _ p
          (cancel_event-free q.wants_read q.fd read l p h))
  ]

  cancel-cleared :
      (fd : ℤ) (ev : Event) (l : EventLoop C)
      → slots_at (cancel fd ev explicit_cancel l).1.waits fd
        ≡ set_slot ev none (slots_at l.waits fd)
  cancel-cleared fd ev l = cancel-slots fd ev l fd ∙ if_true _ _ ((int_eq_iff fd fd).1 refl)

  cancel_fd-free : (p : PollFd) (l : EventLoop C) → free p (cancel_fd p l) ≡ true
  unfolding cancel_fd
  cancel_fd-free p l = elim (Bool-cases (is_negative p.fd)) [
    | inl b ↦ rw b refl
    | inr b ↦ rw b (
        subst
          (λ s.
            (not (p.wants_read && is_some s.reader) && not (p.wants_write && is_some s.writer))
            ≡ true)
          (sym (by_wants p.wants_read p.wants_write p.fd))
          (nothing_left p.wants_read p.wants_write p.fd))
  ]
    where
      remaining : Bool → Bool → Slots C → Slots C
      remaining r w s = record {
        reader = if r then none else s.reader;
        writer = if w then none else s.writer;
      }

      by_wants :
          (r w : Bool) (fd : ℤ)
          → slots_at (cancel_event w fd write (cancel_event r fd read l)).waits fd
            ≡ remaining r w (slots_at l.waits fd)
      by_wants true true fd =
          unfold cancel_event in
          cancel-cleared fd write (cancel fd read explicit_cancel l).1
          ∙ ap (set_slot write none) (cancel-cleared fd read l)
      by_wants true false fd = unfold cancel_event in cancel-cleared fd read l
      by_wants false true fd = unfold cancel_event in cancel-cleared fd write l
      by_wants false false fd = unfold cancel_event in refl

      nothing_left :
          (r w : Bool) (fd : ℤ)
          → (not (r && is_some (remaining r w (slots_at l.waits fd)).reader)
              && not (w && is_some (remaining r w (slots_at l.waits fd)).writer))
            ≡ true
      nothing_left true true fd = refl
      nothing_left true false fd = refl
      nothing_left false true fd = refl
      nothing_left false false fd = refl

  cancel_all-kept :
      (ps : List PollFd) (p : PollFd) (l : EventLoop C)
      → free p l ≡ true
      → free p (cancel_all ps l) ≡ true
  unfolding cancel_all
  cancel_all-kept [] p l h = h
  cancel_all-kept (q ∷ ps) p l h = cancel_all-kept ps p (cancel_fd q l) (cancel_fd-kept q p l h)

  cancel_all-free :
      (ps : List PollFd) (l : EventLoop C) → All (λ p. free p (cancel_all ps l) ≡ true) ps
  unfolding cancel_all
  cancel_all-free [] l = tt
  cancel_all-free (p ∷ ps) l = (
    cancel_all-kept ps p (cancel_fd p l) (cancel_fd-free p l),
    cancel_all-free ps (cancel_fd p l),
  )

  record Released (answer : ℤ) (fds : List PollFd) (r : PollResult × EventLoop C) : Type 0 where
    freed : r.0 ≡ finished answer → All (λ p. free p r.1 ≡ true) fds

  Released-if :
      (answer : ℤ) (fds : List PollFd) (b : Bool) (x y : PollResult × EventLoop C)
      → Released answer fds x
      → Released answer fds y
      → Released answer fds (if b then x else y)
  Released-if answer fds true x y h k = h
  Released-if answer fds false x y h k = k

  poll_rest-Released :
      (answer : ℤ) (waited : Bool) (meanwhile : EventLoop C → EventLoop C) (last : ℤ)
      (fds : List PollFd) (r : ℕ × EventLoop C)
      → Released answer fds (poll_rest waited meanwhile last fds r)
  unfolding poll_rest
  poll_rest-Released answer waited meanwhile last fds (timer, l) =
      Released-if answer fds (not waited) _ _ (record { freed = λ q. cc })
        (record { freed = λ q. cancel_all-free fds (disarm timer (meanwhile l)) })

  -- A call that has waited and comes to its end leaves no callback registered for anything that it
  -- asked for, whoever had registered it.
  pub poll_wait-free :
      (e : Surroundings) (now : ℕ) (ctl : CtlAnswers) (callback : C)
      (meanwhile : EventLoop C → EventLoop C) (waited : Bool) (first last answer : ℤ)
      (fds : List PollFd) (timeout : ℤ) (l : EventLoop C)
      → (poll_wait e now ctl callback meanwhile waited first last fds timeout l).0 ≡ finished answer
      → All
          (λ p.
            free p (poll_wait e now ctl callback meanwhile waited first last fds timeout l).1
            ≡ true)
          fds
  unfolding poll_wait
  poll_wait-free e now ctl callback meanwhile waited first last answer fds timeout l h =
      let outside : Released answer fds (blocking, l) = record { freed = λ q. cc } in
      let at_once : Released answer fds (immediate first, l) = record { freed = λ q. cc } in
      let all : Released answer fds
          (poll_wait e now ctl callback meanwhile waited first last fds timeout l) =
        Released-if answer fds _ _ _ outside (
          Released-if answer fds _ _ _ at_once (
            Released-if answer fds _ _ _ outside
              (poll_rest-Released answer waited meanwhile last fds _))) in
      all.freed h
