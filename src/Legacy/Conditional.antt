-- ===== src/Legacy/Conditional.antt =====
-- fiber_lib/6hook/timer.cpp: timers whose callback runs only while an object is alive. A weak pointer
-- is the number of its object.
use coroutine_library.Prelude.{
  ℕ, ◌+◌, ◌*◌, ◌≤◌, ◌≡◌, refl, ap, ◌∙◌, Bool, true, false, Option, none, some, if◌then◌else◌, [],
  ◌∷◌, ltb, leb, ◌==◌, ==_iff, if_true, arith, Bool-cases, inl, inr,
}
use coroutine_library.Prelude.Maps.{put, nat_eq}
use coroutine_library.Legacy.Timers.{
  Timer, Keyed, TimerManager, ns_per_milli, add_timer, insert_timer, insert_key, is_first,
  take_found, list_loop, list_expired, detect_rollover,
}

-- What a timer calls: a function, or `OnTimer` bound to a weak pointer and a function.
pub data TimerCall (C : Type 0) : Type 0 where
  plain : C → TimerCall C
  guarded : ℕ → C → TimerCall C

module _ {C : Type 0} where
  -- `OnTimer`: the function that it calls. `alive` says which objects are.
  unfoldable pub on_timer : (ℕ → Bool) → ℕ → C → Option C
  on_timer alive cond cb = if alive cond then some cb else none

  unfoldable pub call_timer : (ℕ → Bool) → TimerCall C → Option C
  unfolding on_timer
  call_timer alive (plain cb) = some cb
  call_timer alive (guarded cond cb) = on_timer alive cond cb

  unfoldable pub add_condition_timer :
      ℕ → ℕ → C → ℕ → Bool → TimerManager (TimerCall C) → ℕ × TimerManager (TimerCall C)
  add_condition_timer now ms cb cond recurring m = add_timer now ms (guarded cond cb) recurring m

  -- A conditional timer that is added to a manager without timers, and is not recurring: once it is
  -- due, by a clock that has not gone back, `listExpiredCb` collects its call alone, and the call runs
  -- the function if the object is alive then, and nothing if it is not.
  pub add_condition_timer-list_expired :
      (now ms later cond : ℕ) (cb : C) (alive : ℕ → Bool) (m : TimerManager (TimerCall C))
      → now + ms * ns_per_milli ≤ later
      → m.previous_time ≤ later
      → (m' : TimerManager (TimerCall C)) × (list_expired 1 later later
            (add_condition_timer now ms cb cond false (record m { timers = [] })).1
          ≡ some (some (guarded cond cb) ∷ [], m'))
        × (m'.timers ≡ [])
        × (call_timer alive (guarded cond cb) ≡ (if alive cond then some cb else none))
  unfolding add_condition_timer add_timer insert_timer list_expired list_loop take_found call_timer
      detect_rollover insert_key is_first
  add_condition_timer-list_expired now ms later cond cb alive m due mono =
      let t : Timer (TimerCall C) = record {
        recurring = false;
        ms = ms;
        next = now + ms * ns_per_milli;
        cb = some (guarded cond cb);
      } in
      let objects = put m.objects m.fresh t in
      let self : objects m.fresh ≡ some t =
        if_true (some t) (m.objects m.fresh) ((==_iff m.fresh m.fresh).1 refl) in
      let same : (m.fresh == m.fresh) ≡ true = (==_iff m.fresh m.fresh).1 refl in
      let m' : TimerManager (TimerCall C) = record m {
        objects = put objects m.fresh (record t { cb = none });
        fresh = m.fresh + 1;
        timers = [];
        tickled = true;
        previous_time = later;
        wakes = if m.tickled then m.wakes else m.wakes + 1;
      } in
      let key : ℕ = now + ms * ns_per_milli in
      let one : Keyed = record { key = key; object = m.fresh } in
      let added : TimerManager (TimerCall C) = record m' {
        objects = objects;
        timers = one ∷ [];
        previous_time = m.previous_time;
      } in
      let inserted : (add_condition_timer now ms cb cond false (record m { timers = [] })).1
          ≡ added =
        elim (Bool-cases m.tickled) [ inl b ↦ ground arith | inr b ↦ ground arith ] in
      let steady : ltb (later + 3_600_000 * ns_per_milli) m.previous_time ≡ false = ground arith in
      let is_due : leb key later ≡ true = ground arith in
      let collected : list_expired 1 later later added ≡ some (some (guarded cond cb) ∷ [], m') =
        rw (steady, is_due, self) refl in
      (m', ap (list_expired 1 later later) inserted ∙ collected, refl, refl)
