-- ===== src/TimerQueue.antt =====
-- include/coroutine/timer_queue.h, src/timer_queue.cpp. Time points are nanoseconds of the steady
-- clock and do not wrap; `now` is an argument. The priority queue is the list of its entries in the
-- order in which they come to the top; entries with one deadline keep the order of their `add`.
pub mod Live
pub mod Flags
pub mod Contract
use coroutine_library.Prelude.{
  ℕ, zero, suc, ◌+◌, ◌-◌, ◌*◌, ◌/◌, ◌≡◌, refl, Bool, true, false, Option, none, some, if◌then◌else◌,
  List, [], ◌∷◌, ◌++◌, ltb, leb,
}
use coroutine_library.Prelude.Int.{ℤ, pos_part}
use coroutine_library.Prelude.Maps.{Map, put, erase, empty_map, nat_eq}
use coroutine_library.Prelude.Words.{add64}

abbrev pub ns_per_ms : ℕ
ns_per_ms = 1_000_000

pub record Entry {ℓ} (C : Type ℓ) : Type ℓ where
  pub deadline : ℕ
  pub handle : ℕ
  pub callback : C

pub record TimerQueue {ℓ} (C : Type ℓ) : Type ℓ where
  pub entries : List (Entry C)
  pub active : Map ℕ Bool
  pub next_handle : ℕ

-- `it != active_.end() && it->second`.
abbrev pub is_active : Option Bool → Bool
is_active none = false
is_active (some b) = b

module _ {ℓ} {C : Type ℓ} where
  unfoldable pub empty_timers : TimerQueue C
  empty_timers = record { entries = []; active = empty_map; next_handle = 1 }

  -- `entries_.push`.
  unfoldable pub insert : Entry C → List (Entry C) → List (Entry C)
  insert e [] = e ∷ []
  insert e (x ∷ xs) = if ltb e.deadline x.deadline then e ∷ x ∷ xs else x ∷ insert e xs

  unfoldable pub add : ℕ → ℤ → Option C → TimerQueue C → ℕ × TimerQueue C
  add now delay none q = (0, q)
  add now delay (some callback) q = (
    q.next_handle,
    record {
      entries =
          insert
            (record {
              deadline = now + pos_part delay * ns_per_ms;
              handle = q.next_handle;
              callback = callback;
            })
            q.entries;
      active = put q.active q.next_handle true;
      next_handle = add64 q.next_handle 1;
    },
  )

  unfoldable pub cancel : ℕ → TimerQueue C → Bool × TimerQueue C
  cancel handle q =
      if is_active (q.active handle)
      then (true, record q { active = put q.active handle false })
      else (false, q)

  -- The loop of `next_timeout`, with the entries and flags that it leaves; `none` is
  -- `Duration::max()`. What is left of a duration is cut to whole milliseconds.
  pub next_loop : ℕ → List (Entry C) → Map ℕ Bool → Option ℕ × List (Entry C) × Map ℕ Bool
  next_loop now [] active = (none, [], active)
  next_loop now (e ∷ es) active =
      let rest = next_loop now es (erase active e.handle) in
      if is_active (active e.handle)
      then (some (if leb e.deadline now then 0 else (e.deadline - now) / ns_per_ms), e ∷ es, active)
      else rest

  unfoldable pub next_timeout : ℕ → TimerQueue C → Option ℕ × TimerQueue C
  unfolding next_loop
  next_timeout now q =
      let r = next_loop now q.entries q.active in (r.0, record q { entries = r.1; active = r.2 })

  -- The loop of `expire`, with the callbacks that it appends.
  pub expire_loop : ℕ → List (Entry C) → Map ℕ Bool → List C × List (Entry C) × Map ℕ Bool
  expire_loop now [] active = ([], [], active)
  expire_loop now (e ∷ es) active =
      let skip = expire_loop now es active in
      let fire = expire_loop now es (erase active e.handle) in
      if leb e.deadline now
      then (if is_active (active e.handle) then (e.callback ∷ fire.0, fire.1, fire.2) else skip)
      else ([], e ∷ es, active)

  abbrev pub count_of : List C → ℕ
  count_of [] = 0
  count_of (c ∷ cs) = suc (count_of cs)

  -- The count, the vector of callbacks with the new ones behind, and the queue.
  unfoldable pub expire : ℕ → List C → TimerQueue C → ℕ × List C × TimerQueue C
  unfolding expire_loop
  expire now callbacks q =
      let r = expire_loop now q.entries q.active in
      (count_of r.0, callbacks ++ r.0, record q { entries = r.1; active = r.2 })

pub data Call {ℓ} (C : Type ℓ) : Type ℓ where
  adds : ℕ → ℤ → Option C → Call C
  cancels : ℕ → Call C
  asks : ℕ → Call C
  expires : ℕ → Call C

pub data Answer {ℓ} (C : Type ℓ) : Type ℓ where
  handle_of : ℕ → Answer C
  cancelled : Bool → Answer C
  timeout_of : Option ℕ → Answer C
  fired : ℕ → List C → Answer C

module _ {ℓ} {C : Type ℓ} where
  unfoldable pub step : Call C → TimerQueue C → Answer C × TimerQueue C
  step (adds now delay callback) q = let r = add now delay callback q in (handle_of r.0, r.1)
  step (cancels handle) q = let r = cancel handle q in (cancelled r.0, r.1)
  step (asks now) q = let r = next_timeout now q in (timeout_of r.0, r.1)
  step (expires now) q = let r = expire now [] q in (fired r.0 r.1, r.2)

  unfoldable pub run : List (Call C) → TimerQueue C → List (Answer C) × TimerQueue C
  run [] q = ([], q)
  run (c ∷ cs) q = let r = step c q in let rest = run cs r.1 in (r.0 ∷ rest.0, rest.1)
