-- ===== src/Legacy/Timers.antt =====
-- fiber_lib/6hook/timer.h, timer.cpp: `Timer` and `TimerManager`. A timer object is an entry of
-- `objects` under its number. The set of timers is ordered by `m_next` alone: it is the list of its
-- keys with the objects inserted under them. An object's `m_next` changes only while the object is
-- out of the set. Time points are nanoseconds, and each reading of the clock is an argument.
use coroutine_library.Prelude.{
  ℕ, zero, suc, ◌+◌, ◌-◌, ◌*◌, ◌/◌, Bool, true, false, Option, none, some, if◌then◌else◌, List, [],
  ◌∷◌, ltb, leb, ◌==◌, not, ◌&&◌, ◌||◌,
}
use coroutine_library.Prelude.Maps.{Map, put, empty_map, nat_eq}
use coroutine_library.Prelude.Words.{size_max}

pub record Timer (C : Type 0) : Type 0 where
  pub recurring : Bool
  pub ms : ℕ
  pub next : ℕ
  pub cb : Option C

-- A key of the set and the object inserted under it.
pub record Keyed : Type 0 where
  pub key : ℕ
  pub object : ℕ

-- `fresh` numbers the objects; `wakes` counts the calls of `onTimerInsertedAtFront`.
pub record TimerManager (C : Type 0) : Type 0 where
  pub objects : Map ℕ (Timer C)
  pub fresh : ℕ
  pub timers : List Keyed
  pub tickled : Bool
  pub previous_time : ℕ
  pub wakes : ℕ

abbrev pub ns_per_milli : ℕ
ns_per_milli = 1_000_000

-- `m_timers.insert`: where an equal key is there already, nothing is inserted.
unfoldable pub insert_key : Keyed → List Keyed → List Keyed
insert_key k [] = k ∷ []
insert_key k (x ∷ xs) =
    let rest = insert_key k xs in
    if ltb k.key x.key then k ∷ x ∷ xs else if k.key == x.key then x ∷ xs else x ∷ rest

-- `m_timers.find`, which compares the keys.
unfoldable pub has_key : ℕ → List Keyed → Bool
has_key n [] = false
has_key n (x ∷ xs) = if n == x.key then true else has_key n xs

unfoldable pub erase_key : ℕ → List Keyed → List Keyed
erase_key n [] = []
erase_key n (x ∷ xs) = let rest = erase_key n xs in if n == x.key then xs else x ∷ rest

-- Whether the element with this key is the first.
unfoldable pub is_first : ℕ → List Keyed → Bool
is_first n [] = false
is_first n (x ∷ xs) = n == x.key

next_of : ℕ → List Keyed → ℕ
next_of now [] = size_max
next_of now (x ∷ xs) = if leb x.key now then 0 else (x.key - now) / ns_per_milli

module _ {C : Type 0} where
  unfoldable pub new_manager : ℕ → TimerManager C
  new_manager now = record {
    objects = empty_map;
    fresh = 0;
    timers = [];
    tickled = false;
    previous_time = now;
    wakes = 0;
  }

  -- `addTimer` of an object: the thread that waits is woken if the object came first.
  unfoldable pub insert_timer : ℕ → ℕ → TimerManager C → TimerManager C
  unfolding insert_key is_first
  insert_timer key object m =
      let timers : List Keyed = insert_key (record { key = key; object = object }) m.timers in
      if is_first key timers && not m.tickled
      then record m { timers = timers; tickled = true; wakes = m.wakes + 1 }
      else record m { timers = timers }

  -- `addTimer` of a callback: the new object's number.
  unfoldable pub add_timer : ℕ → ℕ → C → Bool → TimerManager C → ℕ × TimerManager C
  unfolding insert_timer
  add_timer now ms cb recurring m =
      let next : ℕ = now + ms * ns_per_milli in
      (
        m.fresh,
        insert_timer next m.fresh (record m {
          objects =
              put m.objects m.fresh
                (record { recurring = recurring; ms = ms; next = next; cb = some cb });
          fresh = m.fresh + 1;
        }),
      )

  unfoldable pub cancel_found : ℕ → TimerManager C → Option (Timer C) → Bool × TimerManager C
  cancel_found id m none = (false, m)
  cancel_found id m (some t) = elim t.cb [
    | none ↦ (false, m)
    | some cb ↦ (
      true,
      record m {
        objects = put m.objects id (record t { cb = none });
        timers = erase_key t.next m.timers;
      },
    )
  ]

  unfoldable pub cancel : ℕ → TimerManager C → Bool × TimerManager C
  unfolding cancel_found erase_key
  cancel id m = cancel_found id m (m.objects id)

  unfoldable pub refresh_found : ℕ → ℕ → TimerManager C → Option (Timer C) → Bool × TimerManager C
  unfolding has_key erase_key insert_key
  refresh_found now id m none = (false, m)
  refresh_found now id m (some t) = elim t.cb [
    | none ↦ (false, m)
    | some cb ↦
        let next : ℕ = now + t.ms * ns_per_milli in
        if not (has_key t.next m.timers) then (false, m) else (
          true,
          record m {
            objects = put m.objects id (record t { next = next });
            timers = insert_key (record { key = next; object = id }) (erase_key t.next m.timers);
          },
        )
  ]

  unfoldable pub refresh : ℕ → ℕ → TimerManager C → Bool × TimerManager C
  unfolding refresh_found
  refresh now id m = refresh_found now id m (m.objects id)

  unfoldable pub reset_found :
      ℕ → ℕ → Bool → ℕ → TimerManager C → Option (Timer C) → Bool × TimerManager C
  unfolding has_key erase_key insert_timer
  reset_found now ms from_now id m none = (false, m)
  reset_found now ms from_now id m (some t) =
      if ms == t.ms && not from_now then (true, m) else elim t.cb [
        | none ↦ (false, m)
        | some cb ↦
            let next : ℕ =
              (if from_now then now else t.next - t.ms * ns_per_milli) + ms * ns_per_milli in
            if not (has_key t.next m.timers) then (false, m) else (
              true,
              insert_timer next id (record m {
                objects = put m.objects id (record t { ms = ms; next = next });
                timers = erase_key t.next m.timers;
              }),
            )
      ]

  unfoldable pub reset : ℕ → ℕ → Bool → ℕ → TimerManager C → Bool × TimerManager C
  unfolding reset_found
  reset now ms from_now id m = reset_found now ms from_now id m (m.objects id)

  -- The milliseconds to the first timer; all ones if there is none.
  unfoldable pub get_next_timer : ℕ → TimerManager C → ℕ × TimerManager C
  unfolding next_of
  get_next_timer now m = (next_of now m.timers, record m { tickled = false })

  unfoldable pub has_timer : TimerManager C → Bool
  has_timer m = elim m.timers [ [] ↦ false | x ∷ xs ↦ true ]

  -- Whether the clock has gone back by more than an hour.
  unfoldable pub detect_rollover : ℕ → TimerManager C → Bool × TimerManager C
  detect_rollover now m =
      (ltb (now + 3_600_000 * ns_per_milli) m.previous_time, record m { previous_time = now })

  -- The first timer is taken out; a recurring one goes back, under a later key.
  unfoldable pub take_found :
      ℕ → Keyed → List Keyed → TimerManager C → Option (Timer C) → Option C × TimerManager C
  unfolding insert_key
  take_found now x xs m none = (none, record m { timers = xs })
  take_found now x xs m (some t) =
      if t.recurring
      then (let next : ℕ = now + t.ms * ns_per_milli in
          (
            t.cb,
            record m {
              objects = put m.objects x.object (record t { next = next });
              timers = insert_key (record { key = next; object = x.object }) xs;
            },
          ))
      else (
        t.cb,
        record m { objects = put m.objects x.object (record t { cb = none }); timers = xs },
      )

  unfoldable pub cons_cb :
      Option C
      → Option (List (Option C) × TimerManager C)
      → Option (List (Option C) × TimerManager C)
  cons_cb cb none = none
  cons_cb cb (some (cbs, m)) = some (cb ∷ cbs, m)

  -- The loop of `listExpiredCb`, for so many turns; `none` if it goes on.
  unfoldable pub list_loop :
      ℕ → ℕ → Bool → List Keyed → TimerManager C → Option (List (Option C) × TimerManager C)
  unfolding take_found cons_cb
  list_loop fuel now rollover [] m = some ([], m)
  list_loop zero now rollover (x ∷ xs) m =
      if not (rollover || leb x.key now) then some ([], m) else none
  list_loop (suc fuel) now rollover (x ∷ xs) m =
      let r = take_found now x xs m (m.objects x.object) in
      let rest = list_loop fuel now rollover r.1.timers r.1 in
      if not (rollover || leb x.key now) then some ([], m) else cons_cb r.0 rest

  -- `listExpiredCb`: the clock is read before the lock and again by `detectClockRollover`.
  unfoldable pub list_expired :
      ℕ → ℕ → ℕ → TimerManager C → Option (List (Option C) × TimerManager C)
  unfolding list_loop detect_rollover
  list_expired fuel now later m =
      let r = detect_rollover later m in list_loop fuel now r.0 r.1.timers r.1
